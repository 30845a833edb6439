-- ===== src/Dialogs/Migration/Controls.antt =====
-- webui/src/app/ui/migrationDialog.tsx: which parts of the dialog offer which control.
use kvrocks_controller.Common.{
  Bool, List, [], ap, false, if◌then◌else◌, inl, inr, not, refl, sym, true, ◌++◌, ◌∙◌, ◌∷◌, ◌≡◌,
  ◌⊎◌,
}
use kvrocks_controller.Dialogs.Migration.{Dialog}
use kvrocks_controller.Dialogs.Migration.View.{
  Action, Shard, actions_view, available_target_shards, choose_target, dialog_view, dismiss_error,
  error_view, mark_if, press_cancel, press_start, selection_view, set_slot_only, slot_view,
  start_disabled, target_choice, target_choices, title_view,
}
use kvrocks_controller.Js.Number.{Num, num_ℕ}
use kvrocks_controller.Js.Number.Laws.{parse_int-show_ℕ}
use kvrocks_controller.Js.Text.{Text, codes}
use kvrocks_controller.Js.Value.{truthy}
use kvrocks_controller.Ui.{Offers, alert, button, icon}
use kvrocks_controller.Ui.Laws.{Offers-append}

-- The index of one of the shards.
abbrev pub IndexAmong : Num → List Shard → Type 0
IndexAmong n [] = ⊥
IndexAmong n (s ∷ ss) = (num_ℕ s.index ≡ n) ⊎ IndexAmong n ss

mark_if-nothing : (b : Bool) (t : Text) (a : Action) → ¬ Offers (mark_if b t) a
unfolding mark_if
mark_if-nothing true t a h = h
mark_if-nothing false t a h = h

-- The choices offer the indices of the shards, and nothing else.
target_choices-Offers :
    (d : Dialog) (ss : List Shard) (a : Action)
    → Offers (target_choices d ss) a
    → (n : Num) × (a ≡ choose_target n) × IndexAmong n ss
unfolding target_choices target_choice
target_choices-Offers d [] a h = absurd h
target_choices-Offers d (s ∷ ss) a (inl e) =
    (num_ℕ s.index, sym e ∙ ap choose_target (parse_int-show_ℕ s.index), inl refl)
target_choices-Offers d (s ∷ ss) a (inr h) =
    elim (Offers-append
      (mark_if s.has_migration (codes "Migrating") ++ mark_if s.has_importing (codes "Importing"))
      (target_choices d ss) a h) [
        | inr later' ↦ let (n, e, among) = target_choices-Offers d ss a later' in (n, e, inr among)
        | inl marks ↦
            absurd
              (elim (Offers-append (mark_if s.has_migration (codes "Migrating"))
                (mark_if s.has_importing (codes "Importing")) a marks) [
                  | inl m ↦ mark_if-nothing _ _ a m
                  | inr m ↦ mark_if-nothing _ _ a m
                ])
      ]

selection_view-Offers :
    (d : Dialog) (ss : List Shard) (a : Action)
    → Offers (selection_view d ss) a
    → (n : Num) × (a ≡ choose_target n) × IndexAmong n ss
unfolding selection_view
selection_view-Offers d [] a h = absurd h
selection_view-Offers d (s ∷ ss) a h = target_choices-Offers d (s ∷ ss) a h

-- The buttons: closing, and starting if the button is not disabled.
abbrev pub IsButton : Dialog → List Shard → Action → Type 0
IsButton d ss a = (a ≡ press_cancel) ⊎ ((a ≡ press_start) × (start_disabled d ss ≡ false))

actions_view-Offers :
    (d : Dialog) (ss : List Shard) (a : Action) → Offers (actions_view d ss) a → IsButton d ss a
unfolding actions_view
actions_view-Offers d ss a h = split d.loading (start_disabled d ss) h
  where
    split :
        (busy closed : Bool)
        → Offers
            (button (codes "Cancel") busy press_cancel
              ∷ icon (if busy then codes "CircularProgress" else codes "MoveUpIcon")
              ∷ button
                  (if busy then codes "Processing..." else codes "Start Migration")
                  closed
                  press_start
              ∷ [])
            a
        → (a ≡ press_cancel) ⊎ ((a ≡ press_start) × (closed ≡ false))
    split true true h = absurd h
    split true false (inl e) = inr (sym e, refl)
    split true false (inr h) = absurd h
    split false closed (inl e) = inl (sym e)
    split false false (inr (inl e)) = inr (sym e, refl)
    split false false (inr (inr h)) = absurd h
    split false true (inr h) = absurd h

error_view-Offers : (d : Dialog) (a : Action) → Offers (error_view d) a → a ≡ dismiss_error
unfolding error_view
error_view-Offers d a h = split (truthy d.error_shown) h
  where
    split :
        (b : Bool)
        → Offers
            (if b
              then alert (codes "error") d.error_shown
                ∷ button (codes "Close") false dismiss_error
                ∷ []
              else [])
            a
        → a ≡ dismiss_error
    split true (inl e) = sym e
    split true (inr h) = absurd h
    split false h = absurd h

slot_view-Offers :
    (d : Dialog) (a : Action)
    → Offers (title_view ++ slot_view d) a
    → a ≡ set_slot_only (not d.slot_only)
unfolding title_view slot_view
slot_view-Offers d a (inl e) = sym e
slot_view-Offers d a (inr h) = absurd h

-- What the user can do in the open dialog, besides closing it by its backdrop and typing.
pub data Offered (shards : List Shard) (d : Dialog) (a : Action) : Type 0 where
  switch : (b : Bool) → a ≡ set_slot_only b → Offered shards d a
  target :
      (n : Num)
      → a ≡ choose_target n
      → IndexAmong n (available_target_shards shards)
      → Offered shards d a
  press : IsButton d (available_target_shards shards) a → Offered shards d a
  dismiss : a ≡ dismiss_error → Offered shards d a

pub dialog_view-Offered :
    (shards : List Shard) (d : Dialog) (a : Action)
    → Offers (dialog_view true shards d) a
    → Offered shards d a
unfolding dialog_view
dialog_view-Offered shards d a h =
    let ss = available_target_shards shards in
    let head = title_view ++ slot_view d in
    elim (Offers-append (head ++ selection_view d ss ++ actions_view d ss) (error_view d) a h) [
      | inr e ↦ dismiss (error_view-Offers d a e)
      | inl h' ↦ elim (Offers-append (head ++ selection_view d ss) (actions_view d ss) a h') [
        | inr b ↦ press (actions_view-Offers d ss a b)
        | inl h'' ↦ elim (Offers-append head (selection_view d ss) a h'') [
          | inl s ↦ switch _ (slot_view-Offers d a s)
          | inr t ↦ let (n, e, among) = selection_view-Offers d ss a t in target n e among
        ]
      ]
    ]
