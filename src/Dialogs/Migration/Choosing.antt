-- ===== src/Dialogs/Migration/Choosing.antt =====
-- webui/src/app/ui/migrationDialog.tsx: which shard a migration is started to.
use kvrocks_controller.Common.{
  Bool, Bool-cases, List, Option-cases, [], ◌∷◌, filter, arith, false, if◌then◌else◌, inl, inr,
  none, not, refl, some, true, ◌||◌, ◌≡◌, ◌≢◌, ◌⊎◌,
}
use kvrocks_controller.Common.Int.{eqb_ℤ, negsuc}
use kvrocks_controller.Dialogs.Callbacks.{close}
use kvrocks_controller.Dialogs.Migration.{
  Dialog, Started, call_back, finish_migration, handle_close, refused, reset_form, sending,
  start_migration, validate_slot_input,
}
use kvrocks_controller.Dialogs.Migration.Controls.{
  IndexAmong, Offered, dialog_view-Offered, dismiss, press, switch, target,
}
use kvrocks_controller.Dialogs.Migration.View.{
  Action, Reach, Shard, Step, act, answered, available_target_shards, backdrop, begun,
  choose_target, dialog_view, dismiss_error, later, opened, press_cancel, press_start,
  set_slot_only, set_target, start_disabled, typed, user,
}
use kvrocks_controller.Js.Number.{Num, int, nan, num_ℕ}
use kvrocks_controller.Js.Text.{is_empty, trim}
use kvrocks_controller.Js.Value.{Value, str, truthy}
use kvrocks_controller.Ui.{Offers}

no_press : (n : Num) → choose_target n ≢ press_start
no_press n = cc

-- The index of a shard among these that has slots.
abbrev pub HoldsSlots : Num → List Shard → Type 0
HoldsSlots n [] = ⊥
HoldsSlots n (s ∷ ss) = ((num_ℕ s.index ≡ n) × (s.has_slots ≡ true)) ⊎ HoldsSlots n ss

available-HoldsSlots :
    (ss : List Shard) (n : Num) → IndexAmong n (available_target_shards ss) → HoldsSlots n ss
unfolding available_target_shards filter
available-HoldsSlots [] n h = absurd h
available-HoldsSlots (s ∷ ss) n h = split s.has_slots refl (available-HoldsSlots ss n) h
  where
    split :
        (b : Bool)
        → s.has_slots ≡ b
        → (IndexAmong n (available_target_shards ss) → HoldsSlots n ss)
        → IndexAmong n (if b then s ∷ available_target_shards ss else available_target_shards ss)
        → HoldsSlots n (s ∷ ss)
    split true e ih (inl k) = inl (k, e)
    split true e ih (inr k) = inr (ih k)
    split false e ih k = inr (ih k)

module _ (shards : List Shard) where
  -- No shard is chosen, or the index of a shard that has slots.
  abbrev IsChosen : Dialog → Type 0
  IsChosen d =
      (d.target_shard_index ≡ negsuc 0)
      ⊎ IndexAmong (int d.target_shard_index) (available_target_shards shards)

  set_target-IsChosen :
      (n : Num) (d : Dialog)
      → IndexAmong n (available_target_shards shards)
      → IsChosen d
      → IsChosen (set_target n d)
  unfolding set_target
  set_target-IsChosen nan d among h = h
  set_target-IsChosen (int z) d among h = inr among

  handle_close-IsChosen : (d : Dialog) → IsChosen d → IsChosen (handle_close d)
  unfolding handle_close reset_form
  handle_close-IsChosen d h = split d.loading
    where
      split : (busy : Bool) → IsChosen (if not busy then reset_form (call_back close d) else d)
      split true = h
      split false = inl refl

  start_migration-IsChosen : (d : Dialog) → IsChosen d → IsChosen (begun (start_migration d))
  unfolding start_migration begun
  start_migration-IsChosen d h =
      elim (Bool-cases (eqb_ℤ d.target_shard_index (negsuc 0) || is_empty (trim d.slot_number))) [
        | inl missing ↦ rw (missing, start_migration) h
        | inr given ↦ elim (Option-cases (validate_slot_input d.slot_number)) [
          | inl valid ↦ rw (given, valid, start_migration) h
          | inr (m, wrong) ↦ rw (given, wrong, start_migration) h
        ]
      ]

  finish_migration-IsChosen :
      (v : Value) (d : Dialog) → IsChosen d → IsChosen (finish_migration v d)
  unfolding finish_migration reset_form
  finish_migration-IsChosen v d h = elim (Bool-cases (truthy v)) [
    | inl bad ↦ rw bad h
    | inr good ↦ rw good (inl refl)
  ]

  user-IsChosen : (a : Action) (d : Dialog) → Offered shards d a → IsChosen d → IsChosen (act a d)
  unfolding act
  user-IsChosen press_cancel d o h = handle_close-IsChosen d h
  user-IsChosen press_start d o h = start_migration-IsChosen d h
  user-IsChosen (choose_target n) d (target m e among) h =
      let same_number : m ≡ n = cc in set_target-IsChosen n d (rw (← same_number) among) h
  user-IsChosen (choose_target n) d (switch b e) h = cc
  user-IsChosen (choose_target n) d (press (inl e)) h = cc
  user-IsChosen (choose_target n) d (press (inr (e, k))) h = cc
  user-IsChosen (choose_target n) d (dismiss e) h = cc
  user-IsChosen (set_slot_only b) d o h = h
  user-IsChosen dismiss_error d o h = h

  Step-IsChosen : {d e : Dialog} → Step shards d e → IsChosen d → IsChosen e
  Step-IsChosen {d} (user a o) h = user-IsChosen a d (dialog_view-Offered shards d a o) h
  Step-IsChosen {d} (typed t) h = h
  Step-IsChosen {d} backdrop h = handle_close-IsChosen d h
  Step-IsChosen {d} (answered v busy) h = finish_migration-IsChosen v d h

  Reach-IsChosen : {d : Dialog} → Reach shards d → IsChosen d
  Reach-IsChosen opened = inl refl
  Reach-IsChosen (later r st) = Step-IsChosen st (Reach-IsChosen r)

  press_start-enabled :
      (d : Dialog)
      → Offered shards d press_start
      → start_disabled d (available_target_shards shards) ≡ false
  press_start-enabled d (switch b e) = cc
  press_start-enabled d (target n e among) = cc
  press_start-enabled d (dismiss e) = cc
  press_start-enabled d (press (inl e)) = cc
  press_start-enabled d (press (inr (e, k))) = k

  -- However the user and the server act while the shards stay the same, a migration can be started
  -- only when none is awaited, and its target is the index of a shard whose `hasSlots` is true; the
  -- handler then never asks for a shard and a slot, but sends the request or shows why the slots
  -- are not valid.
  pub migration_to_available :
      {d : Dialog}
      → Reach shards d
      → Offers (dialog_view true shards d) press_start
      → (d.loading ≡ false)
        × HoldsSlots (int d.target_shard_index) shards
        × (start_migration d ≡ elim (validate_slot_input d.slot_number) as (λ _. Started) [
          | some why ↦ refused (record d { error_shown = str why })
          | none ↦ sending (record d { loading = true; error_shown = str [] })
        ])
  unfolding start_migration start_disabled
  migration_to_available {d} r o =
      let enabled = press_start-enabled d (dialog_view-Offered shards d press_start o) in
      let (idle, picked, given) = ready enabled in
      (
        idle,
        elim (Reach-IsChosen r) [
          | inl none_ ↦ absurd (unchosen none_ picked)
          | inr among ↦ available-HoldsSlots shards _ among
        ],
        rw given refl,
      )
    where
      ready :
          start_disabled d (available_target_shards shards) ≡ false
          → (d.loading ≡ false)
            × (eqb_ℤ d.target_shard_index (negsuc 0) ≡ false)
            × ((eqb_ℤ d.target_shard_index (negsuc 0) || is_empty (trim d.slot_number)) ≡ false)
      ready e = ground arith

      unchosen : d.target_shard_index ≡ negsuc 0 → eqb_ℤ d.target_shard_index (negsuc 0) ≡ false → ⊥
      unchosen e k = let equal : eqb_ℤ d.target_shard_index (negsuc 0) ≡ true = rw e refl in cc
