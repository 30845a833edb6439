-- ===== src/Dialogs/Failover/Controls.antt =====
-- webui/src/app/ui/failoverDialog.tsx: which parts of the dialog offer which control.
use kvrocks_controller.Common.{
  Bool, List, Option, [], false, if◌then◌else◌, inl, inr, none, refl, some, sym, true, ◌++◌, ◌||◌,
  ◌∷◌, ◌≡◌, ◌⊎◌,
}
use kvrocks_controller.Dialogs.Failover.{Dialog, Node, automatic, master_node, slave_nodes}
use kvrocks_controller.Dialogs.Failover.View.{
  Action, actions_view, automatic_choice, choose, dialog_view, dismiss_error, error_view, is_none,
  master_view, press_cancel, press_start, replica_choice, replica_choices, selection_view,
  title_view,
}
use kvrocks_controller.Js.Text.{Text, codes}
use kvrocks_controller.Js.Value.{truthy}
use kvrocks_controller.Ui.{Offers, alert, button, icon, text}
use kvrocks_controller.Ui.Laws.{Offers-append}

-- The id of one of the nodes.
abbrev pub IdAmong : Text → List Node → Type 0
IdAmong id [] = ⊥
IdAmong id (n ∷ ns) = (n.id ≡ id) ⊎ IdAmong id ns

replica_choices-choose :
    (d : Dialog) (ns : List Node) (id : Text)
    → Offers (replica_choices d ns) (choose id)
    → IdAmong id ns
unfolding replica_choices replica_choice
replica_choices-choose d [] id h = h
replica_choices-choose d (n ∷ ns) id (inl e) = inl cc
replica_choices-choose d (n ∷ ns) id (inr h) = inr (replica_choices-choose d ns id h)

replica_choices-no_start :
    (d : Dialog) (ns : List Node) → ¬ Offers (replica_choices d ns) press_start
unfolding replica_choices replica_choice
replica_choices-no_start d [] h = h
replica_choices-no_start d (n ∷ ns) (inl e) = cc
replica_choices-no_start d (n ∷ ns) (inr h) = replica_choices-no_start d ns h

pub selection_view-choose :
    (d : Dialog) (ns : List Node) (id : Text)
    → Offers (selection_view d ns) (choose id)
    → (id ≡ automatic) ⊎ IdAmong id ns
unfolding selection_view automatic_choice
selection_view-choose d [] id h = absurd h
selection_view-choose d (n ∷ ns) id (inl e) = inl cc
selection_view-choose d (n ∷ ns) id (inr h) = inr (replica_choices-choose d (n ∷ ns) id h)

pub selection_view-no_start :
    (d : Dialog) (ns : List Node) → ¬ Offers (selection_view d ns) press_start
unfolding selection_view automatic_choice
selection_view-no_start d [] h = h
selection_view-no_start d (n ∷ ns) (inl e) = cc
selection_view-no_start d (n ∷ ns) (inr h) = replica_choices-no_start d (n ∷ ns) h

master_view-nothing : (o : Option Node) (a : Action) → ¬ Offers (master_view o) a
unfolding master_view
master_view-nothing none a h = h
master_view-nothing (some n) a h = h

pub actions_view-start :
    (d : Dialog) (ns : List Node)
    → Offers (actions_view d ns) press_start
    → (d.loading ≡ false) × (is_none ns ≡ false)
unfolding actions_view
actions_view-start d ns h = split d.loading (is_none ns) h
  where
    split :
        (busy empty : Bool)
        → Offers
            (button (codes "Cancel") busy press_cancel
              ∷ icon (if busy then codes "CircularProgress" else codes "SwapHorizIcon")
              ∷ button
                  (if busy then codes "Processing..." else codes "Start Failover")
                  (busy || empty)
                  press_start
              ∷ [])
            press_start
        → (busy ≡ false) × (empty ≡ false)
    split true empty h = absurd h
    split false true (inl e) = cc
    split false true (inr h) = absurd h
    split false false h = (refl, refl)

pub actions_view-no_choose :
    (d : Dialog) (ns : List Node) (id : Text) → ¬ Offers (actions_view d ns) (choose id)
unfolding actions_view
actions_view-no_choose d ns id h = split d.loading (is_none ns) h
  where
    split :
        (busy empty : Bool)
        → ¬ Offers
            (button (codes "Cancel") busy press_cancel
              ∷ icon (if busy then codes "CircularProgress" else codes "SwapHorizIcon")
              ∷ button
                  (if busy then codes "Processing..." else codes "Start Failover")
                  (busy || empty)
                  press_start
              ∷ [])
            (choose id)
    split true empty h = h
    split false true (inl e) = cc
    split false true (inr h) = h
    split false false (inl e) = cc
    split false false (inr (inl e)) = cc
    split false false (inr (inr h)) = h

pub error_view-dismiss : (d : Dialog) (a : Action) → Offers (error_view d) a → a ≡ dismiss_error
unfolding error_view
error_view-dismiss d a h = split (truthy d.error_shown) h
  where
    split :
        (b : Bool)
        → Offers
            (if b
              then alert (codes "error") d.error_shown
                ∷ button (codes "Close") false dismiss_error
                ∷ []
              else [])
            a
        → a ≡ dismiss_error
    split true (inl e) = sym e
    split true (inr h) = absurd h
    split false h = absurd h

module _ (nodes : List Node) where
  -- A control of the open dialog is one of the selection, of the buttons or of the error.
  pub dialog_view-cases :
      (d : Dialog) (a : Action)
      → Offers (dialog_view true nodes d) a
      → Offers (selection_view d (slave_nodes nodes)) a
        ⊎ (Offers (actions_view d (slave_nodes nodes)) a ⊎ (a ≡ dismiss_error))
  unfolding dialog_view title_view
  dialog_view-cases d a h =
      let head = title_view ++ (text (codes "Current Master") ∷ master_view (master_node nodes)) in
      let chosen = selection_view d (slave_nodes nodes) in
      let buttons = actions_view d (slave_nodes nodes) in
      elim (Offers-append (head ++ chosen ++ buttons) (error_view d) a h) [
        | inr e ↦ inr (inr (error_view-dismiss d a e))
        | inl h' ↦ elim (Offers-append (head ++ chosen) buttons a h') [
          | inr b ↦ inr (inl b)
          | inl h'' ↦ elim (Offers-append head chosen a h'') [
            | inl m ↦ absurd (master_view-nothing (master_node nodes) a m)
            | inr s ↦ inl s
          ]
        ]
      ]
