-- ===== src/Dialogs/Failover/Choosing.antt =====
-- webui/src/app/ui/failoverDialog.tsx: which node a failover is started with.
use kvrocks_controller.Common.{
  Bool, Bool-cases, List, [], ◌∷◌, filter, false, if◌then◌else◌, inl, inr, none, not, refl, some,
  true, ◌≡◌, ◌⊎◌,
}
use kvrocks_controller.Api.Calls.{FailoverReply}
use kvrocks_controller.Dialogs.Callbacks.{close}
use kvrocks_controller.Dialogs.Failover.{
  Dialog, Node, automatic, call_back, finish_failover, handle_close, preferred_node, slave_nodes,
  start_failover,
}
use kvrocks_controller.Dialogs.Failover.Controls.{
  IdAmong, actions_view-no_choose, actions_view-start, dialog_view-cases, selection_view-choose,
  selection_view-no_start,
}
use kvrocks_controller.Dialogs.Failover.View.{
  Reach, Step, act, answered, backdrop, choose, dialog_view, dismiss_error, is_none, later, opened,
  press_cancel, press_start, user,
}
use kvrocks_controller.Js.Text.{Text, codes, same}
use kvrocks_controller.Js.Text.Laws.{same_iff, same_refl}
use kvrocks_controller.Js.Value.{str, truthy}
use kvrocks_controller.Ui.{Offers}

-- The id of a node among these whose role is "slave".
abbrev pub HasSlaveRole : Text → List Node → Type 0
HasSlaveRole id [] = ⊥
HasSlaveRole id (n ∷ ns) = ((n.id ≡ id) × (n.role ≡ codes "slave")) ⊎ HasSlaveRole id ns

slave_nodes-HasSlaveRole :
    (ns : List Node) (id : Text) → IdAmong id (slave_nodes ns) → HasSlaveRole id ns
unfolding slave_nodes filter
slave_nodes-HasSlaveRole [] id h = absurd h
slave_nodes-HasSlaveRole (n ∷ ns) id h =
    split (same n.role (codes "slave")) refl (slave_nodes-HasSlaveRole ns id) h
  where
    split :
        (b : Bool)
        → same n.role (codes "slave") ≡ b
        → (IdAmong id (slave_nodes ns) → HasSlaveRole id ns)
        → IdAmong id (if b then n ∷ slave_nodes ns else slave_nodes ns)
        → HasSlaveRole id (n ∷ ns)
    split true slave ih (inl e) = inl (e, (same_iff n.role (codes "slave")).0 slave)
    split true slave ih (inr k) = inr (ih k)
    split false other ih k = inr (ih k)

some_replica :
    (nodes : List Node) → is_none (slave_nodes nodes) ≡ false → (id : Text) × HasSlaveRole id nodes
unfolding is_none
some_replica nodes h =
    let (id, among) = first (slave_nodes nodes) h in (id, slave_nodes-HasSlaveRole nodes id among)
  where
    first : (ns : List Node) → is_none ns ≡ false → (id : Text) × IdAmong id ns
    first [] e = cc
    first (n ∷ ns) e = (n.id, inl refl)

module _ (nodes : List Node) where
  abbrev IsChosen : Dialog → Type 0
  IsChosen d = (d.selected_node_id ≡ automatic) ⊎ IdAmong d.selected_node_id (slave_nodes nodes)

  choose-IsChosen :
      (d : Dialog) (id : Text)
      → Offers (dialog_view true nodes d) (choose id)
      → (id ≡ automatic) ⊎ IdAmong id (slave_nodes nodes)
  choose-IsChosen d id h = elim (dialog_view-cases nodes d (choose id) h) [
    | inl s ↦ selection_view-choose d (slave_nodes nodes) id s
    | inr (inl b) ↦ absurd (actions_view-no_choose d (slave_nodes nodes) id b)
    | inr (inr e) ↦ cc
  ]

  start-IsReady :
      (d : Dialog)
      → Offers (dialog_view true nodes d) press_start
      → (d.loading ≡ false) × (is_none (slave_nodes nodes) ≡ false)
  start-IsReady d h = elim (dialog_view-cases nodes d press_start h) [
    | inl s ↦ absurd (selection_view-no_start d (slave_nodes nodes) s)
    | inr (inl b) ↦ actions_view-start d (slave_nodes nodes) b
    | inr (inr e) ↦ cc
  ]

  handle_close-IsChosen : (d : Dialog) → IsChosen d → IsChosen (handle_close d)
  unfolding handle_close
  handle_close-IsChosen d h = split d.loading
    where
      split :
          (busy : Bool)
          → IsChosen (
              if not busy
              then record (call_back close d) { selected_node_id = automatic; error_shown = str [] }
              else d)
      split true = h
      split false = inl refl

  finish_failover-IsChosen :
      (r : FailoverReply) (d : Dialog) → IsChosen d → IsChosen (finish_failover r d)
  unfolding finish_failover
  finish_failover-IsChosen r d h = elim (Bool-cases (truthy r.failure)) [
    | inl bad ↦ rw bad h
    | inr good ↦ rw good (inl refl)
  ]

  Step-IsChosen : {d e : Dialog} → Step nodes d e → IsChosen d → IsChosen e
  unfolding act start_failover
  Step-IsChosen {d} (user press_cancel o) h = handle_close-IsChosen d h
  Step-IsChosen {d} (user press_start o) h = h
  Step-IsChosen {d} (user (choose id) o) h = choose-IsChosen d id o
  Step-IsChosen {d} (user dismiss_error o) h = h
  Step-IsChosen {d} backdrop h = handle_close-IsChosen d h
  Step-IsChosen {d} (answered r busy) h = finish_failover-IsChosen r d h

  Reach-IsChosen : {d : Dialog} → Reach nodes d → IsChosen d
  Reach-IsChosen opened = inl refl
  Reach-IsChosen (later r st) = Step-IsChosen st (Reach-IsChosen r)

  -- However the user and the server act while the nodes of the shard stay the same, a failover can
  -- be started only when none is awaited and some node of the shard has the role "slave", and the
  -- request asks for no particular node or for the id of a node of the shard with that role.
  pub failover_of_replica :
      {d : Dialog}
      → Reach nodes d
      → Offers (dialog_view true nodes d) press_start
      → (d.loading ≡ false)
        × ((id : Text) × HasSlaveRole id nodes)
        × ((preferred_node d ≡ none)
            ⊎ ((id : Text) × (preferred_node d ≡ some id) × HasSlaveRole id nodes))
  unfolding preferred_node
  failover_of_replica {d} r o =
      let (idle, present) = start-IsReady d o in
      (
        idle,
        some_replica nodes present,
        elim (Bool-cases (same d.selected_node_id automatic)) [
          | inl auto ↦ inl (rw auto refl)
          | inr picked ↦ elim (Reach-IsChosen r) [
            | inl e ↦ absurd (differ e picked)
            | inr among ↦ inr (
              d.selected_node_id,
              rw picked refl,
              slave_nodes-HasSlaveRole nodes d.selected_node_id among,
            )
          ]
        ],
      )
    where
      differ : d.selected_node_id ≡ automatic → same d.selected_node_id automatic ≡ false → ⊥
      differ e picked = cc (same_refl automatic, e, picked)
