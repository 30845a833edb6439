-- ===== src/Dialogs/Failover/View.antt =====
-- webui/src/app/ui/failoverDialog.tsx: what the dialog shows, and the controls that it offers.
use kvrocks_controller.Common.{
  Bool, List, Option, [], false, if◌then◌else◌, none, some, true, ◌++◌, ◌||◌, ◌∷◌, ◌≡◌,
}
use kvrocks_controller.Api.Calls.{FailoverReply}
use kvrocks_controller.Dialogs.Failover.{
  Dialog, Node, automatic, finish_failover, handle_close, master_node, slave_nodes, start_failover,
  truncate_id,
}
use kvrocks_controller.Js.Text.{Text, codes, same}
use kvrocks_controller.Js.Value.{str, truthy}
use kvrocks_controller.Ui.{Offers, Shown, alert, button, chip, choice, icon, text}

pub data Action : Type 0 where
  press_cancel : Action
  press_start : Action
  choose : Text → Action
  dismiss_error : Action

unfoldable pub title_view : List (Shown Action)
title_view =
    icon (codes "SwapHorizIcon")
    ∷ text (codes "Failover Shard Master")
    ∷ text (codes "Promote a replica node to master")
    ∷ []

-- `masterNode && (…)`
unfoldable pub master_view : Option Node → List (Shown Action)
master_view none = []
master_view (some n) =
    icon (codes "CheckCircleIcon")
    ∷ text n.addr
    ∷ text (codes "ID: " ++ truncate_id n.id 8)
    ∷ chip (codes "Master")
    ∷ []

unfoldable pub automatic_choice : Dialog → List (Shown Action)
automatic_choice d =
    choice automatic (same d.selected_node_id automatic) (choose automatic)
    ∷ text (codes "Automatic Selection")
    ∷ text (codes "Let the controller choose the best replica")
    ∷ []

unfoldable pub replica_choice : Dialog → Node → List (Shown Action)
replica_choice d n =
    choice n.id (same d.selected_node_id n.id) (choose n.id)
    ∷ icon (codes "DeviceHubIcon")
    ∷ text n.addr
    ∷ text (codes "ID: " ++ truncate_id n.id 8)
    ∷ chip (codes "Replica")
    ∷ []

-- `slaveNodes.map(…)`
unfoldable pub replica_choices : Dialog → List Node → List (Shown Action)
replica_choices d [] = []
replica_choices d (n ∷ ns) = replica_choice d n ++ replica_choices d ns

-- `slaveNodes.length > 0 ? (…) : (…)`
unfoldable pub selection_view : Dialog → List Node → List (Shown Action)
selection_view d [] =
    alert (codes "warning") (
      str (codes "No replica nodes available for failover. At least one replica node is required."))
    ∷ []
selection_view d (n ∷ ns) =
    text (codes "Select New Master") ∷ (automatic_choice d ++ replica_choices d (n ∷ ns))

unfoldable pub is_none : List Node → Bool
is_none [] = true
is_none (n ∷ ns) = false

unfoldable pub actions_view : Dialog → List Node → List (Shown Action)
actions_view d slaves =
    button (codes "Cancel") d.loading press_cancel
    ∷ icon (if d.loading then codes "CircularProgress" else codes "SwapHorizIcon")
    ∷ button (if d.loading then codes "Processing..." else codes "Start Failover")
        (d.loading || is_none slaves) press_start
    ∷ []

-- The snackbar with the error stands beside the dialog; `!!error` opens it.
unfoldable pub error_view : Dialog → List (Shown Action)
error_view d =
    if truthy d.error_shown
    then alert (codes "error") d.error_shown ∷ button (codes "Close") false dismiss_error ∷ []
    else []

-- The dialog for the nodes of a shard, if it is open.
unfoldable pub dialog_view : Bool → List Node → Dialog → List (Shown Action)
dialog_view is_open nodes d =
    (if is_open
      then title_view
        ++ (text (codes "Current Master") ∷ master_view (master_node nodes))
        ++ selection_view d (slave_nodes nodes)
        ++ actions_view d (slave_nodes nodes)
      else [])
    ++ error_view d

-- What a control does. `press_start` is the part of `handleFailover` before its `await`.
unfoldable pub act : Action → Dialog → Dialog
act press_cancel d = handle_close d
act press_start d = start_failover d
act (choose id) d = record d { selected_node_id = id }
act dismiss_error d = record d { error_shown = str [] }

-- The steps of the open dialog: the user uses a control or closes the dialog by its backdrop, or
-- the answer of the server comes while the request is awaited.
pub data Step (nodes : List Node) (d : Dialog) : Dialog → Type 0 where
  user : (a : Action) → Offers (dialog_view true nodes d) a → Step nodes d (act a d)
  backdrop : Step nodes d (handle_close d)
  answered : (result : FailoverReply) → d.loading ≡ true → Step nodes d (finish_failover result d)

abbrev pub closed_dialog : Dialog
closed_dialog = record {
  selected_node_id = automatic;
  loading = false;
  error_shown = str [];
  callbacks = [];
}

pub data Reach (nodes : List Node) : Dialog → Type 0 where
  opened : Reach nodes closed_dialog
  later : {d e : Dialog} → Reach nodes d → Step nodes d e → Reach nodes e
