-- ===== src/Dialogs/Failover.antt =====
-- webui/src/app/ui/failoverDialog.tsx: the state of the dialog and its handlers.
pub mod Laws
pub mod View
pub mod Controls
pub mod Choosing
mod Tests
use kvrocks_controller.Common.{
  Bool, List, Option, [], false, filter, find?, if◌then◌else◌, length, ltb, none, not, some, take,
  true, ℕ, ◌++◌, ◌∷◌,
}
use kvrocks_controller.Api.Calls.{FailoverReply, Request, failover_shard}
use kvrocks_controller.Dialogs.Callbacks.{Callback, close, success}
use kvrocks_controller.Js.Text.{Text, codes, same}
use kvrocks_controller.Js.Value.{Result, Value, str, truthy}

pub record Node : Type 0 where
  pub id : Text
  pub addr : Text
  pub role : Text
  pub created_at : ℕ

pub record Dialog : Type 0 where
  pub selected_node_id : Text
  pub loading : Bool
  pub error_shown : Value
  -- the calls of `onSuccess` and `onClose`, in their order
  pub callbacks : List Callback

abbrev pub automatic : Text
automatic = codes "auto"

unfoldable pub master_node : List Node → Option Node
master_node nodes = find? (λ n. same n.role (codes "master")) nodes

unfoldable pub slave_nodes : List Node → List Node
slave_nodes nodes = filter (λ n. same n.role (codes "slave")) nodes

unfoldable pub call_back : Callback → Dialog → Dialog
call_back c d = record d { callbacks = d.callbacks ++ c ∷ [] }

-- The state while the request is awaited.
unfoldable pub start_failover : Dialog → Dialog
start_failover d = record d { loading = true; error_shown = str [] }

-- `failoverShard` returns an error on every exception, so that the `catch` around the request is
-- never entered.
unfoldable pub finish_failover : FailoverReply → Dialog → Dialog
unfolding call_back
finish_failover result d =
    let shown =
      if truthy result.failure
      then record d { error_shown = result.failure }
      else record (call_back close (call_back success d)) { selected_node_id = automatic } in
    record shown { loading = false }

unfoldable pub preferred_node : Dialog → Option Text
preferred_node d = if same d.selected_node_id automatic then none else some d.selected_node_id

module _ {W : Type 0} (axios : Request → W → Result Value × W)
    (namespace cluster shard : Text) where
  unfoldable pub handle_failover : Dialog → W → Dialog × W
  handle_failover d w =
      let (result, w') = failover_shard axios namespace cluster shard (preferred_node d) w in
      (finish_failover result (start_failover d), w')

unfoldable pub handle_close : Dialog → Dialog
unfolding call_back
handle_close d =
    if not d.loading
    then record (call_back close d) { selected_node_id = automatic; error_shown = str [] }
    else d

unfoldable pub truncate_id : Text → ℕ → Text
truncate_id id most = if ltb most (length id) then take most id ++ codes "..." else id
