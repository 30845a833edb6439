-- ===== src/Dialogs/Failover/Laws.antt =====
-- webui/src/app/ui/failoverDialog.tsx: what the handlers of the dialog do.
use kvrocks_controller.Common.{Bool, false, refl, ◌≡◌}
use kvrocks_controller.Api.Calls.{Request, posting, preferred_body, shard_url, slash}
use kvrocks_controller.Dialogs.Failover.{Dialog, handle_close, preferred_node, start_failover}
use kvrocks_controller.Js.Text.{Text, codes}
use kvrocks_controller.Js.Value.{Result, Value, get_opt, ok, throw, truthy}

-- The request of `failoverShard` with its body.
abbrev pub failover_request : Text → Text → Text → Value → Request
failover_request ns c s payload = posting (slash (shard_url ns c s) (codes "failover")) payload

-- The answers that name a new master.
unfoldable pub is_promoted : Result Value → Bool
is_promoted (throw t) = false
is_promoted (ok v) = truthy (get_opt (codes "new_master_id") (get_opt (codes "data") v))

module _ {W : Type 0} (axios : Request → W → Result Value × W)
    (namespace cluster shard : Text) where
  abbrev pub answer : Value → W → Result Value × W
  answer payload = axios (failover_request namespace cluster shard payload)

  -- What the user has chosen: nothing for "auto", else the node's id.
  abbrev pub chosen : Dialog → Value
  chosen d = preferred_body (preferred_node d)

-- While a request is awaited the dialog cannot be closed.
pub handle_close_while_sending : (d : Dialog) → handle_close (start_failover d) ≡ start_failover d
unfolding handle_close start_failover
handle_close_while_sending d = refl
