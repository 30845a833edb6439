-- ===== src/Dialogs/Failover/Tests.antt =====
-- Runs of the failover dialog.
use kvrocks_controller.Common.{
  List, [], false, filter, find?, inl, inr, none, refl, some, true, ◌∷◌, ◌≡◌, ◌⊎◌,
}
use kvrocks_controller.Api.Calls.{failover_reply, failover_shard}
use kvrocks_controller.Api.Samples.{answering}
use kvrocks_controller.Dialogs.Callbacks.{close, success}
use kvrocks_controller.Dialogs.Failover.{
  Dialog, Node, call_back, finish_failover, handle_failover, master_node, preferred_node,
  slave_nodes, start_failover,
}
use kvrocks_controller.Dialogs.Failover.Choosing.{HasSlaveRole, failover_of_replica}
use kvrocks_controller.Dialogs.Failover.View.{
  Reach, act, actions_view, automatic_choice, choose, closed_dialog, dialog_view, is_none, later,
  master_view, opened, press_start, replica_choice, replica_choices, selection_view, title_view,
  user,
}
use kvrocks_controller.Js.Text.{Text, codes}
use kvrocks_controller.Js.Value.{Value, get_opt, own_field, str}
use kvrocks_controller.Ui.{Offers}

abbrev sample_dialog : Dialog
sample_dialog = record {
  selected_node_id = codes "n2";
  loading = false;
  error_shown = str [];
  callbacks = [];
}

promoted_run :
    (handle_failover answering (codes "ns") (codes "c") (codes "0") sample_dialog 0).0.callbacks
    ≡ success ∷ close ∷ []
unfolding handle_failover failover_shard failover_reply finish_failover start_failover call_back
    get_opt own_field
promoted_run = refl

abbrev sample_nodes : List Node
sample_nodes =
    record { id = codes "n1"; addr = codes "a"; role = codes "master"; created_at = 5 }
    ∷ record { id = codes "n2"; addr = codes "b"; role = codes "slave"; created_at = 6 }
    ∷ []

-- The choice of the replica is offered, and starting the failover after it.
chosen_dialog : Reach sample_nodes (act (choose (codes "n2")) closed_dialog)
unfolding dialog_view title_view master_view master_node slave_nodes find? filter selection_view
    automatic_choice replica_choices replica_choice
chosen_dialog = later opened (user (choose (codes "n2")) (inr (inl refl)))

chosen_dialog-Offers :
    Offers (dialog_view true sample_nodes (act (choose (codes "n2")) closed_dialog)) press_start
unfolding dialog_view title_view master_view master_node slave_nodes find? filter selection_view
    automatic_choice replica_choices replica_choice actions_view is_none act
chosen_dialog-Offers = inr (inr (inr (inl refl)))

failover_of_replica_example :
    let d = act (choose (codes "n2")) closed_dialog in
    (d.loading ≡ false)
    × ((id : Text) × HasSlaveRole id sample_nodes)
    × ((preferred_node d ≡ none)
        ⊎ ((id : Text) × (preferred_node d ≡ some id) × HasSlaveRole id sample_nodes))
failover_of_replica_example = failover_of_replica sample_nodes chosen_dialog chosen_dialog-Offers
