-- ===== src/Pages/Namespace/Rendering/Tests.antt =====
-- Runs of the row of a cluster whose first shard moves the slots 5-9.
use kvrocks_controller.Common.{[], false, inl, inr, refl, true, ◌∷◌, ◌≡◌}
use kvrocks_controller.Api.Calls.{texts}
use kvrocks_controller.Api.Samples.{idle_shard, shard_with}
use kvrocks_controller.Common.Int.{negsuc}
use kvrocks_controller.Js.Decimal.{show_ℕ}
use kvrocks_controller.Js.Number.{int, to_number}
use kvrocks_controller.Js.Text.{codes}
use kvrocks_controller.Js.Value.{
  Value, at_least_zero, coerce, get, get_opt, null, num, ok, own_field, str,
}
use kvrocks_controller.Js.Value.Laws.{range_text}
use kvrocks_controller.Pages.Effects.{has_items, minus_one}
use kvrocks_controller.Pages.Namespace.{
  ClusterData, every_shard, field_at_least_zero, find_shard, first_field, holds_slots, is_idle,
  some_shard, summarize,
}
use kvrocks_controller.Pages.Namespace.Rendering.Laws.{IsSent, moving_cluster_stable}
use kvrocks_controller.Pages.Namespace.Rendering.Rows.{state_row}
use kvrocks_controller.Ui.{text}

abbrev sent_shard : Value
sent_shard = shard_with (str (range_text 5 9)) (num (int (negsuc 0)))

abbrev sent_cluster : ClusterData
sent_cluster = record {
  info = null;
  shards = sent_shard ∷ idle_shard ∷ [];
  shard_count = 2;
  node_count = 4;
  has_slots = true;
  has_migration = true;
  has_no_migration = false;
  has_importing = false;
  slot_ranges = texts (codes "0-2" ∷ codes "7" ∷ []);
  migrating_slot = minus_one;
  importing_slot = minus_one;
  target_shard_index = minus_one;
}

sent_cluster-kept : summarize null (sent_shard ∷ idle_shard ∷ []) 4 ≡ ok sent_cluster
unfolding summarize some_shard every_shard find_shard first_field holds_slots field_at_least_zero
    is_idle has_items get get_opt own_field at_least_zero coerce to_number show_ℕ
sent_cluster-kept = refl

sent_shard-IsSent : IsSent sent_shard
unfolding get_opt own_field
sent_shard-IsSent = (inr (5, 9, (refl, refl)), refl)

idle_shard-IsSent : IsSent idle_shard
unfolding get_opt own_field
idle_shard-IsSent = (inl (refl, refl), refl)

moving_cluster_stable_example : state_row sent_cluster ≡ text (codes "Stable") ∷ []
moving_cluster_stable_example =
    moving_cluster_stable null (sent_shard ∷ idle_shard ∷ []) 4
      (sent_shard-IsSent, (idle_shard-IsSent, tt)) sent_cluster-kept
