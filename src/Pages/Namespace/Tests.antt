-- ===== src/Pages/Namespace/Tests.antt =====
-- Runs of the page of one namespace.
use kvrocks_controller.Common.{
  All, Bool, List, [], false, none, refl, some, sum_of, true, ℕ, ◌∷◌, ◌≡◌,
}
use kvrocks_controller.Api.Calls.{fetch_cluster, texts}
use kvrocks_controller.Api.Samples.{answering, idle_shard, shard_with}
use kvrocks_controller.Common.Int.{negsuc}
use kvrocks_controller.Js.Decimal.{show_ℕ}
use kvrocks_controller.Js.Number.{int, to_number}
use kvrocks_controller.Js.Text.{Text, codes}
use kvrocks_controller.Js.Value.{
  Value, at_least_zero, coerce, get, get_opt, has_field, null, num, ok, own_field, str,
}
use kvrocks_controller.Js.Value.Laws.{range_text}
use kvrocks_controller.Pages.Effects.{has_items, minus_one}
use kvrocks_controller.Pages.Namespace.{
  ClusterData, Page, every_shard, field_at_least_zero, find_shard, first_field, holds_slots,
  is_idle, some_shard, summarize,
}
use kvrocks_controller.Pages.Namespace.Flags.{SlotIs}
use kvrocks_controller.Pages.Namespace.Gather.{shards_of}
use kvrocks_controller.Pages.Namespace.Handlers.{fetch_data, handle_delete_cluster}
use kvrocks_controller.Pages.Namespace.Invariant.{
  fetch_data-IsConsistent, handle_delete_cluster-IsConsistent,
}
use kvrocks_controller.Pages.Namespace.Totals.{IsConsistent, IsObject, IsWellFormed}
use kvrocks_controller.Pages.Namespace.View.{no_migration, Choice, shards_desc}

abbrev empty_page : Page
empty_page = record {
  cluster_data = [];
  resource_counts = record { clusters = 0; shards = 0; nodes = 0 };
  loading = true;
  deleting_cluster = none;
  alerts = [];
}

abbrev sample_choice : Choice
sample_choice = record { search_term = []; filter_option = no_migration; sort_option = shards_desc }

empty_page-IsConsistent : IsConsistent empty_page
unfolding sum_of
empty_page-IsConsistent = record { clusters = refl; shards = refl; nodes = refl }

answering-shards :
    (cluster : Text) (w : ℕ)
    → shards_of (fetch_cluster answering (codes "ns") cluster w).0 ≡ some (idle_shard ∷ [])
unfolding shards_of fetch_cluster get get_opt own_field has_field
answering-shards cluster w = refl

answering-IsWellFormed : IsWellFormed answering (codes "ns")
answering-IsWellFormed = record { shards = λ cluster w ss h. objects cluster w ss h }
  where
    objects :
        (cluster : Text) (w : ℕ) (ss : List Value)
        → shards_of (fetch_cluster answering (codes "ns") cluster w).0 ≡ some ss
        → All IsObject ss
    objects cluster w ss h =
        let one : ss ≡ idle_shard ∷ [] = cc (answering-shards cluster w, h) in rw one (refl, tt)

fetch_data-IsConsistent_example : IsConsistent (fetch_data answering (codes "ns") empty_page 0).0
fetch_data-IsConsistent_example =
    fetch_data-IsConsistent answering (codes "ns") answering-IsWellFormed empty_page 0
      empty_page-IsConsistent

handle_delete_cluster-IsConsistent_example :
    IsConsistent (handle_delete_cluster answering (codes "ns") true (codes "c") empty_page 0).0
handle_delete_cluster-IsConsistent_example =
    handle_delete_cluster-IsConsistent answering (codes "ns") answering-IsWellFormed true
      (codes "c") empty_page 0 empty_page-IsConsistent

-- What is kept of a cluster of one idle shard, and of one whose shard moves the slots 5-9.
abbrev kept : Value → Bool → ClusterData
kept s moving = record {
  info = null;
  shards = s ∷ [];
  shard_count = 1;
  node_count = 2;
  has_slots = true;
  has_migration = moving;
  has_no_migration = false;
  has_importing = false;
  slot_ranges = texts (codes "0-2" ∷ codes "7" ∷ []);
  migrating_slot = minus_one;
  importing_slot = minus_one;
  target_shard_index = minus_one;
}

abbrev moving_shard : Value
moving_shard = shard_with (str (range_text 5 9)) (num (int (negsuc 0)))

idle_shard-kept : summarize null (idle_shard ∷ []) 2 ≡ ok (kept idle_shard true)
unfolding summarize some_shard every_shard find_shard first_field holds_slots field_at_least_zero
    is_idle has_items get get_opt own_field at_least_zero coerce
idle_shard-kept = refl

moving_shard-kept : summarize null (moving_shard ∷ []) 2 ≡ ok (kept moving_shard false)
unfolding summarize some_shard every_shard find_shard first_field holds_slots field_at_least_zero
    is_idle has_items get get_opt own_field at_least_zero coerce to_number show_ℕ
moving_shard-kept = refl

idle_shard-slot : SlotIs null idle_shard
unfolding get_opt own_field
idle_shard-slot = (refl, refl)

moving_shard-slot : SlotIs (str (range_text 5 9)) moving_shard
unfolding get_opt own_field
moving_shard-slot = (refl, refl)
