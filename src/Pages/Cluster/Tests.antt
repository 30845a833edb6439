-- ===== src/Pages/Cluster/Tests.antt =====
-- Runs of the page of one cluster.
use mathlib.Core.List.{Perm}
use kvrocks_controller.Common.{
  if◌then◌else◌, ◌==◌, ◌+◌, All, Bool, List, [], any, false, map, none, refl, true, ◌++◌, ◌∷◌, ◌≡◌,
}
use kvrocks_controller.Api.Calls.{list_shards, texts}
use kvrocks_controller.Api.Laws.{is_deleted}
use kvrocks_controller.Api.Samples.{
  Server, body, sample_data, idle_shard, answering, refusing, sample_node, sample_replica,
  shard_with,
}
use kvrocks_controller.Common.Int.{pos, ◌+ℤ◌, ◌-ℤ◌}
use kvrocks_controller.Js.Decimal.{show_ℕ}
use kvrocks_controller.Js.Number.{num_ℕ, to_number}
use kvrocks_controller.Js.Sort.{after, sort}
use kvrocks_controller.Js.Sort.Laws.{IsSorted, Ordered}
use kvrocks_controller.Js.Text.{
  Text, codes, cons_first, includes_unit, split, trim, trim_end, trim_start,
}
use kvrocks_controller.Js.Value.{
  Value, arr, at_least_zero, coerce, cons, get, get_opt, nil, null, num, ok, own_field, str,
}
use kvrocks_controller.Js.Value.Laws.{range_text}
use kvrocks_controller.Pages.Cluster.{
  Page, ShardData, with_migration, any_shard, count_up, fetched_shard, index_desc,
  is_active_migration, process, process_shards, rebuilt_shard, show_shards,
}
use kvrocks_controller.Pages.Cluster.Deleting.{
  AllRead, answer, listing, handle_delete_shard_accepted, handle_delete_shard_refused,
}
use kvrocks_controller.Pages.Cluster.Handlers.{
  delete_failed, fetch_data, finish_loading, handle_delete_shard, receive_shards,
}
use kvrocks_controller.Pages.Cluster.Slots.{
  ascending, between, expand_parts, expand_range, expand_single, expand_slot_ranges, integers_from,
  push_ranges,
}
use kvrocks_controller.Pages.Cluster.Slots.Laws.{all_slots, expand_slot_ranges-printed}
use kvrocks_controller.Pages.Cluster.View.{filtered_and_sorted_shards}
use kvrocks_controller.Pages.Cluster.View.Laws.{InOrder, IsWanted, filtered_and_sorted_shards_lem}
use kvrocks_controller.Pages.Effects.{length_of, elements, has_items, minus_one}
use kvrocks_controller.Store.Slot.{SlotRange, slot_range_text}

abbrev empty_page : Page
empty_page = record {
  shards_data = [];
  resource_counts = record { shards = 0; nodes = 0; with_slots = 0; migrating = 0 };
  loading = true;
  deleting_shard_index = none;
  search_term = [];
  filter_option = any_shard;
  sort_option = index_desc;
  expanded_slots = [];
  alerts = [];
  routes = [];
}

loaded_counts :
    (fetch_data answering (codes "ns") (codes "c") empty_page 0).0.resource_counts
    ≡ record { shards = 1; nodes = 2; with_slots = 1; migrating = 0 }
unfolding fetch_data list_shards receive_shards process elements process_shards fetched_shard
    count_up length_of has_items is_active_migration show_shards finish_loading get get_opt
    own_field
loaded_counts = refl

refusing-deleted : is_deleted (answer refusing (codes "ns") (codes "c") 0 0).0 ≡ false
unfolding is_deleted
refusing-deleted = refl

abbrev read_shard : Value → Value → Bool → ShardData
read_shard migrating importing moving = record {
  index = 0;
  nodes = arr (cons sample_node (cons sample_replica nil));
  slot_ranges = texts (codes "0-2" ∷ codes "7" ∷ []);
  migrating_slot = migrating;
  importing_slot = importing;
  target_shard_index = minus_one;
  node_count = 2;
  has_slots = true;
  has_migration = moving;
  has_importing = false;
}

-- A server that accepts the deletion, which is its first request, and then lists a shard.
abbrev shrinking : Server
shrinking r n = (ok (if n == 0 then null else body sample_data), n + 1)

shrinking-deleted : is_deleted (answer shrinking (codes "ns") (codes "c") 1 0).0 ≡ true
unfolding is_deleted get_opt
shrinking-deleted = refl

shrinking-listed :
    (list_shards shrinking
      (codes "ns")
      (codes "c")
      (answer shrinking (codes "ns") (codes "c") 1 0).1).0
    ≡ arr (cons idle_shard nil)
unfolding list_shards get get_opt own_field
shrinking-listed = refl

abbrev left_shard : ShardData
left_shard = read_shard minus_one minus_one false

left_shard-AllRead : AllRead 0 (idle_shard ∷ []) (left_shard ∷ [])
unfolding rebuilt_shard get get_opt own_field length_of has_items at_least_zero coerce
left_shard-AllRead = (refl, tt)

handle_delete_shard_refused_example :
    (why : Text) × (handle_delete_shard refusing (codes "ns") (codes "c") true 0 empty_page 0 ≡ (
      record empty_page { deleting_shard_index = none; alerts = [] ++ delete_failed why ∷ [] },
      (answer refusing (codes "ns") (codes "c") 0 0).1,
    ))
handle_delete_shard_refused_example =
    handle_delete_shard_refused refusing (codes "ns") (codes "c") 0 empty_page 0 refusing-deleted

handle_delete_shard_accepted_example :
    handle_delete_shard shrinking (codes "ns") (codes "c") true 1 empty_page 0 ≡ (
      record (listing (left_shard ∷ []) empty_page) { deleting_shard_index = none },
      (list_shards shrinking
          (codes "ns")
          (codes "c")
          (answer shrinking (codes "ns") (codes "c") 1 0).1).1,
    )
handle_delete_shard_accepted_example =
    handle_delete_shard_accepted shrinking (codes "ns") (codes "c") 1 empty_page 0
      (cons idle_shard nil) (left_shard ∷ []) shrinking-deleted shrinking-listed left_shard-AllRead

abbrev sample_ranges : List SlotRange
sample_ranges = record { start = 7; stop = 7 } ∷ record { start = 0; stop = 2 } ∷ []

expanded_run :
    expand_slot_ranges (map slot_range_text sample_ranges) ≡ pos 0 ∷ pos 1 ∷ pos 2 ∷ pos 7 ∷ []
unfolding expand_slot_ranges push_ranges expand_range expand_parts expand_single between
    integers_from to_number show_ℕ slot_range_text sort after split cons_first includes_unit any
    ◌-ℤ◌ ◌+ℤ◌ trim trim_start trim_end
expanded_run = refl

expand_slot_ranges-printed_example :
    Perm (expand_slot_ranges (map slot_range_text sample_ranges)) (all_slots sample_ranges)
    × IsSorted ascending (expand_slot_ranges (map slot_range_text sample_ranges))
expand_slot_ranges-printed_example = expand_slot_ranges-printed sample_ranges

-- Two shards, of which the filter takes one.
abbrev two_shards : Page
two_shards = record empty_page {
  shards_data =
      read_shard minus_one minus_one false
      ∷ record (read_shard minus_one minus_one true) { index = 1 }
      ∷ [];
  filter_option = with_migration;
}

filtered_and_sorted_shards_lem_example :
    ((others : List ShardData) × Perm
        (filtered_and_sorted_shards (λ t. t) two_shards ++ others)
        two_shards.shards_data
      × All (IsWanted (λ t. t) two_shards) (filtered_and_sorted_shards (λ t. t) two_shards)
      × All (λ d. ¬ IsWanted (λ t. t) two_shards d) others)
    × Ordered (InOrder index_desc) (filtered_and_sorted_shards (λ t. t) two_shards)
filtered_and_sorted_shards_lem_example = filtered_and_sorted_shards_lem (λ t. t) two_shards

-- What the two readings make of a shard that moves the slots 5-9 to the shard 0.
abbrev moving_shard : Value
moving_shard = shard_with (str (range_text 5 9)) (num (num_ℕ 0))

moving_shard-fetched :
    fetched_shard 0 moving_shard ≡ ok (read_shard (str (range_text 5 9)) (str []) true)
unfolding fetched_shard get get_opt own_field is_active_migration length_of has_items show_ℕ
moving_shard-fetched = refl

moving_shard-rebuilt :
    rebuilt_shard 0 moving_shard ≡ ok (read_shard (str (range_text 5 9)) minus_one false)
unfolding rebuilt_shard get get_opt own_field at_least_zero coerce length_of has_items show_ℕ
    to_number
moving_shard-rebuilt = refl

moving_shard-range : get_opt (codes "migrating_slot") moving_shard ≡ str (range_text 5 9)
unfolding get_opt own_field
moving_shard-range = refl

moving_shard-target : get_opt (codes "target_shard_index") moving_shard ≡ num (num_ℕ 0)
unfolding get_opt own_field
moving_shard-target = refl
