-- ===== src/Pages/Cluster/Rendering/Tests.antt =====
-- Runs of the page of a cluster with two shards, one of which migrates.
use kvrocks_controller.Common.{[], any, false, length, map, refl, some, true, ◌↔◌, ◌∷◌, ◌≡◌, ◌≤◌}
use kvrocks_controller.Api.Calls.{texts}
use kvrocks_controller.Common.Int.{pos, ◌+ℤ◌, ◌-ℤ◌}
use kvrocks_controller.Dialogs.Migration.View.{available_target_shards}
use kvrocks_controller.Js.Decimal.{show_ℕ}
use kvrocks_controller.Js.Number.{int, to_number}
use kvrocks_controller.Js.Sort.{sort}
use kvrocks_controller.Js.Text.{codes, cons_first, includes_unit, join, split}
use kvrocks_controller.Js.Value.{arr, nil, null, num, str, to_text}
use kvrocks_controller.Pages.Cluster.{Page, ShardData, any_shard, index_desc, with_migration}
use kvrocks_controller.Pages.Cluster.Rendering.{open_migration, toggle_slots}
use kvrocks_controller.Pages.Cluster.Rendering.Header.{header_view}
use kvrocks_controller.Pages.Cluster.Rendering.Laws.{
  dialog_shard, filter_count_lem, migrate_button_iff,
}
use kvrocks_controller.Pages.Cluster.Rendering.Options.{filter_count}
use kvrocks_controller.Pages.Cluster.Rendering.Rows.{is_deleting, slots_row}
use kvrocks_controller.Pages.Cluster.Slots.{
  between, expand_parts, expand_range, expand_single, expand_slot_ranges, format_slot_ranges,
  integers_from, push_ranges,
}
use kvrocks_controller.Pages.Cluster.View.{filtered_and_sorted_shards}
use kvrocks_controller.Ui.{Offers, button, chip, icon, text}
use kvrocks_controller.Ui.Parts.{plural, show_if, texts_of}

abbrev first_shard : ShardData
first_shard = record {
  index = 0;
  nodes = arr nil;
  slot_ranges = texts (codes "0-2" ∷ codes "7" ∷ codes "9" ∷ []);
  migrating_slot = str (codes "7");
  importing_slot = null;
  target_shard_index = num (int (pos 1));
  node_count = 2;
  has_slots = true;
  has_migration = true;
  has_importing = false;
}

abbrev second_shard : ShardData
second_shard = record first_shard { index = 1; has_migration = false }

abbrev shown_page : Page
shown_page = record {
  shards_data = first_shard ∷ second_shard ∷ [];
  resource_counts = record { shards = 2; nodes = 4; with_slots = 2; migrating = 1 };
  loading = false;
  deleting_shard_index = some 1;
  search_term = [];
  filter_option = any_shard;
  sort_option = index_desc;
  expanded_slots = 0 ∷ [];
  alerts = [];
  routes = [];
}

first_shard-slots :
    slots_row shown_page first_shard
    ≡ icon (codes "StorageIcon")
      ∷ text (codes "Slots: ")
      ∷ text (codes "0-2, 7, ... (+1 more)")
      ∷ chip (codes "3 ranges")
      ∷ icon (codes "ExpandLessIcon")
      ∷ button [] false (toggle_slots 0)
      ∷ text (codes "All Slot Ranges (5 total slots):")
      ∷ text (codes "0-2, 7, 9")
      ∷ []
unfolding slots_row texts_of format_slot_ranges show_ℕ plural show_if any expand_slot_ranges
    push_ranges expand_range expand_parts expand_single between integers_from to_number split
    includes_unit cons_first sort join to_text ◌+ℤ◌ ◌-ℤ◌
first_shard-slots = refl

second_shard-deleting : is_deleting shown_page second_shard ≡ true
unfolding is_deleting
second_shard-deleting = refl

filter_count_lem_example :
    length (
      filtered_and_sorted_shards
        (λ t. t)
        (record shown_page { filter_option = with_migration; search_term = [] }))
    ≡ filter_count shown_page.shards_data with_migration
filter_count_lem_example = filter_count_lem (λ t. t) refl with_migration shown_page

migrate_button_iff_example :
    Offers (header_view (codes "c") shown_page) open_migration
    ↔ (2 ≤ length (available_target_shards (map dialog_shard shown_page.shards_data)))
migrate_button_iff_example = migrate_button_iff (codes "c") shown_page
