-- ===== src/Pages/Cluster/Rendering/Options.antt =====
-- webui/src/app/namespaces/[namespace]/clusters/[cluster]/page.tsx: the popovers in which the user
-- chooses a filter and an order. A popover shows its content while it is open.
use kvrocks_controller.Common.{List, [], false, filter, length, not, ℕ, ◌++◌, ◌∷◌}
use kvrocks_controller.Js.Decimal.{show_ℕ}
use kvrocks_controller.Js.Text.{Text, codes}
use kvrocks_controller.Pages.Cluster.{
  FilterOption, Page, ShardData, SortOption, any_shard, index_asc, index_desc, no_migration,
  no_slots, nodes_asc, nodes_desc, slots_only, with_importing, with_migration,
}
use kvrocks_controller.Pages.Cluster.Rendering.{
  Action, Opened, click_filter, click_sort, close_filter, close_sort, set_filter, set_sort,
}
use kvrocks_controller.Ui.{Shown, button, chip, icon, text}
use kvrocks_controller.Ui.Parts.{marked_choice, show_if}

unfoldable pub filter_value : FilterOption → Text
filter_value any_shard = codes "all"
filter_value with_migration = codes "with-migration"
filter_value no_migration = codes "no-migration"
filter_value slots_only = codes "with-slots"
filter_value no_slots = codes "no-slots"
filter_value with_importing = codes "with-importing"

unfoldable pub filter_label : FilterOption → Text
filter_label any_shard = codes "All shards"
filter_label with_migration = codes "With migration"
filter_label no_migration = codes "No migration"
filter_label slots_only = codes "With slots"
filter_label no_slots = codes "No slots"
filter_label with_importing = codes "With importing"

-- The number in the chip of each choice.
unfoldable pub filter_count : List ShardData → FilterOption → ℕ
filter_count ds any_shard = length ds
filter_count ds with_migration = length (filter (λ d. d.has_migration) ds)
filter_count ds no_migration = length (filter (λ d. not d.has_migration) ds)
filter_count ds slots_only = length (filter (λ d. d.has_slots) ds)
filter_count ds no_slots = length (filter (λ d. not d.has_slots) ds)
filter_count ds with_importing = length (filter (λ d. d.has_importing) ds)

unfoldable pub filter_choice : Page → FilterOption → List (Shown Action)
filter_choice p o =
    marked_choice (filter_value p.filter_option) (filter_value o) (set_filter o)
    ++ (text (filter_label o) ∷ chip (show_ℕ (filter_count p.shards_data o)) ∷ [])

unfoldable pub filter_view : Page → List (Shown Action)
filter_view p =
    (text (codes "Filter Shards") ∷ [])
    ++ filter_choice p any_shard
    ++ filter_choice p with_migration
    ++ filter_choice p no_migration
    ++ filter_choice p slots_only
    ++ filter_choice p no_slots
    ++ filter_choice p with_importing
    ++ (button (codes "Close") false close_filter ∷ [])

unfoldable pub sort_value : SortOption → Text
sort_value index_asc = codes "index-asc"
sort_value index_desc = codes "index-desc"
sort_value nodes_desc = codes "nodes-desc"
sort_value nodes_asc = codes "nodes-asc"

unfoldable pub sort_icon : SortOption → Text
sort_icon index_asc = codes "ArrowUpwardIcon"
sort_icon index_desc = codes "ArrowDownwardIcon"
sort_icon nodes_desc = codes "ArrowDownwardIcon"
sort_icon nodes_asc = codes "ArrowUpwardIcon"

unfoldable pub sort_label : ℕ → SortOption → Text
sort_label n index_asc = codes "Index 1-" ++ show_ℕ n
sort_label n index_desc = codes "Index " ++ show_ℕ n ++ codes "-1"
sort_label n nodes_desc = codes "Most nodes"
sort_label n nodes_asc = codes "Least nodes"

unfoldable pub sort_choice : Page → SortOption → List (Shown Action)
sort_choice p o =
    marked_choice (sort_value p.sort_option) (sort_value o) (set_sort o)
    ++ (icon (sort_icon o) ∷ text (sort_label (length p.shards_data) o) ∷ [])

unfoldable pub sort_view : Page → List (Shown Action)
sort_view p =
    (text (codes "Sort Shards") ∷ [])
    ++ sort_choice p index_asc
    ++ sort_choice p index_desc
    ++ sort_choice p nodes_desc
    ++ sort_choice p nodes_asc
    ++ (button (codes "Close") false close_sort ∷ [])

unfoldable pub options_view : Opened → Page → List (Shown Action)
options_view o p =
    (text (codes "All Shards")
      ∷ button (codes "Filter") false click_filter
      ∷ button (codes "Sort") false click_sort
      ∷ [])
    ++ show_if o.filter_open (filter_view p)
    ++ show_if o.sort_open (sort_view p)
