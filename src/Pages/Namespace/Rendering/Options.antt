-- ===== src/Pages/Namespace/Rendering/Options.antt =====
-- webui/src/app/namespaces/[namespace]/page.tsx: the popovers in which the user chooses a filter
-- and an order. A popover shows its content while it is open.
use kvrocks_controller.Common.{List, [], false, filter, length, not, ℕ, ◌++◌, ◌∷◌}
use kvrocks_controller.Js.Decimal.{show_ℕ}
use kvrocks_controller.Js.Text.{Text, codes}
use kvrocks_controller.Pages.Namespace.{ClusterData}
use kvrocks_controller.Pages.Namespace.Rendering.{
  Action, Opened, click_filter, click_sort, close_filter, close_sort, set_filter, set_sort,
}
use kvrocks_controller.Pages.Namespace.View.{
  Choice, FilterOption, SortOption, any_cluster, name_asc, name_desc, no_migration, no_slots,
  nodes_asc, nodes_desc, shards_asc, shards_desc, with_importing, with_migration, with_slots,
}
use kvrocks_controller.Ui.{Shown, button, chip, icon, text}
use kvrocks_controller.Ui.Parts.{marked_choice, show_if}

unfoldable pub filter_value : FilterOption → Text
filter_value any_cluster = codes "all"
filter_value with_migration = codes "with-migration"
filter_value no_migration = codes "no-migration"
filter_value with_slots = codes "with-slots"
filter_value no_slots = codes "no-slots"
filter_value with_importing = codes "with-importing"

unfoldable pub filter_label : FilterOption → Text
filter_label any_cluster = codes "All clusters"
filter_label with_migration = codes "With migration"
filter_label no_migration = codes "No migration"
filter_label with_slots = codes "With slots"
filter_label no_slots = codes "No slots"
filter_label with_importing = codes "With importing"

-- The number in the chip of each choice.
unfoldable pub filter_count : List ClusterData → FilterOption → ℕ
filter_count ds any_cluster = length ds
filter_count ds with_migration = length (filter (λ d. d.has_migration) ds)
filter_count ds no_migration = length (filter (λ d. not d.has_migration) ds)
filter_count ds with_slots = length (filter (λ d. d.has_slots) ds)
filter_count ds no_slots = length (filter (λ d. not d.has_slots) ds)
filter_count ds with_importing = length (filter (λ d. d.has_importing) ds)

unfoldable pub filter_choice : Choice → List ClusterData → FilterOption → List (Shown Action)
filter_choice p ds o =
    marked_choice (filter_value p.filter_option) (filter_value o) (set_filter o)
    ++ (text (filter_label o) ∷ chip (show_ℕ (filter_count ds o)) ∷ [])

unfoldable pub filter_view : Choice → List ClusterData → List (Shown Action)
filter_view p ds =
    (text (codes "Filter Clusters") ∷ [])
    ++ filter_choice p ds any_cluster
    ++ filter_choice p ds with_migration
    ++ filter_choice p ds no_migration
    ++ filter_choice p ds with_slots
    ++ filter_choice p ds no_slots
    ++ filter_choice p ds with_importing
    ++ (button (codes "Close") false close_filter ∷ [])

unfoldable pub sort_value : SortOption → Text
sort_value name_asc = codes "name-asc"
sort_value name_desc = codes "name-desc"
sort_value shards_desc = codes "shards-desc"
sort_value shards_asc = codes "shards-asc"
sort_value nodes_desc = codes "nodes-desc"
sort_value nodes_asc = codes "nodes-asc"

unfoldable pub sort_choice : Choice → SortOption → Text → Text → List (Shown Action)
sort_choice p o mark label =
    marked_choice (sort_value p.sort_option) (sort_value o) (set_sort o)
    ++ (icon mark ∷ text label ∷ [])

-- Two of the orders have no choice.
unfoldable pub sort_view : Choice → List (Shown Action)
sort_view p =
    (text (codes "Sort Clusters") ∷ [])
    ++ sort_choice p name_asc (codes "ArrowUpwardIcon") (codes "Name A-Z")
    ++ sort_choice p name_desc (codes "ArrowDownwardIcon") (codes "Name Z-A")
    ++ sort_choice p shards_desc (codes "ArrowDownwardIcon") (codes "Most shards")
    ++ sort_choice p nodes_desc (codes "ArrowDownwardIcon") (codes "Most nodes")
    ++ (button (codes "Close") false close_sort ∷ [])

unfoldable pub options_view : Opened → Choice → List ClusterData → List (Shown Action)
options_view o p ds =
    (text (codes "All Clusters")
      ∷ button (codes "Filter") false click_filter
      ∷ button (codes "Sort") false click_sort
      ∷ [])
    ++ show_if o.filter_open (filter_view p ds)
    ++ show_if o.sort_open (sort_view p)
