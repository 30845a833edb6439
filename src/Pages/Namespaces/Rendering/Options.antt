-- ===== src/Pages/Namespaces/Rendering/Options.antt =====
-- webui/src/app/namespaces/page.tsx: the popovers in which the user chooses a filter and an order.
-- A popover shows its content while it is open.
use kvrocks_controller.Common.{List, [], false, filter, length, ltb, ℕ, ◌++◌, ◌==◌, ◌∷◌}
use kvrocks_controller.Js.Decimal.{show_ℕ}
use kvrocks_controller.Js.Text.{Text, codes}
use kvrocks_controller.Pages.Namespaces.{
  FilterOption, NamespaceData, Page, SortOption, any_namespace, clusters_asc, clusters_desc,
  name_asc, name_desc, no_clusters, nodes_asc, nodes_desc, with_clusters,
}
use kvrocks_controller.Pages.Namespaces.Rendering.{
  Action, Opened, click_filter, click_sort, close_filter, close_sort, set_filter, set_sort,
}
use kvrocks_controller.Ui.{Shown, button, chip, icon, text}
use kvrocks_controller.Ui.Parts.{marked_choice, show_if}

unfoldable pub filter_value : FilterOption → Text
filter_value any_namespace = codes "all"
filter_value with_clusters = codes "with-clusters"
filter_value no_clusters = codes "no-clusters"

unfoldable pub filter_label : FilterOption → Text
filter_label any_namespace = codes "All namespaces"
filter_label with_clusters = codes "With clusters"
filter_label no_clusters = codes "No clusters"

-- The number in the chip of each choice.
unfoldable pub filter_count : List NamespaceData → FilterOption → ℕ
filter_count ds any_namespace = length ds
filter_count ds with_clusters = length (filter (λ d. ltb 0 d.cluster_count) ds)
filter_count ds no_clusters = length (filter (λ d. d.cluster_count == 0) ds)

unfoldable pub filter_choice : Page → FilterOption → List (Shown Action)
filter_choice p o =
    marked_choice (filter_value p.filter_option) (filter_value o) (set_filter o)
    ++ (text (filter_label o) ∷ chip (show_ℕ (filter_count p.namespaces_data o)) ∷ [])

unfoldable pub filter_view : Page → List (Shown Action)
filter_view p =
    (text (codes "Filter Namespaces") ∷ [])
    ++ filter_choice p any_namespace
    ++ filter_choice p with_clusters
    ++ filter_choice p no_clusters
    ++ (button (codes "Close") false close_filter ∷ [])

unfoldable pub sort_value : SortOption → Text
sort_value name_asc = codes "name-asc"
sort_value name_desc = codes "name-desc"
sort_value clusters_desc = codes "clusters-desc"
sort_value clusters_asc = codes "clusters-asc"
sort_value nodes_desc = codes "nodes-desc"
sort_value nodes_asc = codes "nodes-asc"

unfoldable pub sort_choice : Page → SortOption → Text → Text → List (Shown Action)
sort_choice p o mark label =
    marked_choice (sort_value p.sort_option) (sort_value o) (set_sort o)
    ++ (icon mark ∷ text label ∷ [])

unfoldable pub sort_view : Page → List (Shown Action)
sort_view p =
    (text (codes "Sort By") ∷ text (codes "Name") ∷ [])
    ++ sort_choice p name_asc (codes "ArrowUpwardIcon") (codes "A to Z")
    ++ sort_choice p name_desc (codes "ArrowDownwardIcon") (codes "Z to A")
    ++ (text (codes "Clusters") ∷ [])
    ++ sort_choice p clusters_desc (codes "ArrowDownwardIcon") (codes "Most clusters")
    ++ sort_choice p clusters_asc (codes "ArrowUpwardIcon") (codes "Fewest clusters")
    ++ (text (codes "Nodes") ∷ [])
    ++ sort_choice p nodes_desc (codes "ArrowDownwardIcon") (codes "Most nodes")
    ++ sort_choice p nodes_asc (codes "ArrowUpwardIcon") (codes "Fewest nodes")
    ++ (button (codes "Close") false close_sort ∷ [])

unfoldable pub options_view : Opened → Page → List (Shown Action)
options_view o p =
    (text (codes "All Namespaces")
      ∷ button (codes "Filter") false click_filter
      ∷ button (codes "Sort") false click_sort
      ∷ [])
    ++ show_if o.filter_open (filter_view p)
    ++ show_if o.sort_open (sort_view p)
