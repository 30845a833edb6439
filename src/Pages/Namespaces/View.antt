-- ===== src/Pages/Namespaces/View.antt =====
-- webui/src/app/namespaces/page.tsx: the namespaces that the page lists, by its search term, filter
-- and order. `toLowerCase` is the parameter `lower`, `localeCompare` the parameter `locale_compare`.
pub mod Laws
use kvrocks_controller.Common.{Bool, List, false, filter, if◌then◌else◌, ltb, not, true, ◌==◌}
use kvrocks_controller.Js.Number.{Num, num_sub, num_ℕ}
use kvrocks_controller.Js.Sort.{sort}
use kvrocks_controller.Js.Text.{Text, includes}
use kvrocks_controller.Pages.Namespaces.{
  FilterOption, NamespaceData, Page, SortOption, any_namespace, clusters_asc, clusters_desc,
  name_asc, name_desc, no_clusters, nodes_asc, nodes_desc, with_clusters,
}

unfoldable pub passes_filter : FilterOption → NamespaceData → Bool
passes_filter any_namespace d = true
passes_filter with_clusters d = ltb 0 d.cluster_count
passes_filter no_clusters d = d.cluster_count == 0

unfoldable pub compare_namespaces :
    (Text → Text → Num) → SortOption → NamespaceData → NamespaceData → Num
compare_namespaces locale_compare name_asc a b = locale_compare a.name b.name
compare_namespaces locale_compare name_desc a b = locale_compare b.name a.name
compare_namespaces _ clusters_desc a b = num_sub (num_ℕ b.cluster_count) (num_ℕ a.cluster_count)
compare_namespaces _ clusters_asc a b = num_sub (num_ℕ a.cluster_count) (num_ℕ b.cluster_count)
compare_namespaces _ nodes_desc a b = num_sub (num_ℕ b.node_count) (num_ℕ a.node_count)
compare_namespaces _ nodes_asc a b = num_sub (num_ℕ a.node_count) (num_ℕ b.node_count)

module _ (lower : Text → Text) (locale_compare : Text → Text → Num) where
  unfoldable pub is_listed : Page → NamespaceData → Bool
  is_listed p d =
      if not (includes (lower d.name) (lower p.search_term))
      then false
      else passes_filter p.filter_option d

  unfoldable pub filtered_and_sorted_namespaces : Page → List NamespaceData
  filtered_and_sorted_namespaces p =
      sort (compare_namespaces locale_compare p.sort_option)
        (filter (is_listed p) p.namespaces_data)
