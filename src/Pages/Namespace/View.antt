-- ===== src/Pages/Namespace/View.antt =====
-- webui/src/app/namespaces/[namespace]/page.tsx: the clusters that the page lists. `toLowerCase` is
-- the parameter `lower`, `localeCompare` is `locale_compare`; a cluster's name is a text.
pub mod Laws
use kvrocks_controller.Common.{Bool, List, false, filter, if◌then◌else◌, not, true}
use kvrocks_controller.Js.Number.{Num, num_sub, num_ℕ}
use kvrocks_controller.Js.Sort.{sort}
use kvrocks_controller.Js.Text.{Text, codes, includes}
use kvrocks_controller.Js.Value.{get_opt, to_text}
use kvrocks_controller.Pages.Namespace.{ClusterData}

pub data FilterOption : Type 0 where
  any_cluster with_migration no_migration with_slots no_slots with_importing : FilterOption

pub data SortOption : Type 0 where
  name_asc name_desc shards_desc shards_asc nodes_desc nodes_asc : SortOption

-- The `useState` of the view.
pub record Choice : Type 0 where
  pub search_term : Text
  pub filter_option : FilterOption
  pub sort_option : SortOption

unfoldable pub cluster_name : ClusterData → Text
cluster_name d = to_text (get_opt (codes "name") d.info)

unfoldable pub passes_filter : FilterOption → ClusterData → Bool
passes_filter any_cluster d = true
passes_filter with_migration d = d.has_migration
passes_filter no_migration d = not d.has_migration
passes_filter with_slots d = d.has_slots
passes_filter no_slots d = not d.has_slots
passes_filter with_importing d = d.has_importing

unfoldable pub compare_clusters : (Text → Text → Num) → SortOption → ClusterData → ClusterData → Num
compare_clusters locale_compare name_asc a b = locale_compare (cluster_name a) (cluster_name b)
compare_clusters locale_compare name_desc a b = locale_compare (cluster_name b) (cluster_name a)
compare_clusters _ shards_desc a b = num_sub (num_ℕ b.shard_count) (num_ℕ a.shard_count)
compare_clusters _ shards_asc a b = num_sub (num_ℕ a.shard_count) (num_ℕ b.shard_count)
compare_clusters _ nodes_desc a b = num_sub (num_ℕ b.node_count) (num_ℕ a.node_count)
compare_clusters _ nodes_asc a b = num_sub (num_ℕ a.node_count) (num_ℕ b.node_count)

module _ (lower : Text → Text) (locale_compare : Text → Text → Num) where
  unfoldable pub is_listed : Choice → ClusterData → Bool
  is_listed p d =
      if not (includes (lower (cluster_name d)) (lower p.search_term))
      then false
      else passes_filter p.filter_option d

  unfoldable pub filtered_and_sorted_clusters : Choice → List ClusterData → List ClusterData
  filtered_and_sorted_clusters p ds =
      sort (compare_clusters locale_compare p.sort_option) (filter (is_listed p) ds)
