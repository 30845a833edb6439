-- ===== src/Pages/Cluster/View.antt =====
-- webui/src/app/namespaces/[namespace]/clusters/[cluster]/page.tsx: the shards that the page
-- lists, by its search term, filter and order. `toLowerCase` is the parameter `lower`.
pub mod Laws
use kvrocks_controller.Common.{Bool, List, false, filter, if◌then◌else◌, not, true, ◌++◌, ◌+◌}
use kvrocks_controller.Js.Decimal.{show_ℕ}
use kvrocks_controller.Js.Number.{Num, num_sub, num_ℕ}
use kvrocks_controller.Js.Sort.{sort}
use kvrocks_controller.Js.Text.{Text, codes, includes}
use kvrocks_controller.Pages.Cluster.{
  FilterOption, Page, ShardData, SortOption, any_shard, index_asc, index_desc, no_migration,
  no_slots, nodes_asc, nodes_desc, slots_only, with_importing, with_migration,
}

unfoldable pub passes_filter : FilterOption → ShardData → Bool
passes_filter any_shard d = true
passes_filter with_migration d = d.has_migration
passes_filter no_migration d = not d.has_migration
passes_filter slots_only d = d.has_slots
passes_filter no_slots d = not d.has_slots
passes_filter with_importing d = d.has_importing

unfoldable pub compare_shards : SortOption → ShardData → ShardData → Num
compare_shards index_asc a b = num_sub (num_ℕ a.index) (num_ℕ b.index)
compare_shards index_desc a b = num_sub (num_ℕ b.index) (num_ℕ a.index)
compare_shards nodes_desc a b = num_sub (num_ℕ b.node_count) (num_ℕ a.node_count)
compare_shards nodes_asc a b = num_sub (num_ℕ a.node_count) (num_ℕ b.node_count)

module _ (lower : Text → Text) where
  unfoldable pub matches_search : Text → ShardData → Bool
  matches_search term d = includes (lower (codes "shard " ++ show_ℕ (d.index + 1))) (lower term)

  unfoldable pub is_listed : Page → ShardData → Bool
  is_listed p d =
      if not (matches_search p.search_term d) then false else passes_filter p.filter_option d

  unfoldable pub filtered_and_sorted_shards : Page → List ShardData
  filtered_and_sorted_shards p =
      sort (compare_shards p.sort_option) (filter (is_listed p) p.shards_data)
