-- ===== src/Pages/Namespace/View/Laws.antt =====
-- webui/src/app/namespaces/[namespace]/page.tsx: which clusters the page lists.
use mathlib.Core.List.{Perm}
use kvrocks_controller.Common.{List, arith, false, filter, ◌≡◌, ◌≤◌}
use kvrocks_controller.Common.Int.{◌-ℤ◌}
use kvrocks_controller.Js.Number.{Num}
use kvrocks_controller.Js.Sort.{after}
use kvrocks_controller.Js.Sort.Laws.{IsOrder, Ordered, sort-Ordered, sort-perm}
use kvrocks_controller.Js.Text.{Text}
use kvrocks_controller.Pages.Namespace.{ClusterData}
use kvrocks_controller.Pages.Namespace.View.{
  Choice, cluster_name, compare_clusters, filtered_and_sorted_clusters, is_listed, shards_asc,
  shards_desc, SortOption, name_asc, name_desc, nodes_asc, nodes_desc,
}

-- The order that each option names; names are ordered by the comparison of the locale.
abbrev pub InOrder : (Text → Text → Num) → SortOption → ClusterData → ClusterData → Type 0
InOrder locale_compare name_asc a b = after locale_compare (cluster_name a) (cluster_name b) ≡ false
InOrder locale_compare name_desc a b =
    after locale_compare (cluster_name b) (cluster_name a) ≡ false
InOrder locale_compare shards_desc a b = b.shard_count ≤ a.shard_count
InOrder locale_compare shards_asc a b = a.shard_count ≤ b.shard_count
InOrder locale_compare nodes_desc a b = b.node_count ≤ a.node_count
InOrder locale_compare nodes_asc a b = a.node_count ≤ b.node_count

after-InOrder :
    (lc : Text → Text → Num) (o : SortOption) (a b : ClusterData)
    → after (compare_clusters lc o) a b ≡ false
    → InOrder lc o a b
unfolding after compare_clusters ◌-ℤ◌
after-InOrder lc name_asc a b h = h
after-InOrder lc name_desc a b h = h
after-InOrder lc shards_desc a b h = ground arith
after-InOrder lc shards_asc a b h = ground arith
after-InOrder lc nodes_desc a b h = ground arith
after-InOrder lc nodes_asc a b h = ground arith

module _ (locale_compare : Text → Text → Num) (order : IsOrder locale_compare) where
  compare_clusters-IsOrder : (o : SortOption) → IsOrder (compare_clusters locale_compare o)
  unfolding after compare_clusters ◌-ℤ◌
  compare_clusters-IsOrder name_asc = record {
    asymmetric = λ x y. order.asymmetric (cluster_name x) (cluster_name y);
    transitive = λ x y z. order.transitive (cluster_name x) (cluster_name y) (cluster_name z);
  }
  compare_clusters-IsOrder name_desc = record {
    asymmetric = λ x y. order.asymmetric (cluster_name y) (cluster_name x);
    transitive =
        λ x y z h k. order.transitive (cluster_name z) (cluster_name y) (cluster_name x) k h;
  }
  compare_clusters-IsOrder _ = record {
    asymmetric = λ x y h. ground arith;
    transitive = λ x y z h k. ground arith;
  }

  -- Where the locale's comparison orders the names up to ties, the page lists the clusters whose
  -- name holds the search term and that pass the filter, each as often as it was gathered, and no
  -- two of them against the chosen order.
  filtered_and_sorted_clusters_lem :
      (lower : Text → Text) (p : Choice) (ds : List ClusterData)
      → let listed = filtered_and_sorted_clusters lower locale_compare p ds in
        Perm listed (filter (is_listed lower locale_compare p) ds)
        × Ordered (InOrder locale_compare p.sort_option) listed
  unfolding filtered_and_sorted_clusters
  filtered_and_sorted_clusters_lem lower p ds =
      let compare = compare_clusters locale_compare p.sort_option in
      (
        sort-perm compare _,
        sort-Ordered compare (compare_clusters-IsOrder p.sort_option)
            (after-InOrder locale_compare p.sort_option) _,
      )
