-- ===== src/Pages/Namespaces/View/Laws.antt =====
-- webui/src/app/namespaces/page.tsx: which namespaces the page lists.
use mathlib.Core.List.{Perm}
use kvrocks_controller.Common.{arith, false, filter, ◌≡◌, ◌≤◌}
use kvrocks_controller.Common.Int.{◌-ℤ◌}
use kvrocks_controller.Js.Number.{Num}
use kvrocks_controller.Js.Sort.{after}
use kvrocks_controller.Js.Sort.Laws.{IsOrder, Ordered, sort-Ordered, sort-perm}
use kvrocks_controller.Js.Text.{Text}
use kvrocks_controller.Pages.Namespaces.{
  NamespaceData, Page, SortOption, clusters_asc, clusters_desc, name_asc, name_desc, nodes_asc,
  nodes_desc,
}
use kvrocks_controller.Pages.Namespaces.View.{
  compare_namespaces, filtered_and_sorted_namespaces, is_listed,
}

-- The order that each option names; names are ordered by the comparison of the locale.
abbrev pub InOrder : (Text → Text → Num) → SortOption → NamespaceData → NamespaceData → Type 0
InOrder locale_compare name_asc a b = after locale_compare a.name b.name ≡ false
InOrder locale_compare name_desc a b = after locale_compare b.name a.name ≡ false
InOrder locale_compare clusters_desc a b = b.cluster_count ≤ a.cluster_count
InOrder locale_compare clusters_asc a b = a.cluster_count ≤ b.cluster_count
InOrder locale_compare nodes_desc a b = b.node_count ≤ a.node_count
InOrder locale_compare nodes_asc a b = a.node_count ≤ b.node_count

after-InOrder :
    (lc : Text → Text → Num) (o : SortOption) (a b : NamespaceData)
    → after (compare_namespaces lc o) a b ≡ false
    → InOrder lc o a b
unfolding after compare_namespaces ◌-ℤ◌
after-InOrder lc name_asc a b h = h
after-InOrder lc name_desc a b h = h
after-InOrder lc clusters_desc a b h = ground arith
after-InOrder lc clusters_asc a b h = ground arith
after-InOrder lc nodes_desc a b h = ground arith
after-InOrder lc nodes_asc a b h = ground arith

module _ (locale_compare : Text → Text → Num) (order : IsOrder locale_compare) where
  compare_namespaces-IsOrder : (o : SortOption) → IsOrder (compare_namespaces locale_compare o)
  unfolding after compare_namespaces ◌-ℤ◌
  compare_namespaces-IsOrder name_asc = record {
    asymmetric = λ x y. order.asymmetric x.name y.name;
    transitive = λ x y z. order.transitive x.name y.name z.name;
  }
  compare_namespaces-IsOrder name_desc = record {
    asymmetric = λ x y. order.asymmetric y.name x.name;
    transitive = λ x y z h k. order.transitive z.name y.name x.name k h;
  }
  compare_namespaces-IsOrder _ = record {
    asymmetric = λ x y h. ground arith;
    transitive = λ x y z h k. ground arith;
  }

  -- Where the locale's comparison orders the names up to ties, the page lists the namespaces whose
  -- name holds the search term and that pass the filter, each as often as it was gathered, and no
  -- two of them against the chosen order.
  pub filtered_and_sorted_namespaces_lem :
      (lower : Text → Text) (p : Page)
      → let listed = filtered_and_sorted_namespaces lower locale_compare p in
        Perm listed (filter (is_listed lower locale_compare p) p.namespaces_data)
        × Ordered (InOrder locale_compare p.sort_option) listed
  unfolding filtered_and_sorted_namespaces
  filtered_and_sorted_namespaces_lem lower p =
      let compare = compare_namespaces locale_compare p.sort_option in
      (
        sort-perm compare _,
        sort-Ordered compare (compare_namespaces-IsOrder p.sort_option)
            (after-InOrder locale_compare p.sort_option) _,
      )
