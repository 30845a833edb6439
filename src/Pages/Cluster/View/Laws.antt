-- ===== src/Pages/Cluster/View/Laws.antt =====
-- webui/src/app/namespaces/[namespace]/clusters/[cluster]/page.tsx: which shards the page lists.
use mathlib.Core.List.{Perm}
use mathlib.Core.List.{perm-append_right_iff}
use mathlib.Core.List.Perm
use kvrocks_controller.Common.{
  All, Bool-cases, List, arith, false, filter, inl, inr, not, refl, true, ◌++◌, ◌+◌, ◌↔◌, ◌≡◌, ◌≤◌,
}
use kvrocks_controller.Js.Decimal.{show_ℕ}
use kvrocks_controller.Common.Int.{◌-ℤ◌}
use kvrocks_controller.Js.Sort.{after}
use kvrocks_controller.Js.Sort.Laws.{
  IsOrder, Ordered, filter-All, filter-perm, sort-All, sort-Ordered, sort-perm,
}
use kvrocks_controller.Js.Text.{Text, codes, includes}
use kvrocks_controller.Js.Text.Laws.{IsWithin, includes-IsWithin, includes-append}
use kvrocks_controller.Pages.Cluster.{
  FilterOption, any_shard, with_migration, no_migration, slots_only, no_slots, with_importing, Page,
  ShardData, SortOption, index_asc, index_desc, nodes_asc, nodes_desc,
}
use kvrocks_controller.Pages.Cluster.View.{
  compare_shards, filtered_and_sorted_shards, is_listed, matches_search, passes_filter,
}

-- The order that each option names.
abbrev pub InOrder : SortOption → ShardData → ShardData → Type 0
InOrder index_asc a b = a.index ≤ b.index
InOrder index_desc a b = b.index ≤ a.index
InOrder nodes_desc a b = b.node_count ≤ a.node_count
InOrder nodes_asc a b = a.node_count ≤ b.node_count

after-InOrder :
    (o : SortOption) (a b : ShardData) → after (compare_shards o) a b ≡ false → InOrder o a b
unfolding after compare_shards ◌-ℤ◌
after-InOrder index_asc a b h = ground arith
after-InOrder _ a b h = ground arith

compare_shards-IsOrder : (o : SortOption) → IsOrder (compare_shards o)
unfolding after compare_shards ◌-ℤ◌
compare_shards-IsOrder index_asc = record {
  asymmetric = λ x y h. ground arith;
  transitive = λ x y z h k. ground arith;
}
compare_shards-IsOrder _ = record {
  asymmetric = λ x y h. ground arith;
  transitive = λ x y z h k. ground arith;
}

-- What each filter asks of a shard.
abbrev pub Admits : FilterOption → ShardData → Type 0
Admits any_shard d = Unit
Admits with_migration d = d.has_migration ≡ true
Admits no_migration d = d.has_migration ≡ false
Admits slots_only d = d.has_slots ≡ true
Admits no_slots d = d.has_slots ≡ false
Admits with_importing d = d.has_importing ≡ true

-- What the user asks for: the search term stands in "shard" and the number of the shard from one on,
-- letter case aside, and the filter admits the shard.
abbrev pub IsWanted : (Text → Text) → Page → ShardData → Type 0
IsWanted lower p d =
    IsWithin (lower p.search_term) (lower (codes "shard " ++ show_ℕ (d.index + 1)))
    × Admits p.filter_option d

passes_filter-Admits : (o : FilterOption) (d : ShardData) → (passes_filter o d ≡ true) ↔ Admits o d
unfolding passes_filter
passes_filter-Admits any_shard d = (λ h. tt, λ h. refl)
passes_filter-Admits no_migration d = (λ h. ground arith, λ h. ground arith)
passes_filter-Admits no_slots d = (λ h. ground arith, λ h. ground arith)
passes_filter-Admits with_migration d = (λ h. h, λ h. h)
passes_filter-Admits slots_only d = (λ h. h, λ h. h)
passes_filter-Admits with_importing d = (λ h. h, λ h. h)

is_listed-IsWanted :
    (lower : Text → Text) (p : Page) (d : ShardData)
    → (is_listed lower p d ≡ true) ↔ IsWanted lower p d
unfolding is_listed matches_search
is_listed-IsWanted lower p d = (forward, backward)
  where
    named : Text
    named = lower (codes "shard " ++ show_ℕ (d.index + 1))

    forward : is_listed lower p d ≡ true → IsWanted lower p d
    forward h = elim (Bool-cases (includes named (lower p.search_term))) [
      | inl found ↦ (
        includes-IsWithin named (lower p.search_term) found,
        (passes_filter-Admits p.filter_option d).0 (rw found at h),
      )
      | inr missing ↦ cc (rw missing at h)
    ]

    backward : IsWanted lower p d → is_listed lower p d ≡ true
    backward ((front, rest, e), admitted) =
        let found : includes named (lower p.search_term) ≡ true =
          rw e (includes-append front (lower p.search_term) rest) in
        rw (found, (passes_filter-Admits p.filter_option d).1 admitted)

-- The cluster page lists every shard that the user asks for, by the search term and the filter, each
-- as often as the controller sent it, and no other: the shards are those of the page together with
-- some that the user does not ask for. No two shards of the page are against the chosen order.
pub filtered_and_sorted_shards_lem :
    (lower : Text → Text) (p : Page)
    → ((others : List ShardData) × Perm (filtered_and_sorted_shards lower p ++ others) p.shards_data
        × All (IsWanted lower p) (filtered_and_sorted_shards lower p)
        × All (λ d. ¬ IsWanted lower p d) others)
      × Ordered (InOrder p.sort_option) (filtered_and_sorted_shards lower p)
unfolding filtered_and_sorted_shards
filtered_and_sorted_shards_lem lower p =
    let listed = filter (is_listed lower p) p.shards_data in
    let others = filter (λ d. not (is_listed lower p d)) p.shards_data in
    (
      (
        others,
        Perm.trans
            ((perm-append_right_iff others).1 (sort-perm (compare_shards p.sort_option) listed))
            (filter-perm (is_listed lower p) p.shards_data),
        sort-All (compare_shards p.sort_option) (IsWanted lower p) listed (
            filter-All (IsWanted lower p) (is_listed lower p)
              (λ d h. (is_listed-IsWanted lower p d).0 h) p.shards_data),
        filter-All (λ d. ¬ IsWanted lower p d) (λ d. not (is_listed lower p d)) unwanted
            p.shards_data,
      ),
      sort-Ordered (compare_shards p.sort_option) (compare_shards-IsOrder p.sort_option)
          (after-InOrder p.sort_option) listed,
    )
  where
    unwanted : (d : ShardData) → not (is_listed lower p d) ≡ true → ¬ IsWanted lower p d
    unwanted d h w = let listed = (is_listed-IsWanted lower p d).1 w in cc (rw listed at h)
