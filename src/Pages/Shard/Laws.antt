-- ===== src/Pages/Shard/Laws.antt =====
-- webui/src/app/namespaces/[namespace]/clusters/[cluster]/shards/[shard]/page.tsx: the orders by index
-- and the links of the rows.
use kvrocks_controller.Common.{
  All, Bool, List, [], ap, false, get_elem?, if◌then◌else◌, inl, inr, length, refl, some, suc, true,
  ℕ, ◌++◌, ◌+◌, ◌∷◌, ◌≡◌, ◌⊎◌,
}
use kvrocks_controller.Js.Decimal.{show_ℕ}
use kvrocks_controller.Js.Sort.{after, sort}
use kvrocks_controller.Js.Sort.Laws.{sort_of_ties}
use kvrocks_controller.Js.Text.{Text, codes, includes, starts_with}
use kvrocks_controller.Js.Value.{
  Items, Result, Value, arr, coerce, get_opt, items, ok, throw, undefined, ◌>>=◌,
}
use kvrocks_controller.Pages.Effects.{elements}
use kvrocks_controller.Pages.Shard.{
  FilterOption, Page, SortOption, compare_nodes, filter_nodes, filtered_and_sorted_nodes, has_role,
  index_asc, index_desc, is_listed, passes_filter, replicas, row_links, uptime_asc, uptime_desc,
}
use kvrocks_controller.Sidebar.{node_link}

-- A node as the controller sends it: it has no field `index`.
abbrev pub IsUnindexed : Value → Type 0
IsUnindexed v = get_opt (codes "index") v ≡ undefined

abbrev AllFound : Result (List Value) → Type 0
AllFound (ok vs) = All IsUnindexed vs
AllFound (throw t) = Unit

module _ (lower : Text → Text) (term : Text) (option : FilterOption) where
  filter_nodes-IsUnindexed :
      (i : ℕ) (vs : List Value)
      → All IsUnindexed vs
      → AllFound (filter_nodes lower term option i vs)
  unfolding filter_nodes
  filter_nodes-IsUnindexed i [] h = tt
  filter_nodes-IsUnindexed i (v ∷ vs) (p, h) =
      split (is_listed lower term option i v) (filter_nodes lower term option (suc i) vs)
        (filter_nodes-IsUnindexed (suc i) vs h)
    where
      split :
          (b : Result Bool) (rest : Result (List Value))
          → AllFound rest
          → AllFound (b >>= λ c. rest >>= λ us. ok (if c then v ∷ us else us))
      split (throw t) rest k = tt
      split (ok c) (throw t) k = tt
      split (ok true) (ok us) k = (p, k)
      split (ok false) (ok us) k = k

ties :
    (o : SortOption) (a b : Value)
    → (o ≡ index_asc) ⊎ (o ≡ index_desc)
    → IsUnindexed a
    → IsUnindexed b
    → after (compare_nodes o) a b ≡ false
unfolding after compare_nodes coerce
ties index_asc a b o p q = rw p
ties index_desc a b o p q = rw q
ties uptime_desc a b o p q = elim o [ inl e ↦ cc | inr e ↦ cc ]
ties uptime_asc a b o p q = elim o [ inl e ↦ cc | inr e ↦ cc ]

-- The controller's nodes have no index of their own, so that both orders by index list the nodes
-- that pass the search and the filter in the order in which the controller sent them.
pub filtered_and_sorted_nodes_of_index :
    (lower : Text → Text) (p : Page) (ns : Items)
    → get_opt (codes "nodes") p.nodes_data ≡ arr ns
    → All IsUnindexed (items ns)
    → (p.sort_option ≡ index_asc) ⊎ (p.sort_option ≡ index_desc)
    → filtered_and_sorted_nodes lower p
      ≡ filter_nodes lower p.search_term p.filter_option 0 (items ns)
unfolding filtered_and_sorted_nodes elements
filtered_and_sorted_nodes_of_index lower p ns e h o =
    rw e (sorted _ (filter_nodes-IsUnindexed lower p.search_term p.filter_option 0 (items ns) h))
  where
    sorted :
        (r : Result (List Value))
        → AllFound r
        → (r >>= λ vs. ok (sort (compare_nodes p.sort_option) vs)) ≡ r
    sorted (throw t) k = refl
    sorted (ok vs) k = ap ok (
        sort_of_ties (compare_nodes p.sort_option) IsUnindexed (λ a b. ties p.sort_option a b o) vs
          k)

includes_nil : (t : Text) → includes t [] ≡ true
unfolding includes starts_with
includes_nil [] = refl
includes_nil (c ∷ t) = refl

abbrev pub IsMaster : Value → Type 0
IsMaster v = has_role (codes "master") v ≡ ok true

filter_nodes-replicas :
    (lower : Text → Text) (i : ℕ) (ms : List Value) (r : Value)
    → lower [] ≡ []
    → All IsMaster ms
    → has_role (codes "master") r ≡ ok false
    → filter_nodes lower [] replicas i (ms ++ r ∷ []) ≡ ok (r ∷ [])
unfolding filter_nodes is_listed passes_filter
filter_nodes-replicas lower i [] r blank h k =
    rw (blank, includes_nil (lower (codes "node " ++ show_ℕ (i + 1))), k)
filter_nodes-replicas lower i (m ∷ ms) r blank (p, h) k = rw (
  blank,
  includes_nil (lower (codes "node " ++ show_ℕ (i + 1))),
  p,
  filter_nodes-replicas lower (suc i) ms r blank h k,
)

elem-append : (ms : List Value) (r : Value) → get_elem? (ms ++ r ∷ []) (length ms) ≡ some r
elem-append [] r = refl
elem-append (m ∷ ms) r = elem-append ms r

-- With the filter on replicas and no search term, a replica that follows masters is the one row of
-- the page, and its link is that of the node at the place 0, while its own place is the number of
-- masters before it.
pub replica_link_lem :
    (lower : Text → Text) (namespace cluster shard : Text) (ms : List Value) (r : Value)
    → lower [] ≡ []
    → All IsMaster ms
    → has_role (codes "master") r ≡ ok false
    → (filter_nodes lower [] replicas 0 (ms ++ r ∷ []) ≡ ok (r ∷ []))
      × (row_links namespace cluster shard 0 (r ∷ [])
          ≡ (r, node_link namespace cluster shard (codes "0")) ∷ [])
      × (get_elem? (ms ++ r ∷ []) (length ms) ≡ some r)
unfolding row_links
replica_link_lem lower namespace cluster shard ms r blank h k =
    (filter_nodes-replicas lower 0 ms r blank h k, unfold show_ℕ in refl, elem-append ms r)
