-- ===== src/Pages/Namespaces/Totals.antt =====
-- webui/src/app/namespaces/page.tsx: the counts over the rows.
use kvrocks_controller.Common.{
  ap, false, sym, List, [], arith, length, refl, suc, sum_of, zero, ℕ, ◌+◌, ◌∷◌, ◌≡◌,
}
use kvrocks_controller.Api.Calls.{
  Request, fetch_clusters, fetch_namespaces, list_nodes, list_shards,
}
use kvrocks_controller.Common.Int.{pos}
use kvrocks_controller.Js.Decimal.{show_ℕ}
use kvrocks_controller.Js.Text.{Text}
use kvrocks_controller.Js.Value.{Result, Value, ok, throw, to_text}
use kvrocks_controller.Pages.Effects.{count_items, length_of}
use kvrocks_controller.Pages.Namespaces.{
  Counters, NamespaceData, Page, add_nodes, add_shards, count_clusters, count_nodes,
  enter_namespace, fetch_data, finish_loading, gather, gather_namespaces, iterate, new_row,
  no_counters, push_row, show_namespaces,
}
use kvrocks_controller.Pages.Namespaces.Rows.{HasRows, gather-HasRows, is_string}

-- What a walk over clusters adds, it adds to the counts of the namespace and to the totals alike.
pub record Grown (c c' : Counters) : Type 0 where
  pub clusters : c'.total_clusters ≡ c.total_clusters
  pub shards : c'.total_shards + c.namespace_shards ≡ c.total_shards + c'.namespace_shards
  pub nodes : c'.total_nodes + c.namespace_nodes ≡ c.total_nodes + c'.namespace_nodes

-- The rows `ds` take the totals from `c` to `c'`.
pub record AddsUp (c : Counters) (ds : List NamespaceData) (c' : Counters) : Type 0 where
  pub clusters : c'.total_clusters ≡ c.total_clusters + sum_of (λ d. d.cluster_count) ds
  pub shards : c'.total_shards ≡ c.total_shards + sum_of (λ d. d.shard_count) ds
  pub nodes : c'.total_nodes ≡ c.total_nodes + sum_of (λ d. d.node_count) ds

pub record IsConsistent (p : Page) : Type 0 where
  pub namespaces : p.resource_counts.namespaces ≡ pos (length p.namespaces_data)
  pub clusters : p.resource_counts.clusters ≡ sum_of (λ d. d.cluster_count) p.namespaces_data
  pub shards : p.resource_counts.shards ≡ sum_of (λ d. d.shard_count) p.namespaces_data
  pub nodes : p.resource_counts.nodes ≡ sum_of (λ d. d.node_count) p.namespaces_data

abbrev FoundAddsUp : Counters → Result (List NamespaceData × Counters) → Type 0
FoundAddsUp c (ok (ds, c')) = AddsUp c ds c'
FoundAddsUp c (throw t) = Unit

push_row-AddsUp :
    (name : Text) (n : ℕ) (c c' : Counters) (found : Result (List NamespaceData × Counters))
    → Grown (enter_namespace n c) c'
    → FoundAddsUp c' found
    → FoundAddsUp c (push_row (new_row name n c') found)
unfolding push_row new_row enter_namespace sum_of
push_row-AddsUp name n c c' (throw t) g h = tt
push_row-AddsUp name n c c' (ok (ds, c'')) g h = record {
  clusters = omega (arith, g.clusters, h.clusters);
  shards = omega (arith, g.shards, h.shards);
  nodes = omega (arith, g.nodes, h.nodes);
}

module _ {W : Type 0} (axios : Request → W → Result Value × W) where
  count_nodes-Grown :
      (ns cluster : Text) (n i : ℕ) (c₀ c : Counters) (w : W)
      → Grown c₀ c
      → Grown c₀ (count_nodes axios ns cluster n i c w).0
  unfolding count_nodes add_nodes
  count_nodes-Grown ns cluster zero i c₀ c w g = g
  count_nodes-Grown ns cluster (suc n) i c₀ c w g =
      let (nodes, w') = list_nodes axios ns cluster (show_ℕ i) w in
      count_nodes-Grown ns cluster n (suc i) c₀ (add_nodes (count_items nodes) c) w'
        (record { clusters = g.clusters; shards = g.shards; nodes = omega (arith, g.nodes) })

  count_clusters-Grown :
      (ns : Text) (cs : List Value) (c₀ c : Counters) (w : W)
      → Grown c₀ c
      → Grown c₀ (count_clusters axios ns cs c w).0
  unfolding count_clusters add_shards
  count_clusters-Grown ns [] c₀ c w g = g
  count_clusters-Grown ns (cluster ∷ cs) c₀ c w g =
      let (shards, w') = list_shards axios ns (to_text cluster) w in
      let n = count_items shards in
      let c' = add_shards n c in
      let counted = count_nodes axios ns (to_text cluster) n 0 c' w' in
      count_clusters-Grown ns cs c₀ counted.0 counted.1 (
        count_nodes-Grown ns (to_text cluster) n 0 c₀ c' w'
          (record { clusters = g.clusters; shards = omega (arith, g.shards); nodes = g.nodes }))

  gather_namespaces-AddsUp :
      (nss : List Value) (c : Counters) (w : W) → FoundAddsUp c (gather_namespaces axios nss c w).0
  unfolding gather_namespaces
  gather_namespaces-AddsUp [] c w =
      unfold sum_of in record { clusters = omega arith; shards = omega arith; nodes = omega arith }
  gather_namespaces-AddsUp (ns ∷ nss) c w = split (gather_namespaces-AddsUp nss) (iterate clusters)
    where
      clusters : Value
      clusters = (fetch_clusters axios (to_text ns) w).0

      w' : W
      w' = (fetch_clusters axios (to_text ns) w).1

      split :
          ((c' : Counters) (v : W) → FoundAddsUp c' (gather_namespaces axios nss c' v).0)
          → (r : Result (List Value))
          → FoundAddsUp c
              (elim r as (λ _. Result (List NamespaceData × Counters) × W) [
                | throw t ↦ (throw t, w')
                | ok cs ↦
                    let (c', w'') =
                      count_clusters axios
                        (to_text ns)
                        cs
                        (enter_namespace (length_of clusters) c)
                        w' in
                    let (found, w''') = gather_namespaces axios nss c' w'' in
                    (push_row (new_row (to_text ns) (length_of clusters) c') found, w''')
              ]).0
      split rest (throw t) = tt
      split rest (ok cs) =
          let entered = enter_namespace (length_of clusters) c in
          let counted = count_clusters axios (to_text ns) cs entered w' in
          push_row-AddsUp (to_text ns) (length_of clusters) c counted.0
            (gather_namespaces axios nss counted.0 counted.1).0
            (count_clusters-Grown (to_text ns) cs entered entered w'
              (record { clusters = refl; shards = refl; nodes = refl }))
            (rest counted.0 counted.1)

  gather-AddsUp : (v : Value) (w : W) → FoundAddsUp no_counters (gather axios v w).0
  unfolding gather
  gather-AddsUp v w = split (iterate v)
    where
      split :
          (r : Result (List Value))
          → FoundAddsUp no_counters
              (elim r as (λ _. Result (List NamespaceData × Counters) × W) [
                | throw t ↦ (throw t, w)
                | ok nss ↦ gather_namespaces axios nss no_counters w
              ]).0
      split (throw t) = tt
      split (ok nss) = gather_namespaces-AddsUp nss no_counters w

finish_loading-IsConsistent :
    (fetched : Value) (found : Result (List NamespaceData × Counters)) (p : Page)
    → HasRows (length_of fetched) found
    → FoundAddsUp no_counters found
    → IsConsistent p
    → IsConsistent (finish_loading fetched found p)
unfolding finish_loading show_namespaces
finish_loading-IsConsistent fetched (ok (ds, c)) p rows h q = record {
  namespaces = ap pos (sym rows);
  clusters = omega (arith, h.clusters);
  shards = omega (arith, h.shards);
  nodes = omega (arith, h.nodes);
}
finish_loading-IsConsistent fetched (throw t) p rows h q = record {
  namespaces = q.namespaces;
  clusters = q.clusters;
  shards = q.shards;
  nodes = q.nodes;
}

-- Loading the page of all namespaces keeps its four counts those of the rows that it shows, if they
-- were so: the number of the rows and the sums of their clusters, shards and nodes. The server may
-- answer anything, but for a text in place of the list of the namespaces.
pub fetch_data_keeps_counts :
    {W : Type 0} (axios : Request → W → Result Value × W) (p : Page) (w : W)
    → is_string (fetch_namespaces axios w).0 ≡ false
    → IsConsistent p
    → IsConsistent (fetch_data axios p w).0
unfolding fetch_data
fetch_data_keeps_counts axios p w no_text h =
    let (fetched, w') = fetch_namespaces axios w in
    finish_loading-IsConsistent fetched (gather axios fetched w').0 p
      (gather-HasRows axios fetched w' no_text) (gather-AddsUp axios fetched w') h
