-- ===== src/Pages/Namespace/Invariant.antt =====
-- webui/src/app/namespaces/[namespace]/page.tsx: the counts of the page through its handlers.
use kvrocks_controller.Common.{
  Bool, Bool-cases, List, arith, false, if◌then◌else◌, inl, inr, not, refl, some, true, ◌≡◌,
}
use kvrocks_controller.Api.Calls.{Request, delete_cluster, fetch_clusters, fetch_namespaces}
use kvrocks_controller.Js.Text.{Text, codes}
use kvrocks_controller.Js.Value.{Result, Thrown, Value, ok, throw, to_text, truthy}
use kvrocks_controller.Pages.Effects.{elements, thrown_text}
use kvrocks_controller.Pages.Namespace.{ClusterData, Page}
use kvrocks_controller.Pages.Namespace.Gather.{Totals, gather, no_totals}
use kvrocks_controller.Pages.Namespace.Handlers.{
  alert, delete_failed, fetch_data, finish_deleting, finish_loading, handle_delete_cluster,
  includes_name, load_clusters, show_clusters,
}
use kvrocks_controller.Pages.Namespace.Totals.{AddsUp, IsConsistent, IsWellFormed, gather-AddsUp}

module _ {p : Page} (q : Page) (h : IsConsistent p) where
  IsConsistent-same :
      q.cluster_data ≡ p.cluster_data → q.resource_counts ≡ p.resource_counts → IsConsistent q
  IsConsistent-same d c = record {
    clusters = rw (d, c) h.clusters;
    shards = rw (d, c) h.shards;
    nodes = rw (d, c) h.nodes;
  }

show_clusters-IsConsistent :
    (ds : List ClusterData) (t : Totals) (p : Page)
    → AddsUp no_totals ds t
    → IsConsistent (show_clusters (ds, t) p)
unfolding show_clusters
show_clusters-IsConsistent ds t p h = record {
  clusters = refl;
  shards = omega arith;
  nodes = omega arith;
}

module _ {W : Type 0} (axios : Request → W → Result Value × W) (namespace : Text)
    (well : IsWellFormed axios namespace) where
  load_clusters-IsConsistent :
      (caught : Thrown → Page → Page) (p : Page) (w : W)
      → ((t : Thrown) (q : Page) → IsConsistent q → IsConsistent (caught t q))
      → IsConsistent p
      → IsConsistent (load_clusters axios namespace caught p w).0
  unfolding load_clusters
  load_clusters-IsConsistent caught p w keeps h =
      split (elements (codes "clusters.map") (fetch_clusters axios namespace w).0)
    where
      split :
          (r : Result (List Value))
          → IsConsistent
              (elim r as (λ _. Page × W) [
                | throw t ↦ (caught t p, (fetch_clusters axios namespace w).1)
                | ok cs ↦
                    let (gathered, w'') =
                      gather axios namespace cs no_totals (fetch_clusters axios namespace w).1 in
                    (show_clusters gathered p, w'')
              ]).0
      split (throw t) = keeps t p h
      split (ok cs) =
          show_clusters-IsConsistent _ _ p
            (gather-AddsUp axios namespace well cs no_totals (fetch_clusters axios namespace w).1)

  alert-IsConsistent : (m : Text) (p : Page) → IsConsistent p → IsConsistent (alert m p)
  unfolding alert
  alert-IsConsistent m p h = IsConsistent-same _ h refl refl

  -- Loading the page of a namespace keeps its counts those of the clusters that it lists, if
  -- every shard of a cluster that the controller sends is an object.
  pub fetch_data-IsConsistent :
      (p : Page) (w : W) → IsConsistent p → IsConsistent (fetch_data axios namespace p w).0
  unfolding fetch_data finish_loading
  fetch_data-IsConsistent p w h = split (includes_name namespace (fetch_namespaces axios w).0)
    where
      loaded :
          IsConsistent (load_clusters axios namespace (λ _ q. q) p (fetch_namespaces axios w).1).0
      loaded = load_clusters-IsConsistent (λ _ q. q) p (fetch_namespaces axios w).1 (λ t q k. k) h

      split :
          (r : Result Bool)
          → IsConsistent
              (elim r as (λ _. Page × W) [
                | throw t ↦ (finish_loading p, (fetch_namespaces axios w).1)
                | ok found ↦
                    if not found then (finish_loading p, (fetch_namespaces axios w).1) else (
                      finish_loading
                          (load_clusters axios namespace
                            (λ _ q. q)
                            p
                            (fetch_namespaces axios w).1).0,
                      (load_clusters axios namespace (λ _ q. q) p (fetch_namespaces axios w).1).1,
                    )
              ]).0
      split (throw t) = IsConsistent-same _ h refl refl
      split (ok false) = IsConsistent-same _ h refl refl
      split (ok true) = IsConsistent-same _ loaded refl refl

  -- Deleting a cluster, confirmed or not and refused or not, keeps the counts of the page of a
  -- namespace those of the clusters that it lists, if every shard of a cluster that the
  -- controller sends is an object.
  pub handle_delete_cluster-IsConsistent :
      (b : Bool) (c : Text) (p : Page) (w : W)
      → IsConsistent p
      → IsConsistent (handle_delete_cluster axios namespace b c p w).0
  unfolding handle_delete_cluster finish_deleting
  handle_delete_cluster-IsConsistent false c p w h = h
  handle_delete_cluster-IsConsistent true c p w h =
      let reply = delete_cluster axios namespace c w in
      let marked = IsConsistent-same (record p { deleting_cluster = some c }) h refl refl in
      let started =
        IsConsistent-same (record p { deleting_cluster = some c; loading = true }) h refl refl in
      let loaded =
        load_clusters-IsConsistent (λ t. alert (delete_failed (thrown_text t)))
          (record p { deleting_cluster = some c; loading = true }) reply.1
          (λ t. alert-IsConsistent (delete_failed (thrown_text t))) started in
      elim (Bool-cases (truthy reply.0)) [
        | inl bad ↦ rw bad (
            IsConsistent-same _ (alert-IsConsistent (delete_failed (to_text reply.0)) _ marked) refl
              refl)
        | inr good ↦ rw good (IsConsistent-same _ loaded refl refl)
      ]
