-- ===== src/Pages/Namespace/Handlers.antt =====
-- webui/src/app/namespaces/[namespace]/page.tsx: loading the page and deleting a cluster.
use kvrocks_controller.Common.{
  Bool, List, [], any, false, if◌then◌else◌, length, none, not, some, true, ◌++◌, ◌∷◌,
}
use kvrocks_controller.Api.Calls.{Request, delete_cluster, fetch_clusters, fetch_namespaces}
use kvrocks_controller.Js.Text.{Text, codes}
use kvrocks_controller.Js.Value.{Result, Thrown, Value, is_text, ok, throw, to_text, truthy, ◌>>=◌}
use kvrocks_controller.Pages.Effects.{elements, thrown_text}
use kvrocks_controller.Pages.Namespace.{ClusterData, Page}
use kvrocks_controller.Pages.Namespace.Gather.{Totals, gather, no_totals}

unfoldable pub show_clusters : List ClusterData × Totals → Page → Page
show_clusters (ds, t) p = record p {
  cluster_data = ds;
  resource_counts = record { clusters = length ds; shards = t.total_shards; nodes = t.total_nodes };
}

abbrev pub delete_failed : Text → Text
delete_failed why = codes "Failed to delete cluster: " ++ why

unfoldable pub alert : Text → Page → Page
alert message p = record p { alerts = p.alerts ++ message ∷ [] }

unfoldable pub finish_loading : Page → Page
finish_loading p = record p { loading = false }

unfoldable pub finish_deleting : Page → Page
finish_deleting p = record p { deleting_cluster = none; loading = false }

-- `fetchedNamespaces.includes(name)`
unfoldable pub includes_name : Text → Value → Result Bool
includes_name name v = do
  vs ← elements (codes "fetchedNamespaces.includes") v
  ok (any (is_text name) vs)

module _ {W : Type 0} (axios : Request → W → Result Value × W) (namespace : Text) where
  -- `fetchClusters` and what is gathered of its answer; an exception leaves the page as it is.
  unfoldable pub load_clusters : (Thrown → Page → Page) → Page → W → Page × W
  load_clusters caught p w =
      let (clusters, w') = fetch_clusters axios namespace w in
      elim (elements (codes "clusters.map") clusters) [
        | throw t ↦ (caught t p, w')
        | ok cs ↦
            let (gathered, w'') = gather axios namespace cs no_totals w' in
            (show_clusters gathered p, w'')
      ]

  -- The effect that loads the page. `notFound` of next throws, and the `catch` of the block that
  -- calls it takes the exception, so that a namespace that is not there leaves the page as it is.
  unfoldable pub fetch_data : Page → W → Page × W
  fetch_data p w =
      let (namespaces, w') = fetch_namespaces axios w in
      let (loaded, w'') = load_clusters (λ _ q. q) p w' in
      elim (includes_name namespace namespaces) [
        | throw t ↦ (finish_loading p, w')
        | ok found ↦ if not found then (finish_loading p, w') else (finish_loading loaded, w'')
      ]

  -- `confirmed` is the user's answer to `confirm`.
  unfoldable pub handle_delete_cluster : Bool → Text → Page → W → Page × W
  handle_delete_cluster false cluster p w = (p, w)
  handle_delete_cluster true cluster p w =
      let deleting = record p { deleting_cluster = some cluster } in
      let (res, w') = delete_cluster axios namespace cluster w in
      let (loaded, w'') =
        load_clusters (λ t. alert (delete_failed (thrown_text t)))
          (record deleting { loading = true }) w' in
      if truthy res
      then (finish_deleting (alert (delete_failed (to_text res)) deleting), w')
      else (finish_deleting loaded, w'')
