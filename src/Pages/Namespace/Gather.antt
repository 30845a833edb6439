-- ===== src/Pages/Namespace/Gather.antt =====
-- webui/src/app/namespaces/[namespace]/page.tsx: the requests that gather a namespace's clusters.
-- The source starts the clusters' requests together; here they are made one cluster after the
-- other, which is one of their orders. The counters are only added to between two requests.
use kvrocks_controller.Common.{
  List, Option, [], if◌then◌else◌, length, none, some, suc, zero, ℕ, ◌+◌, ◌∷◌,
}
use kvrocks_controller.Api.Calls.{Request, fetch_cluster, list_nodes}
use kvrocks_controller.Js.Decimal.{show_ℕ}
use kvrocks_controller.Js.Text.{Text, codes}
use kvrocks_controller.Js.Value.{
  Result, Value, arr, has_field, items, obj, ok, own_field, throw, to_text,
}
use kvrocks_controller.Pages.Effects.{count_items}
use kvrocks_controller.Pages.Namespace.{ClusterData, summarize}

pub record Totals : Type 0 where
  pub total_shards : ℕ
  pub total_nodes : ℕ

abbrev pub no_totals : Totals
no_totals = record { total_shards = 0; total_nodes = 0 }

-- `clusterInfo && typeof clusterInfo === "object" && "shards" in clusterInfo`, and its shards.
-- The controller sends an array or null for them.
unfoldable pub shards_of : Value → Option (List Value)
shards_of (obj fs) =
    if has_field (codes "shards") fs
    then some (shard_list (own_field (codes "shards") fs))
    else none
  where
    shard_list : Value → List Value
    shard_list (arr vs) = items vs
    shard_list v = []
shards_of v = none

unfoldable pub keep : Option ClusterData → List ClusterData → List ClusterData
keep none ds = ds
keep (some d) ds = d ∷ ds

module _ {W : Type 0} (axios : Request → W → Result Value × W) (namespace : Text) where
  -- The loop over the shards `i`, `i + 1`, …, of which `n` are left.
  unfoldable pub count_nodes : Text → ℕ → ℕ → ℕ → W → ℕ × W
  count_nodes cluster zero i count w = (count, w)
  count_nodes cluster (suc n) i count w =
      let (nodes, w') = list_nodes axios namespace cluster (show_ℕ i) w in
      count_nodes cluster n (suc i) (count + count_items nodes) w'

  -- The `try` block of one cluster; on an exception the cluster is left out, but what it added to
  -- the totals stays.
  unfoldable pub gather_shards :
      Text → Value → List Value → Totals → W → (Option ClusterData × Totals) × W
  gather_shards cluster info ss t w =
      let (nodes, w') = count_nodes cluster (length ss) 0 0 w in
      let t' = record t {
        total_shards = t.total_shards + length ss;
        total_nodes = t.total_nodes + nodes;
      } in
      elim (summarize info ss nodes) [ ok d ↦ ((some d, t'), w') | throw e ↦ ((none, t'), w') ]

  unfoldable pub gather_cluster : Value → Totals → W → (Option ClusterData × Totals) × W
  gather_cluster cluster t w =
      let (info, w') = fetch_cluster axios namespace (to_text cluster) w in
      elim (shards_of info) [
        | none ↦ ((none, t), w')
        | some ss ↦ gather_shards (to_text cluster) info ss t w'
      ]

  -- `Promise.all(clusters.map(…))` and the filter that drops the clusters left out
  unfoldable pub gather : List Value → Totals → W → (List ClusterData × Totals) × W
  gather [] t w = (([], t), w)
  gather (c ∷ cs) t w =
      let ((found, t'), w') = gather_cluster c t w in
      let ((ds, t''), w'') = gather cs t' w' in ((keep found ds, t''), w'')
