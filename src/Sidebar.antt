-- ===== src/Sidebar.antt =====
-- webui/src/app/ui/sidebar.tsx: the four sidebars, which list namespaces, clusters, shards and
-- nodes. Their states differ in the entries only.
pub mod Item
pub mod Width
mod Tests
use kvrocks_controller.Common.{
  Bool, List, Option, [], false, if◌then◌else◌, ltb, none, not, some, suc, true, ℕ, ◌++◌, ◌+◌, ◌∷◌,
}
use kvrocks_controller.Api.Calls.{
  Request, fetch_clusters, fetch_namespaces, list_nodes, list_shards, slash,
}
use kvrocks_controller.Js.Decimal.{show_ℕ}
use kvrocks_controller.Js.Text.{Text, codes}
use kvrocks_controller.Js.Value.{Result, Value, ok, throw}
use kvrocks_controller.Pages.Effects.{elements}

pub record Sidebar {ℓ} (A : Type ℓ) : Type ℓ where
  pub entries : A
  pub failure : Option Text
  pub is_open : Bool
  pub sidebar_width : ℕ
  pub is_mobile : Bool

abbrev pub new_sidebar {ℓ} : {A : Type ℓ} → A → Sidebar A
new_sidebar entries = record {
  entries = entries;
  failure = none;
  is_open = true;
  sidebar_width = 260;
  is_mobile = false;
}

module _ {ℓ} {A : Type ℓ} where
  -- `window.innerWidth` is the argument.
  unfoldable pub check_mobile : ℕ → Sidebar A → Sidebar A
  check_mobile inner_width s = record s { is_mobile = ltb inner_width 768 }

  unfoldable pub toggle_sidebar : Sidebar A → Sidebar A
  toggle_sidebar s = record s {
    sidebar_width = if s.is_mobile then (if s.is_open then 0 else 260) else s.sidebar_width;
    is_open = not s.is_open;
  }

abbrev pub numbered_label : Text → ℕ → Text
numbered_label what i = what ++ 9 ∷ show_ℕ (i + 1)

-- `"Shard\t" + (index + 1).toString()`
abbrev pub shard_label : ℕ → Text
shard_label i = numbered_label (codes "Shard") i

-- `` `Node\t${index + 1}` ``
abbrev pub node_label : ℕ → Text
node_label i = numbered_label (codes "Node") i

-- `map` over the entries with their index, from `i` on.
unfoldable pub labels : (ℕ → Text) → ℕ → List Value → List Text
labels label i [] = []
labels label i (v ∷ vs) = label i ∷ labels label (suc i) vs

unfoldable pub set_shards : Result (List Value) → Sidebar (List Text) → Sidebar (List Text)
set_shards (ok vs) s = record s { entries = labels shard_label 0 vs }
set_shards (throw t) s = record s { failure = some (codes "Failed to fetch shards") }

module _ {W : Type 0} (axios : Request → W → Result Value × W) where
  -- The calls of the API client return their failures, so that the `catch` of these three effects
  -- is never entered.
  unfoldable pub fetch_namespace_entries : Sidebar Value → W → Sidebar Value × W
  fetch_namespace_entries s w =
      let (fetched, w') = fetch_namespaces axios w in (record s { entries = fetched }, w')

  unfoldable pub fetch_cluster_entries : Text → Sidebar Value → W → Sidebar Value × W
  fetch_cluster_entries ns s w =
      let (fetched, w') = fetch_clusters axios ns w in (record s { entries = fetched }, w')

  unfoldable pub fetch_node_entries : Text → Text → Text → Sidebar Value → W → Sidebar Value × W
  fetch_node_entries ns cluster shard s w =
      let (fetched, w') = list_nodes axios ns cluster shard w in
      (record s { entries = fetched }, w')

  unfoldable pub fetch_shard_entries :
      Text → Text → Sidebar (List Text) → W → Sidebar (List Text) × W
  fetch_shard_entries ns cluster s w =
      let (fetched, w') = list_shards axios ns cluster w in
      (set_shards (elements (codes "fetchedShards.map") fetched) s, w')

-- The paths that the entries link to: `/namespaces/${namespace}/clusters/${cluster}/…`
unfoldable pub namespace_link : Text → Text
namespace_link ns = slash (codes "/namespaces") ns

unfoldable pub cluster_link : Text → Text → Text
cluster_link ns cluster = slash (slash (namespace_link ns) (codes "clusters")) cluster

unfoldable pub shard_link : Text → Text → Text → Text
shard_link ns cluster shard = slash (slash (cluster_link ns cluster) (codes "shards")) shard

unfoldable pub node_link : Text → Text → Text → Text → Text
node_link ns cluster shard node = slash (slash (shard_link ns cluster shard) (codes "nodes")) node
