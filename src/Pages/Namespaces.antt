-- ===== src/Pages/Namespaces.antt =====
-- webui/src/app/namespaces/page.tsx: the page of all namespaces, loaded and changed.
-- The requests are made in the order of the source's loops.
pub mod Rows
pub mod Totals
pub mod Deleting
pub mod View
pub mod Rendering
mod Tests
use kvrocks_controller.Common.{
  Bool, List, Option, [], false, filter, map, none, not, some, suc, true, zero, ℕ, ◌+◌, ◌∷◌,
}
use kvrocks_controller.Api.Calls.{
  Request, delete_namespace, deleting, fetch_clusters, fetch_namespaces, list_nodes, list_shards,
}
use kvrocks_controller.Common.Int.{pos, ℤ, ◌-ℤ◌}
use kvrocks_controller.Js.Decimal.{show_ℕ}
use kvrocks_controller.Js.Text.{Text, code_points, codes, same}
use kvrocks_controller.Js.Value.{Result, Value, arr, error, items, ok, str, throw, to_text}
use kvrocks_controller.Pages.Effects.{count_items, length_of}

pub record ResourceCounts : Type 0 where
  -- reduced by one for each namespace that is deleted, so that it may pass zero
  pub namespaces : ℤ
  pub clusters : ℕ
  pub shards : ℕ
  pub nodes : ℕ

pub record NamespaceData : Type 0 where
  pub name : Text
  pub cluster_count : ℕ
  pub shard_count : ℕ
  pub node_count : ℕ

pub data FilterOption : Type 0 where
  any_namespace with_clusters no_clusters : FilterOption

pub data SortOption : Type 0 where
  name_asc name_desc clusters_desc clusters_asc nodes_desc nodes_asc : SortOption

pub record Page : Type 0 where
  pub namespaces_data : List NamespaceData
  pub resource_counts : ResourceCounts
  pub loading : Bool
  pub deleting_namespace : Option Text
  pub search_term : Text
  pub filter_option : FilterOption
  pub sort_option : SortOption

-- The `let` variables of the loops: those of one namespace, and the totals.
pub record Counters : Type 0 where
  pub namespace_shards : ℕ
  pub namespace_nodes : ℕ
  pub total_clusters : ℕ
  pub total_shards : ℕ
  pub total_nodes : ℕ

abbrev pub no_counters : Counters
no_counters = record {
  namespace_shards = 0;
  namespace_nodes = 0;
  total_clusters = 0;
  total_shards = 0;
  total_nodes = 0;
}

unfoldable pub enter_namespace : ℕ → Counters → Counters
enter_namespace clusters c = record c {
  namespace_shards = 0;
  namespace_nodes = 0;
  total_clusters = c.total_clusters + clusters;
}

unfoldable pub add_shards : ℕ → Counters → Counters
add_shards n c = record c {
  namespace_shards = c.namespace_shards + n;
  total_shards = c.total_shards + n;
}

unfoldable pub add_nodes : ℕ → Counters → Counters
add_nodes n c = record c {
  namespace_nodes = c.namespace_nodes + n;
  total_nodes = c.total_nodes + n;
}

unfoldable pub new_row : Text → ℕ → Counters → NamespaceData
new_row name clusters c = record {
  name = name;
  cluster_count = clusters;
  shard_count = c.namespace_shards;
  node_count = c.namespace_nodes;
}

-- What `for (… of v)` walks over: an array, or a text's code points. Any other value throws.
unfoldable pub iterate : Value → Result (List Value)
iterate (arr vs) = ok (items vs)
iterate (str s) = ok (map str (code_points s))
iterate v = throw (error (codes "value is not iterable"))

unfoldable pub push_row :
    NamespaceData → Result (List NamespaceData × Counters) → Result (List NamespaceData × Counters)
push_row d (ok (ds, c)) = ok (d ∷ ds, c)
push_row d (throw t) = throw t

unfoldable pub show_namespaces : Value → List NamespaceData × Counters → Page → Page
show_namespaces fetched (ds, c) p = record p {
  namespaces_data = ds;
  resource_counts = record {
    namespaces = pos (length_of fetched);
    clusters = c.total_clusters;
    shards = c.total_shards;
    nodes = c.total_nodes;
  };
}

-- An exception leaves the data as it is; `loading` ends either way.
unfoldable pub finish_loading : Value → Result (List NamespaceData × Counters) → Page → Page
finish_loading fetched (ok found) p = record (show_namespaces fetched found p) { loading = false }
finish_loading fetched (throw t) p = record p { loading = false }

unfoldable pub drop_row : Text → Page → Page
drop_row name p = record p {
  namespaces_data = filter (λ d. not (same d.name name)) p.namespaces_data;
  resource_counts = record p.resource_counts { namespaces = p.resource_counts.namespaces -ℤ pos 1 };
}

module _ {W : Type 0} (axios : Request → W → Result Value × W) where
  -- The loop over the shards `i`, `i + 1`, …, of which `n` are left.
  unfoldable pub count_nodes : Text → Text → ℕ → ℕ → Counters → W → Counters × W
  count_nodes ns cluster zero i c w = (c, w)
  count_nodes ns cluster (suc n) i c w =
      let (nodes, w') = list_nodes axios ns cluster (show_ℕ i) w in
      count_nodes ns cluster n (suc i) (add_nodes (count_items nodes) c) w'

  unfoldable pub count_clusters : Text → List Value → Counters → W → Counters × W
  count_clusters ns [] c w = (c, w)
  count_clusters ns (cluster ∷ clusters) c w =
      let (shards, w') = list_shards axios ns (to_text cluster) w in
      let n = count_items shards in
      let (c', w'') = count_nodes ns (to_text cluster) n 0 (add_shards n c) w' in
      count_clusters ns clusters c' w''

  unfoldable pub gather_namespaces :
      List Value → Counters → W → Result (List NamespaceData × Counters) × W
  gather_namespaces [] c w = (ok ([], c), w)
  gather_namespaces (ns ∷ nss) c w =
      let (clusters, w') = fetch_clusters axios (to_text ns) w in
      elim (iterate clusters) [
        | throw t ↦ (throw t, w')
        | ok cs ↦
            let (c', w'') =
              count_clusters (to_text ns) cs (enter_namespace (length_of clusters) c) w' in
            let (found, w''') = gather_namespaces nss c' w'' in
            (push_row (new_row (to_text ns) (length_of clusters) c') found, w''')
      ]

  unfoldable pub gather : Value → W → Result (List NamespaceData × Counters) × W
  gather v w = elim (iterate v) [
    | throw t ↦ (throw t, w)
    | ok nss ↦ gather_namespaces nss no_counters w
  ]

  unfoldable pub fetch_data : Page → W → Page × W
  fetch_data p w =
      let (fetched, w') = fetch_namespaces axios w in
      let (found, w'') = gather fetched w' in (finish_loading fetched found p, w'')

  -- `confirmed` is the user's answer to `confirm`. `deleteNamespace` returns its failures as a
  -- message, which is not looked at, and so the `catch` of the source is never entered.
  unfoldable pub handle_delete_namespace : Bool → Text → Page → W → Page × W
  handle_delete_namespace false name p w = (p, w)
  handle_delete_namespace true name p w =
      let deleting = record p { deleting_namespace = some name } in
      let (res, w') = delete_namespace axios name w in
      (record (drop_row name deleting) { deleting_namespace = none }, w')
