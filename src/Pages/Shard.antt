-- ===== src/Pages/Shard.antt =====
-- webui/src/app/namespaces/[namespace]/clusters/[cluster]/shards/[shard]/page.tsx: the page of one
-- shard, and the nodes that it lists. A node of the controller is an object. `toLowerCase` is the
-- parameter `lower`.
pub mod Laws
pub mod Deleting
mod Tests
use kvrocks_controller.Common.{
  Bool, List, [], false, if◌then◌else◌, not, suc, true, ℕ, ◌++◌, ◌+◌, ◌∷◌, Option, none, some,
}
use kvrocks_controller.Api.Calls.{Request, delete_node, fetch_shard}
use kvrocks_controller.Forms.Migrate.{listed}
use kvrocks_controller.Js.Decimal.{show_ℕ}
use kvrocks_controller.Js.Number.{Num, num_sub}
use kvrocks_controller.Js.Sort.{sort}
use kvrocks_controller.Js.Text.{Text, codes, includes}
use kvrocks_controller.Js.Value.{
  Result, Value, arr, coerce, to_text, get, get_opt, is_nullish, is_text, nil, ok, or_else, truthy,
  ◌>>=◌,
}
use kvrocks_controller.Pages.Effects.{elements}
use kvrocks_controller.Sidebar.{node_link}

pub data FilterOption : Type 0 where
  any_node masters replicas : FilterOption

pub data SortOption : Type 0 where
  index_asc index_desc uptime_desc uptime_asc : SortOption

pub record Page : Type 0 where
  pub nodes_data : Value
  pub loading : Bool
  pub search_term : Text
  pub filter_option : FilterOption
  pub sort_option : SortOption
  pub failover_dialog_open : Bool
  pub deleting_node_index : Option ℕ
  pub routes : List Text
  pub alerts : List Text

-- The `finally` of the delete button.
unfoldable pub finish_deleting : Page → Page
finish_deleting p = record p { deleting_node_index = none; loading = false }

abbrev pub delete_failed : Text → Text
delete_failed why = codes "Failed to delete node: " ++ why

module _ {W : Type 0} (axios : Request → W → Result Value × W)
    (namespace cluster shard : Text) where
  unfoldable pub fetch_data : Page → W → Page × W
  fetch_data p w =
      let (fetched, w') = fetch_shard axios namespace cluster shard w in
      let found = record p { nodes_data = fetched; loading = false } in
      let missing = record p { routes = p.routes ++ codes "/404" ∷ []; loading = false } in
      (if truthy fetched then found else missing, w')

  unfoldable pub refresh_shard_data : Page → W → Page × W
  refresh_shard_data p w =
      let (fetched, w') = fetch_shard axios namespace cluster shard w in
      (record p { nodes_data = fetched; loading = false }, w')

  -- The `onClick` of the delete button of `node` in the row `index`. `confirmed` is the user's
  -- answer to `confirm`.
  unfoldable pub handle_delete_node : Bool → ℕ → Value → Page → W → Page × W
  handle_delete_node false index node p w = (p, w)
  handle_delete_node true index node p w =
      let deleting = record p { deleting_node_index = some index } in
      let id = to_text (get_opt (codes "id") node) in
      let (message, w') = delete_node axios namespace cluster shard id w in
      let refused = record deleting { alerts = p.alerts ++ delete_failed (to_text message) ∷ [] } in
      let (fetched, w'') = fetch_shard axios namespace cluster shard w' in
      if truthy message
      then (finish_deleting refused, w')
      else (finish_deleting (record deleting { loading = true; nodes_data = fetched }), w'')

-- `node.role === role`
unfoldable pub has_role : Text → Value → Result Bool
has_role role node = do v ← get (codes "role") node; ok (is_text role v)

unfoldable pub any_slave : List Value → Result Bool
any_slave [] = ok false
any_slave (v ∷ vs) = do
  slave ← has_role (codes "slave") v
  let rest = any_slave vs
  if slave then ok true else rest

-- `nodesData?.nodes?.some(…) || false`
unfoldable pub has_replica_nodes : Value → Result Bool
has_replica_nodes data_of_shard =
    let nodes = get_opt (codes "nodes") data_of_shard in
    let searched = (do vs ← elements (codes "nodes.some") nodes; any_slave vs) in
    if is_nullish nodes then ok false else searched

unfoldable pub passes_filter : FilterOption → Value → Result Bool
passes_filter any_node v = ok true
passes_filter masters v = has_role (codes "master") v
passes_filter replicas v = do master ← has_role (codes "master") v; ok (not master)

unfoldable pub compare_nodes : SortOption → Value → Value → Num
compare_nodes index_asc a b =
    num_sub (coerce (get_opt (codes "index") a)) (coerce (get_opt (codes "index") b))
compare_nodes index_desc a b =
    num_sub (coerce (get_opt (codes "index") b)) (coerce (get_opt (codes "index") a))
compare_nodes uptime_desc a b =
    num_sub (coerce (get_opt (codes "created_at") b)) (coerce (get_opt (codes "created_at") a))
compare_nodes uptime_asc a b =
    num_sub (coerce (get_opt (codes "created_at") a)) (coerce (get_opt (codes "created_at") b))

module _ (lower : Text → Text) where
  unfoldable pub is_listed : Text → FilterOption → ℕ → Value → Result Bool
  is_listed term option i v =
      let filtered = passes_filter option v in
      if not (includes (lower (codes "node " ++ show_ℕ (i + 1))) (lower term))
      then ok false
      else filtered

  -- `filter` with the index of each element, from `i` on.
  unfoldable pub filter_nodes : Text → FilterOption → ℕ → List Value → Result (List Value)
  filter_nodes term option i [] = ok []
  filter_nodes term option i (v ∷ vs) = do
    b ← is_listed term option i v
    rest ← filter_nodes term option (suc i) vs
    ok (if b then v ∷ rest else rest)

  unfoldable pub filtered_and_sorted_nodes : Page → Result (List Value)
  filtered_and_sorted_nodes p = do
    vs ← elements (codes "filter") (or_else (get_opt (codes "nodes") p.nodes_data) (arr nil))
    listed ← filter_nodes p.search_term p.filter_option 0 vs
    ok (sort (compare_nodes p.sort_option) listed)

-- The links of the rows, numbered by their place on the page, from `i` on.
unfoldable pub row_links : Text → Text → Text → ℕ → List Value → List (Value × Text)
row_links namespace cluster shard i [] = []
row_links namespace cluster shard i (v ∷ vs) =
    (v, node_link namespace cluster shard (show_ℕ i)) ∷ row_links namespace cluster shard (suc i) vs
