-- ===== src/Pages/Cluster/Handlers.antt =====
-- webui/src/app/namespaces/[namespace]/clusters/[cluster]/page.tsx: loading, deleting and the
-- toggles of the page.
use kvrocks_controller.Common.{
  Bool, List, [], any, false, filter, if◌then◌else◌, none, not, some, true, ℕ, ◌&&◌, ◌++◌, ◌==◌,
  ◌∷◌,
}
use kvrocks_controller.Api.Calls.{Request, delete_shard, list_shards}
use kvrocks_controller.Js.Decimal.{show_ℕ}
use kvrocks_controller.Js.Text.{Text, codes}
use kvrocks_controller.Js.Value.{
  Result, Value, arr, is_text, nil, ok, or_else, throw, to_text, truthy,
}
use kvrocks_controller.Pages.Cluster.{Page, fetched_shard, process, rebuilt_shard, show_shards}
use kvrocks_controller.Pages.Effects.{thrown_text}

-- The `try` block of `fetchData` and `refreshShardData`; `console.error` leaves no trace here.
unfoldable pub receive_shards : Value → Page → Page
receive_shards fetched p =
    if not (truthy fetched)
    then record p { routes = p.routes ++ codes "/404" ∷ [] }
    else elim (process fetched_shard fetched) [ ok result ↦ show_shards result p | throw t ↦ p ]

unfoldable pub finish_loading : Page → Page
finish_loading p = record p { loading = false }

unfoldable pub alert : Text → Page → Page
alert message p = record p { alerts = p.alerts ++ message ∷ [] }

abbrev pub delete_failed : Text → Text
delete_failed why = codes "Failed to delete shard: " ++ why

-- What `handleDeleteShard` makes of the shards that are left.
unfoldable pub rebuild_shards : Value → Page → Page
rebuild_shards fetched p = elim (process rebuilt_shard (or_else fetched (arr nil))) [
  | ok result ↦ show_shards result p
  | throw t ↦ alert (delete_failed (thrown_text t)) p
]

unfoldable pub finish_deleting : Page → Page
finish_deleting p = record p { deleting_shard_index = none }

module _ {W : Type 0} (axios : Request → W → Result Value × W) (namespace cluster : Text) where
  -- the effect that loads the page
  unfoldable pub fetch_data : Page → W → Page × W
  fetch_data p w =
      let (fetched, w') = list_shards axios namespace cluster w in
      (finish_loading (receive_shards fetched p), w')

  unfoldable pub refresh_shard_data : Page → W → Page × W
  refresh_shard_data p w =
      let (fetched, w') = list_shards axios namespace cluster w in
      (finish_loading (receive_shards fetched (record p { loading = true })), w')

  -- `confirmed` is the user's answer to `confirm`.
  unfoldable pub handle_delete_shard : Bool → ℕ → Page → W → Page × W
  handle_delete_shard false index p w = (p, w)
  handle_delete_shard true index p w =
      let deleting = record p { deleting_shard_index = some index } in
      let (message, w') = delete_shard axios namespace cluster (show_ℕ index) w in
      let (fetched, w'') = list_shards axios namespace cluster w' in
      if truthy message && not (is_text [] message)
      then (finish_deleting (alert (delete_failed (to_text message)) deleting), w')
      else (finish_deleting (rebuild_shards fetched deleting), w'')

-- A `Set` of indices: `has`, `delete` and `add`.
unfoldable pub has : ℕ → List ℕ → Bool
has i s = any (λ j. j == i) s

unfoldable pub remove : ℕ → List ℕ → List ℕ
remove i s = filter (λ j. not (j == i)) s

unfoldable pub toggle_slot_expansion : ℕ → Page → Page
toggle_slot_expansion i p = record p {
  expanded_slots =
      if has i p.expanded_slots then remove i p.expanded_slots else p.expanded_slots ++ i ∷ [];
}
