-- ===== src/Pages/Cluster/Invariant.antt =====
-- webui/src/app/namespaces/[namespace]/clusters/[cluster]/page.tsx: the page through sequences of
-- what the user does.
use kvrocks_controller.Common.{Bool, List, [], ℕ, ◌∷◌}
use kvrocks_controller.Api.Calls.{Request}
use kvrocks_controller.Js.Text.{Text}
use kvrocks_controller.Js.Value.{Result, Value}
use kvrocks_controller.Pages.Cluster.{FilterOption, Page, SortOption}
use kvrocks_controller.Pages.Cluster.Handlers.{
  fetch_data, handle_delete_shard, refresh_shard_data, toggle_slot_expansion,
}

-- What can happen to the page; the lists and messages come from the controller.
pub data Event : Type 0 where
  load refresh : Event
  delete_button : (confirmed : Bool) → (index : ℕ) → Event
  toggle : ℕ → Event
  search_for : Text → Event
  choose_filter : FilterOption → Event
  choose_sort : SortOption → Event

module _ {W : Type 0} (axios : Request → W → Result Value × W) (namespace cluster : Text) where
  unfoldable pub handle : Event → Page → W → Page × W
  handle load p w = fetch_data axios namespace cluster p w
  handle refresh p w = refresh_shard_data axios namespace cluster p w
  handle (delete_button confirmed i) p w =
      handle_delete_shard axios namespace cluster confirmed i p w
  handle (toggle i) p w = (toggle_slot_expansion i p, w)
  handle (search_for t) p w = (record p { search_term = t }, w)
  handle (choose_filter o) p w = (record p { filter_option = o }, w)
  handle (choose_sort o) p w = (record p { sort_option = o }, w)

  unfoldable pub run : List Event → Page → W → Page × W
  run [] p w = (p, w)
  run (e ∷ es) p w = let (p', w') = handle e p w in run es p' w'
