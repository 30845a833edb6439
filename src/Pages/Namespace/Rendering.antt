-- ===== src/Pages/Namespace/Rendering.antt =====
-- webui/src/app/namespaces/[namespace]/page.tsx: what the page renders.
pub mod Options
pub mod Rows
pub mod Whole
pub mod Laws
mod Tests
use kvrocks_controller.Common.{Bool}
use kvrocks_controller.Js.Text.{Text}
use kvrocks_controller.Pages.Namespace.View.{FilterOption, SortOption}

-- What the controls of the page do; `no_action` is the handler `() => {}`.
pub data Action : Type 0 where
  clear_search : Action
  create_cluster_form : Action
  import_cluster_form : Action
  click_filter : Action
  close_filter : Action
  click_sort : Action
  close_sort : Action
  set_filter : FilterOption → Action
  set_sort : SortOption → Action
  delete_cluster_named : Text → Action
  no_action : Action

-- Which popover is open, that is, has an anchor.
pub record Opened : Type 0 where
  pub filter_open : Bool
  pub sort_open : Bool
