-- ===== src/Pages/Namespaces/Rendering.antt =====
-- webui/src/app/namespaces/page.tsx: what the page renders.
pub mod Options
pub mod Whole
use kvrocks_controller.Common.{Bool}
use kvrocks_controller.Js.Text.{Text}
use kvrocks_controller.Pages.Namespaces.{FilterOption, SortOption}

-- What the controls of the page do. `click_hidden` clicks the button `create-namespace-btn`.
pub data Action : Type 0 where
  clear_search : Action
  create_namespace_form : Action
  click_filter : Action
  close_filter : Action
  click_sort : Action
  close_sort : Action
  set_filter : FilterOption → Action
  set_sort : SortOption → Action
  delete_namespace_named : Text → Action
  click_hidden : Action

-- Which popover is open, that is, has an anchor.
pub record Opened : Type 0 where
  pub filter_open : Bool
  pub sort_open : Bool
