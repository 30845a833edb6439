-- ===== src/Pages/Cluster/Rendering.antt =====
-- webui/src/app/namespaces/[namespace]/clusters/[cluster]/page.tsx: what the page renders.
pub mod Header
pub mod Options
pub mod Rows
pub mod Whole
pub mod Laws
mod Tests
use kvrocks_controller.Common.{Bool, ℕ}
use kvrocks_controller.Pages.Cluster.{FilterOption, SortOption}

-- What the controls of the page do; `no_action` is the handler `() => {}`.
pub data Action : Type 0 where
  clear_search : Action
  create_shard : Action
  open_migration : Action
  click_filter : Action
  close_filter : Action
  click_sort : Action
  close_sort : Action
  set_filter : FilterOption → Action
  set_sort : SortOption → Action
  toggle_slots : ℕ → Action
  delete_shard_at : ℕ → Action
  no_action : Action

-- Which popover is open, that is, has an anchor, and whether the migration dialog is.
pub record Opened : Type 0 where
  pub filter_open : Bool
  pub sort_open : Bool
  pub migration_open : Bool
