-- ===== src/Pages/Cluster/Rendering/Whole.antt =====
-- webui/src/app/namespaces/[namespace]/clusters/[cluster]/page.tsx: the whole page.
use kvrocks_controller.Common.{Bool, List, [], if◌then◌else◌, length, not, ◌++◌, ◌∷◌}
use kvrocks_controller.Js.Decimal.{show_ℕ}
use kvrocks_controller.Js.Text.{Text, codes, is_empty, same}
use kvrocks_controller.Pages.Cluster.{Page, ShardData}
use kvrocks_controller.Pages.Cluster.Rendering.{Action, Opened, no_action}
use kvrocks_controller.Pages.Cluster.Rendering.Header.{counters_view, header_view}
use kvrocks_controller.Pages.Cluster.Rendering.Options.{filter_value, options_view}
use kvrocks_controller.Pages.Cluster.Rendering.Rows.{shard_rows}
use kvrocks_controller.Pages.Cluster.View.{filtered_and_sorted_shards}
use kvrocks_controller.Ui.{Shown, icon, text}
use kvrocks_controller.Ui.Parts.{empty_state, show_if}

-- `filterOption !== "all"`
unfoldable pub is_filtered : Page → Bool
is_filtered p = not (same (filter_value p.filter_option) (codes "all"))

unfoldable pub empty_title : Page → Text
empty_title p = if is_filtered p then codes "No matching shards" else codes "No shards found"

unfoldable pub empty_description : Page → Text
empty_description p =
    if is_filtered p
    then codes "Try changing your filter settings"
    else if not (is_empty p.search_term)
    then codes "Try adjusting your search term"
    else codes "Create a shard to get started"

-- The `ShardCreation` beside it is hidden.
unfoldable pub empty_view : Page → List (Shown Action)
empty_view p =
    empty_state (codes "DnsIcon") (empty_title p) (empty_description p) (codes "Create Shard")
      no_action

unfoldable pub list_view : Text → Text → Page → List ShardData → List (Shown Action)
list_view namespace cluster p [] = empty_view p
list_view namespace cluster p (d ∷ ds) =
    shard_rows namespace cluster p (d ∷ ds)
    ++ (text (
          codes "Showing "
          ++ show_ℕ (length (d ∷ ds))
          ++ codes " of "
          ++ show_ℕ (length p.shards_data)
          ++ codes " shards")
        ∷ [])

-- The sidebar and the migration dialog are components of their own.
module _ (lower : Text → Text) where
  unfoldable pub page_view : Text → Text → Opened → Page → List (Shown Action)
  page_view namespace cluster o p =
      if p.loading
      then icon (codes "LoadingSpinner") ∷ []
      else (icon (codes "ClusterSidebar") ∷ [])
        ++ header_view cluster p
        ++ counters_view p.resource_counts
        ++ options_view o p
        ++ list_view namespace cluster p (filtered_and_sorted_shards lower p)
        ++ show_if o.migration_open (icon (codes "MigrationDialog") ∷ [])
