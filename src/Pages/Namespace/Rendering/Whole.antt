-- ===== src/Pages/Namespace/Rendering/Whole.antt =====
-- webui/src/app/namespaces/[namespace]/page.tsx: the whole page.
use kvrocks_controller.Common.{Bool, List, [], false, filter, if◌then◌else◌, length, not, ◌++◌, ◌∷◌}
use kvrocks_controller.Js.Decimal.{show_ℕ}
use kvrocks_controller.Js.Number.{Num}
use kvrocks_controller.Js.Text.{Text, codes, is_empty, same}
use kvrocks_controller.Pages.Namespace.{ClusterData, Page}
use kvrocks_controller.Pages.Namespace.Rendering.{
  Action, Opened, clear_search, create_cluster_form, import_cluster_form, no_action,
}
use kvrocks_controller.Pages.Namespace.Rendering.Options.{filter_value, options_view}
use kvrocks_controller.Pages.Namespace.Rendering.Rows.{cluster_rows}
use kvrocks_controller.Pages.Namespace.View.{Choice, filtered_and_sorted_clusters}
use kvrocks_controller.Ui.{Shown, button, icon, text, text_field}
use kvrocks_controller.Ui.Parts.{counter_view, empty_state, show_if}

unfoldable pub header_view : Text → Choice → List (Shown Action)
header_view namespace p =
    (icon (codes "FolderIcon")
      ∷ text namespace
      ∷ text (codes "Manage clusters in this namespace")
      ∷ icon (codes "SearchIcon")
      ∷ text_field (codes "Search clusters...") p.search_term false
      ∷ [])
    ++ show_if (not (is_empty p.search_term)) (button (codes "✕") false clear_search ∷ [])
    ++ (button (codes "Create Cluster") false create_cluster_form
        ∷ button (codes "Import Cluster") false import_cluster_form
        ∷ [])

unfoldable pub counters_view : Page → List (Shown Action)
counters_view p =
    counter_view (codes "StorageIcon") p.resource_counts.clusters (codes "Clusters")
    ++ counter_view (codes "DnsIcon") p.resource_counts.shards (codes "Shards")
    ++ counter_view (codes "DeviceHubIcon") p.resource_counts.nodes (codes "Nodes")
    ++ counter_view (codes "GridViewIcon") (length (filter (λ d. d.has_slots) p.cluster_data))
        (codes "With Slots")

-- `filterOption !== "all"`
unfoldable pub is_filtered : Choice → Bool
is_filtered p = not (same (filter_value p.filter_option) (codes "all"))

-- The `ClusterCreation` beside it is hidden.
unfoldable pub empty_view : Choice → List (Shown Action)
empty_view p =
    empty_state (codes "StorageIcon")
      (if is_filtered p then codes "No matching clusters" else codes "No clusters found")
      (if is_filtered p
        then codes "Try changing your filter settings"
        else if not (is_empty p.search_term)
        then codes "Try adjusting your search term"
        else codes "Create a cluster to get started")
      (codes "Create Cluster") no_action

unfoldable pub list_view : Text → Page → Choice → List ClusterData → List (Shown Action)
list_view namespace p c [] = empty_view c
list_view namespace p c (d ∷ ds) =
    cluster_rows namespace p (d ∷ ds)
    ++ (text (
          codes "Showing "
          ++ show_ℕ (length (d ∷ ds))
          ++ codes " of "
          ++ show_ℕ (length p.cluster_data)
          ++ codes " clusters")
        ∷ [])

-- The sidebar is a component of its own.
module _ (lower : Text → Text) (locale_compare : Text → Text → Num) where
  unfoldable pub page_view : Text → Opened → Choice → Page → List (Shown Action)
  page_view namespace o c p =
      if p.loading
      then icon (codes "LoadingSpinner") ∷ []
      else (icon (codes "NamespaceSidebar") ∷ [])
        ++ header_view namespace c
        ++ counters_view p
        ++ options_view o c p.cluster_data
        ++ list_view namespace p c
            (filtered_and_sorted_clusters lower locale_compare c p.cluster_data)
