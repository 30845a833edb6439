-- ===== src/Pages/Namespaces/Rendering/Whole.antt =====
-- webui/src/app/namespaces/page.tsx: the rows and the whole page.
use kvrocks_controller.Common.{
  Bool, List, [], false, if◌then◌else◌, length, none, not, some, ◌++◌, ◌∷◌,
}
use kvrocks_controller.Js.Decimal.{show_ℕ, show_ℤ}
use kvrocks_controller.Js.Number.{Num}
use kvrocks_controller.Js.Text.{Text, codes, is_empty, same}
use kvrocks_controller.Pages.Namespaces.{NamespaceData, Page, ResourceCounts}
use kvrocks_controller.Pages.Namespaces.Rendering.{
  Action, Opened, clear_search, click_hidden, create_namespace_form, delete_namespace_named,
}
use kvrocks_controller.Pages.Namespaces.Rendering.Options.{filter_value, options_view}
use kvrocks_controller.Pages.Namespaces.View.{filtered_and_sorted_namespaces}
use kvrocks_controller.Sidebar.{namespace_link}
use kvrocks_controller.Ui.{Shown, button, chip, icon, link, text, text_field}
use kvrocks_controller.Ui.Parts.{counter_view, empty_state, show_if, shown_ℕ}

-- `NamespaceCreation` passes no children on, so that the button is the one of its dialog.
unfoldable pub header_view : Page → List (Shown Action)
header_view p =
    (text (codes "Namespaces")
      ∷ text (codes "Manage your Kvrocks database namespaces")
      ∷ icon (codes "SearchIcon")
      ∷ text_field (codes "Search namespaces...") p.search_term false
      ∷ [])
    ++ show_if (not (is_empty p.search_term)) (button (codes "✕") false clear_search ∷ [])
    ++ (button (codes "Create Namespace") false create_namespace_form ∷ [])

-- The number of namespaces may pass zero.
unfoldable pub counters_view : ResourceCounts → List (Shown Action)
counters_view c =
    (icon (codes "FolderIcon") ∷ text (show_ℤ c.namespaces) ∷ text (codes "Namespaces") ∷ [])
    ++ counter_view (codes "StorageIcon") c.clusters (codes "Clusters")
    ++ counter_view (codes "DnsIcon") c.shards (codes "Shards")
    ++ counter_view (codes "DeviceHubIcon") c.nodes (codes "Nodes")

unfoldable pub title_row : NamespaceData → List (Shown Action)
title_row d =
    icon (codes "FolderIcon")
    ∷ link (namespace_link d.name)
    ∷ text d.name
    ∷ icon (codes "AccessTimeIcon")
    ∷ text (codes "Created recently")
    ∷ icon (codes "StorageIcon")
    ∷ chip (show_ℕ d.cluster_count ++ codes " clusters")
    ∷ icon (codes "DnsIcon")
    ∷ chip (show_ℕ d.shard_count ++ codes " shards")
    ∷ icon (codes "DeviceHubIcon")
    ∷ chip (show_ℕ d.node_count ++ codes " nodes")
    ∷ []

unfoldable pub numbers_row : NamespaceData → List (Shown Action)
numbers_row d =
    text (codes "Clusters")
    ∷ shown_ℕ d.cluster_count
    ∷ text (codes "Shards")
    ∷ shown_ℕ d.shard_count
    ∷ text (codes "Nodes")
    ∷ shown_ℕ d.node_count
    ∷ []

-- `deletingNamespace === nsData.name`
unfoldable pub is_deleting : Page → NamespaceData → Bool
is_deleting p d = elim p.deleting_namespace [ none ↦ false | some name ↦ same name d.name ]

unfoldable pub controls_row : Page → NamespaceData → List (Shown Action)
controls_row p d =
    button (codes "DeleteIcon") (is_deleting p d) (delete_namespace_named d.name)
    ∷ link (namespace_link d.name)
    ∷ icon (codes "ChevronRightIcon")
    ∷ []

-- `filteredAndSortedNamespaces.map(…)`
unfoldable pub namespace_rows : Page → List NamespaceData → List (Shown Action)
namespace_rows p [] = []
namespace_rows p (d ∷ ds) = title_row d ++ numbers_row d ++ controls_row p d ++ namespace_rows p ds

-- `filterOption !== "all"`
unfoldable pub is_filtered : Page → Bool
is_filtered p = not (same (filter_value p.filter_option) (codes "all"))

-- The `NamespaceCreation` beside it is hidden.
unfoldable pub empty_view : Page → List (Shown Action)
empty_view p =
    empty_state (codes "FolderOpenIcon")
      (if is_filtered p then codes "No matching namespaces" else codes "No namespaces found")
      (if is_filtered p
        then codes "Try changing your filter settings"
        else if not (is_empty p.search_term)
        then codes "Try adjusting your search term"
        else codes "Create a namespace to get started")
      (codes "Create Namespace") click_hidden

unfoldable pub list_view : Page → List NamespaceData → List (Shown Action)
list_view p [] = empty_view p
list_view p (d ∷ ds) =
    namespace_rows p (d ∷ ds)
    ++ (text (
          codes "Showing "
          ++ show_ℕ (length (d ∷ ds))
          ++ codes " of "
          ++ show_ℕ (length p.namespaces_data)
          ++ codes " namespaces"
          ++ (if is_filtered p then codes " (filtered)" else []))
        ∷ [])

-- The sidebar is a component of its own.
module _ (lower : Text → Text) (locale_compare : Text → Text → Num) where
  unfoldable pub page_view : Opened → Page → List (Shown Action)
  page_view o p =
      if p.loading
      then icon (codes "LoadingSpinner") ∷ []
      else (icon (codes "NamespaceSidebar") ∷ [])
        ++ header_view p
        ++ counters_view p.resource_counts
        ++ options_view o p
        ++ list_view p (filtered_and_sorted_namespaces lower locale_compare p)
