-- ===== src/Pages/Namespace/Rendering/Rows.antt =====
-- webui/src/app/namespaces/[namespace]/page.tsx: the row of a cluster.
use kvrocks_controller.Common.{
  Bool, List, [], false, if◌then◌else◌, length, ltb, none, not, some, take, ◌&&◌, ◌++◌, ◌||◌, ◌∷◌,
}
use kvrocks_controller.Common.Int.{negsuc}
use kvrocks_controller.Js.Decimal.{show_ℕ}
use kvrocks_controller.Js.Text.{Text, codes, join, same}
use kvrocks_controller.Js.Value.{at_least_zero, get_opt, is_int, to_text}
use kvrocks_controller.Pages.Namespace.{ClusterData, Page}
use kvrocks_controller.Pages.Namespace.Rendering.{Action, delete_cluster_named}
use kvrocks_controller.Pages.Namespace.View.{cluster_name}
use kvrocks_controller.Sidebar.{cluster_link}
use kvrocks_controller.Ui.{Shown, button, child, chip, icon, link, text}
use kvrocks_controller.Ui.Parts.{plus_one, show_if, shown_ℕ, texts_of}

-- The marks beside the name.
unfoldable pub state_row : ClusterData → List (Shown Action)
state_row d =
    show_if (d.has_migration && at_least_zero d.migrating_slot)
      (text (codes "Migrating ") ∷ child d.migrating_slot ∷ [])
    ++ show_if (not d.has_migration || is_int (negsuc 0) d.migrating_slot)
        (text (codes "Stable") ∷ [])
    ++ show_if (d.has_importing && at_least_zero d.importing_slot)
        (text (codes "Importing ") ∷ child d.importing_slot ∷ [])

-- `slotRanges.slice(0, 2)` and an ellipsis where there are more than two.
unfoldable pub slots_text : List Text → Text
slots_text ranges =
    if ltb 2 (length ranges)
    then join (codes ", ") (take 2 ranges) ++ codes ", ..."
    else join (codes ", ") ranges

unfoldable pub title_row : Text → ClusterData → List (Shown Action)
title_row namespace d =
    (icon (codes "StorageIcon")
      ∷ link (cluster_link namespace (cluster_name d))
      ∷ text (cluster_name d)
      ∷ [])
    ++ state_row d
    ++ (icon (codes "AccessTimeIcon")
        ∷ text (codes "Version: ")
        ∷ child (get_opt (codes "version") d.info)
        ∷ [])
    ++ show_if d.has_slots
        (text (codes "Slots: ") ∷ text (slots_text (texts_of d.slot_ranges)) ∷ [])

unfoldable pub chips_row : ClusterData → List (Shown Action)
chips_row d =
    (icon (codes "DnsIcon")
      ∷ chip (show_ℕ d.shard_count ++ codes " shards")
      ∷ icon (codes "DeviceHubIcon")
      ∷ chip (show_ℕ d.node_count ++ codes " nodes")
      ∷ [])
    ++ show_if (not d.has_slots) (icon (codes "InfoIcon") ∷ chip (codes "No slots") ∷ [])
    ++ show_if (at_least_zero d.target_shard_index)
        (chip (codes "Target shard: " ++ to_text (plus_one d.target_shard_index)) ∷ [])

unfoldable pub numbers_row : ClusterData → List (Shown Action)
numbers_row d =
    text (codes "Shards") ∷ shown_ℕ d.shard_count ∷ text (codes "Nodes") ∷ shown_ℕ d.node_count ∷ []

-- `deletingCluster === cluster.name`
unfoldable pub is_deleting : Page → ClusterData → Bool
is_deleting p d = elim p.deleting_cluster [ none ↦ false | some name ↦ same name (cluster_name d) ]

unfoldable pub controls_row : Text → Page → ClusterData → List (Shown Action)
controls_row namespace p d =
    button (codes "DeleteIcon") (is_deleting p d) (delete_cluster_named (cluster_name d))
    ∷ link (cluster_link namespace (cluster_name d))
    ∷ icon (codes "ChevronRightIcon")
    ∷ []

unfoldable pub cluster_row : Text → Page → ClusterData → List (Shown Action)
cluster_row namespace p d =
    title_row namespace d ++ chips_row d ++ numbers_row d ++ controls_row namespace p d

-- `filteredAndSortedClusters.map(…)`
unfoldable pub cluster_rows : Text → Page → List ClusterData → List (Shown Action)
cluster_rows namespace p [] = []
cluster_rows namespace p (d ∷ ds) = cluster_row namespace p d ++ cluster_rows namespace p ds
