-- ===== src/Pages/Cluster/Rendering/Rows.antt =====
-- webui/src/app/namespaces/[namespace]/clusters/[cluster]/page.tsx: the row of a shard.
use kvrocks_controller.Common.{
  Bool, List, [], any, false, if◌then◌else◌, length, ltb, none, not, some, ◌&&◌, ◌++◌, ◌+◌, ◌==◌,
  ◌∷◌,
}
use kvrocks_controller.Js.Decimal.{show_ℕ}
use kvrocks_controller.Js.Text.{Text, codes, join}
use kvrocks_controller.Js.Value.{at_least_zero, to_text}
use kvrocks_controller.Pages.Cluster.{Page, ShardData}
use kvrocks_controller.Pages.Cluster.Rendering.{Action, delete_shard_at, toggle_slots}
use kvrocks_controller.Pages.Cluster.Slots.{expand_slot_ranges, format_slot_ranges}
use kvrocks_controller.Sidebar.{shard_link}
use kvrocks_controller.Ui.{Shown, button, child, chip, icon, link, text}
use kvrocks_controller.Ui.Parts.{plural, plus_one, show_if, shown_ℕ, texts_of}

unfoldable pub title_row : Text → Text → ShardData → List (Shown Action)
title_row namespace cluster d =
    (icon (codes "DnsIcon")
      ∷ link (shard_link namespace cluster (show_ℕ d.index))
      ∷ text (codes "Shard " ++ show_ℕ (d.index + 1))
      ∷ [])
    ++ show_if d.has_migration (text (codes "Migrating ") ∷ child d.migrating_slot ∷ [])
    ++ show_if (not d.has_migration && not d.has_importing) (text (codes "Stable") ∷ [])
    ++ show_if d.has_importing (text (codes "Importing ") ∷ child d.importing_slot ∷ [])

-- The ranges, and all of them while the row is expanded. `Collapse` shows its content then.
unfoldable pub slots_row : Page → ShardData → List (Shown Action)
slots_row p d =
    let ranges = texts_of d.slot_ranges in
    let expanded = any (λ i. i == d.index) p.expanded_slots in
    (icon (codes "StorageIcon")
      ∷ text (codes "Slots: ")
      ∷ text (format_slot_ranges ranges false)
      ∷ chip (show_ℕ (length ranges) ++ codes " range" ++ plural (length ranges))
      ∷ [])
    ++ show_if (ltb 2 (length ranges)) (
        icon (if expanded then codes "ExpandLessIcon" else codes "ExpandMoreIcon")
        ∷ button [] false (toggle_slots d.index)
        ∷ [])
    ++ show_if expanded (
        text (
          codes "All Slot Ranges ("
          ++ show_ℕ (length (expand_slot_ranges ranges))
          ++ codes " total slots):")
        ∷ text (join (codes ", ") ranges)
        ∷ [])

unfoldable pub details_row : Page → ShardData → List (Shown Action)
details_row p d =
    (icon (codes "DeviceHubIcon") ∷ text (show_ℕ d.node_count ++ codes " nodes") ∷ [])
    ++ (if d.has_slots
        then slots_row p d
        else icon (codes "StorageIcon") ∷ text (codes "No slots assigned") ∷ [])
    ++ show_if (at_least_zero d.target_shard_index) (
        icon (codes "InfoIcon")
        ∷ text (codes "Target shard: ")
        ∷ child (plus_one d.target_shard_index)
        ∷ [])

unfoldable pub chips_row : ShardData → List (Shown Action)
chips_row d =
    let ranges = texts_of d.slot_ranges in
    (icon (codes "DeviceHubIcon") ∷ chip (show_ℕ d.node_count ++ codes " nodes") ∷ [])
    ++ (if d.has_slots
        then icon (codes "StorageIcon")
          ∷ chip (show_ℕ (length ranges) ++ codes " slot" ++ plural (length ranges))
          ∷ []
        else icon (codes "InfoIcon") ∷ chip (codes "No slots") ∷ [])
    ++ show_if d.has_migration
        (icon (codes "WarningIcon") ∷ chip (codes "Migrating " ++ to_text d.migrating_slot) ∷ [])
    ++ show_if d.has_importing
        (icon (codes "InfoIcon") ∷ chip (codes "Importing " ++ to_text d.importing_slot) ∷ [])
    ++ show_if (at_least_zero d.target_shard_index)
        (chip (codes "Target: " ++ to_text (plus_one d.target_shard_index)) ∷ [])

unfoldable pub status : ShardData → Text
status d =
    if d.has_migration
    then codes "Migrating"
    else if d.has_importing
    then codes "Importing"
    else codes "Stable"

unfoldable pub numbers_row : ShardData → List (Shown Action)
numbers_row d =
    text (codes "Nodes")
    ∷ shown_ℕ d.node_count
    ∷ text (codes "Slots")
    ∷ shown_ℕ (if d.has_slots then length (texts_of d.slot_ranges) else 0)
    ∷ text (codes "Status")
    ∷ text (status d)
    ∷ []

-- `deletingShardIndex === shard.index`
unfoldable pub is_deleting : Page → ShardData → Bool
is_deleting p d = elim p.deleting_shard_index [ none ↦ false | some i ↦ i == d.index ]

unfoldable pub controls_row : Text → Text → Page → ShardData → List (Shown Action)
controls_row namespace cluster p d =
    button (codes "DeleteIcon") (is_deleting p d) (delete_shard_at d.index)
    ∷ link (shard_link namespace cluster (show_ℕ d.index))
    ∷ icon (codes "ChevronRightIcon")
    ∷ []

unfoldable pub shard_row : Text → Text → Page → ShardData → List (Shown Action)
shard_row namespace cluster p d =
    title_row namespace cluster d
    ++ details_row p d
    ++ chips_row d
    ++ numbers_row d
    ++ controls_row namespace cluster p d

-- `filteredAndSortedShards.map(…)`
unfoldable pub shard_rows : Text → Text → Page → List ShardData → List (Shown Action)
shard_rows namespace cluster p [] = []
shard_rows namespace cluster p (d ∷ ds) =
    shard_row namespace cluster p d ++ shard_rows namespace cluster p ds
