-- ===== src/Pages/Cluster/Rendering/Header.antt =====
-- webui/src/app/namespaces/[namespace]/clusters/[cluster]/page.tsx: the head of the page and its
-- four counters.
use kvrocks_controller.Common.{Bool, List, [], false, filter, length, ltb, not, ◌++◌, ◌∷◌}
use kvrocks_controller.Js.Text.{Text, codes, is_empty}
use kvrocks_controller.Pages.Cluster.{Page, ResourceCounts}
use kvrocks_controller.Pages.Cluster.Rendering.{Action, clear_search, create_shard, open_migration}
use kvrocks_controller.Ui.{Shown, button, icon, text, text_field}
use kvrocks_controller.Ui.Parts.{counter_view, show_if}

unfoldable pub search_view : Page → List (Shown Action)
search_view p =
    (icon (codes "SearchIcon") ∷ text_field (codes "Search shards...") p.search_term false ∷ [])
    ++ show_if (not (is_empty p.search_term)) (button (codes "✕") false clear_search ∷ [])

-- `shardsData.filter((shard) => shard.hasSlots).length < 2`
unfoldable pub migrate_disabled : Page → Bool
migrate_disabled p = ltb (length (filter (λ d. d.has_slots) p.shards_data)) 2

unfoldable pub header_view : Text → Page → List (Shown Action)
header_view cluster p =
    (icon (codes "StorageIcon") ∷ text cluster ∷ text (codes "Manage shards in this cluster") ∷ [])
    ++ search_view p
    ++ (button (codes "Create Shard") false create_shard
        ∷ button (codes "Migrate Slot") (migrate_disabled p) open_migration
        ∷ [])

unfoldable pub counters_view : ResourceCounts → List (Shown Action)
counters_view c =
    counter_view (codes "DnsIcon") c.shards (codes "Shards")
    ++ counter_view (codes "DeviceHubIcon") c.nodes (codes "Nodes")
    ++ counter_view (codes "StorageIcon") c.with_slots (codes "With Slots")
    ++ counter_view (codes "WarningIcon") c.migrating (codes "Migrating")
