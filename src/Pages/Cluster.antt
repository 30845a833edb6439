-- ===== src/Pages/Cluster.antt =====
-- webui/src/app/namespaces/[namespace]/clusters/[cluster]/page.tsx: the state of the page and the
-- data that it makes of the controller's shards.
pub mod Handlers
pub mod View
pub mod Slots
pub mod Counts
pub mod Invariant
pub mod Deleting
pub mod Migrating
pub mod Rendering
mod Tests
use kvrocks_controller.Common.{
  Bool, List, Option, [], if◌then◌else◌, length, not, suc, ℕ, ◌&&◌, ◌+◌, ◌∷◌,
}
use kvrocks_controller.Js.Text.{Text, codes}
use kvrocks_controller.Js.Value.{
  Result, Value, arr, at_least_zero, get, is_nullish, is_text, nil, ok, or_else, str, ◌>>=◌,
}
use kvrocks_controller.Pages.Effects.{length_of, elements, has_items, minus_one}

pub record ResourceCounts : Type 0 where
  pub shards : ℕ
  pub nodes : ℕ
  pub with_slots : ℕ
  pub migrating : ℕ

pub record ShardData : Type 0 where
  pub index : ℕ
  pub nodes : Value
  pub slot_ranges : Value
  pub migrating_slot : Value
  pub importing_slot : Value
  pub target_shard_index : Value
  pub node_count : ℕ
  pub has_slots : Bool
  pub has_migration : Bool
  pub has_importing : Bool

pub data FilterOption : Type 0 where
  any_shard with_migration no_migration slots_only no_slots with_importing : FilterOption

pub data SortOption : Type 0 where
  index_asc index_desc nodes_desc nodes_asc : SortOption

pub record Page : Type 0 where
  pub shards_data : List ShardData
  pub resource_counts : ResourceCounts
  pub loading : Bool
  pub deleting_shard_index : Option ℕ
  pub search_term : Text
  pub filter_option : FilterOption
  pub sort_option : SortOption
  pub expanded_slots : List ℕ
  -- the messages of `alert` and the paths of `router.push`, in their order
  pub alerts : List Text
  pub routes : List Text

-- A slot that is being moved; also `isActiveImport`.
unfoldable pub is_active_migration : Value → Bool
is_active_migration v = not (is_nullish v) && not (is_text [] v) && not (is_text (codes "-1") v)

-- The `let` variables that the callback of `map` counts up.
pub record Counters : Type 0 where
  pub total_nodes : ℕ
  pub with_slots : ℕ
  pub migrating : ℕ

abbrev pub no_counters : Counters
no_counters = record { total_nodes = 0; with_slots = 0; migrating = 0 }

unfoldable pub count_up : ShardData → Counters → Counters
count_up d c = record {
  total_nodes = c.total_nodes + d.node_count;
  with_slots = if d.has_slots then c.with_slots + 1 else c.with_slots;
  migrating = if d.has_migration then c.migrating + 1 else c.migrating;
}

-- One shard as `fetchData` and `refreshShardData` read it.
unfoldable pub fetched_shard : ℕ → Value → Result ShardData
fetched_shard i shard = do
  nodes ← get (codes "nodes") shard
  ranges ← get (codes "slot_ranges") shard
  migrating ← get (codes "migrating_slot") shard
  importing ← get (codes "import_slot") shard
  target ← get (codes "target_shard_index") shard
  let migrating_slot = or_else migrating (str [])
  let importing_slot = or_else importing (str [])
  ok (record {
    index = i;
    nodes = or_else nodes (arr nil);
    slot_ranges = or_else ranges (arr nil);
    migrating_slot = migrating_slot;
    importing_slot = importing_slot;
    target_shard_index = or_else target minus_one;
    node_count = length_of nodes;
    has_slots = has_items ranges;
    has_migration = is_active_migration migrating_slot;
    has_importing = is_active_migration importing_slot;
  })

-- `v !== null && v !== undefined ? v : -1`
abbrev pub or_minus_one : Value → Value
or_minus_one v = if is_nullish v then minus_one else v

-- One shard as `handleDeleteShard` reads it when it rebuilds the data.
unfoldable pub rebuilt_shard : ℕ → Value → Result ShardData
rebuilt_shard i shard = do
  nodes ← get (codes "nodes") shard
  ranges ← get (codes "slot_ranges") shard
  migrating ← get (codes "migrating_slot") shard
  importing ← get (codes "import_slot") shard
  target ← get (codes "target_shard_index") shard
  ok (record {
    index = i;
    nodes = or_else nodes (arr nil);
    slot_ranges = or_else ranges (arr nil);
    migrating_slot = or_minus_one migrating;
    importing_slot = or_minus_one importing;
    target_shard_index = or_else target minus_one;
    node_count = length_of nodes;
    has_slots = has_items ranges;
    has_migration = at_least_zero (or_minus_one migrating);
    has_importing = at_least_zero (or_minus_one importing);
  })

-- `map` over the shards with its index and its counters, by either reading.
module _ (read : ℕ → Value → Result ShardData) where
  unfoldable pub process_shards : ℕ → Counters → List Value → Result (List ShardData × Counters)
  process_shards i c [] = ok ([], c)
  process_shards i c (v ∷ vs) = do
    d ← read i v
    (ds, c') ← process_shards (suc i) (count_up d c) vs
    ok (d ∷ ds, c')

  unfoldable pub process : Value → Result (List ShardData × Counters)
  process fetched = do vs ← elements (codes "map") fetched; process_shards 0 no_counters vs

unfoldable pub show_shards : List ShardData × Counters → Page → Page
show_shards (ds, c) p = record p {
  shards_data = ds;
  resource_counts = record {
    shards = length ds;
    nodes = c.total_nodes;
    with_slots = c.with_slots;
    migrating = c.migrating;
  };
}
