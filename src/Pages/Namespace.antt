-- ===== src/Pages/Namespace.antt =====
-- webui/src/app/namespaces/[namespace]/page.tsx: the state of the page of one namespace, and the
-- data that it gathers about the namespace's clusters.
pub mod Gather
pub mod Handlers
pub mod View
pub mod Totals
pub mod Promises
pub mod Rendering
pub mod Flags
pub mod Invariant
mod Tests
use kvrocks_controller.Common.{Bool, List, Option, [], false, if◌then◌else◌, length, true, ℕ, ◌∷◌}
use kvrocks_controller.Common.Int.{negsuc}
use kvrocks_controller.Js.Text.{Text, codes}
use kvrocks_controller.Js.Value.{
  Result, Value, arr, at_least_zero, get, get_opt, is_int, nil, ok, or_else, undefined, ◌>>=◌,
}
use kvrocks_controller.Pages.Effects.{has_items, minus_one}

pub record ResourceCounts : Type 0 where
  pub clusters : ℕ
  pub shards : ℕ
  pub nodes : ℕ

-- `info` is the controller's cluster, which the source spreads into the record.
pub record ClusterData : Type 0 where
  pub info : Value
  pub shards : List Value
  pub shard_count : ℕ
  pub node_count : ℕ
  pub has_slots : Bool
  pub has_migration : Bool
  pub has_no_migration : Bool
  pub has_importing : Bool
  pub slot_ranges : Value
  pub migrating_slot : Value
  pub importing_slot : Value
  pub target_shard_index : Value

pub record Page : Type 0 where
  pub cluster_data : List ClusterData
  pub resource_counts : ResourceCounts
  pub loading : Bool
  pub deleting_cluster : Option Text
  -- the messages of `alert`, in their order
  pub alerts : List Text

-- A test of a shard, which may throw; `some`, `every` and `find` stop at the first hit.
abbrev pub ShardTest : Type 0
ShardTest = Value → Result Bool

unfoldable pub some_shard : ShardTest → List Value → Result Bool
some_shard test [] = ok false
some_shard test (s ∷ ss) = do b ← test s; let rest = some_shard test ss; if b then ok true else rest

unfoldable pub every_shard : ShardTest → List Value → Result Bool
every_shard test [] = ok true
every_shard test (s ∷ ss) = do
  b ← test s
  let rest = every_shard test ss
  if b then rest else ok false

unfoldable pub find_shard : ShardTest → List Value → Result Value
find_shard test [] = ok undefined
find_shard test (s ∷ ss) = do b ← test s; let rest = find_shard test ss; if b then ok s else rest

unfoldable pub holds_slots : ShardTest
holds_slots s = do ranges ← get (codes "slot_ranges") s; ok (has_items ranges)

-- `s.<key> >= 0`
unfoldable pub field_at_least_zero : Text → ShardTest
field_at_least_zero key s = do v ← get key s; ok (at_least_zero v)

unfoldable pub is_idle : ShardTest
is_idle s = do v ← get (codes "migrating_slot") s; ok (is_int (negsuc 0) v)

-- `shards.find(…)?.<key> || fallback`
unfoldable pub first_field : ShardTest → Text → Value → List Value → Result Value
first_field test key fallback ss = do s ← find_shard test ss; ok (or_else (get_opt key s) fallback)

-- What is kept of a cluster once its nodes are counted.
unfoldable pub summarize : Value → List Value → ℕ → Result ClusterData
summarize info ss nodes = do
  has_slots ← some_shard holds_slots ss
  has_migration ← some_shard (field_at_least_zero (codes "migrating_slot")) ss
  has_no_migration ← every_shard is_idle ss
  has_importing ← some_shard (field_at_least_zero (codes "import_slot")) ss
  slot_ranges ← first_field holds_slots (codes "slot_ranges") (arr nil) ss
  migrating_slot ←
      first_field (field_at_least_zero (codes "migrating_slot")) (codes "migrating_slot") minus_one
        ss
  importing_slot ←
      first_field (field_at_least_zero (codes "import_slot")) (codes "import_slot") minus_one ss
  target_shard_index ←
      first_field (field_at_least_zero (codes "target_shard_index")) (codes "target_shard_index")
        minus_one ss
  ok (record {
    info = info;
    shards = ss;
    shard_count = length ss;
    node_count = nodes;
    has_slots = has_slots;
    has_migration = has_migration;
    has_no_migration = has_no_migration;
    has_importing = has_importing;
    slot_ranges = slot_ranges;
    migrating_slot = migrating_slot;
    importing_slot = importing_slot;
    target_shard_index = target_shard_index;
  })
