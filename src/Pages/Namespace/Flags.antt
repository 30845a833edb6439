-- ===== src/Pages/Namespace/Flags.antt =====
-- webui/src/app/namespaces/[namespace]/page.tsx: when a cluster counts as migrating.
use kvrocks_controller.Common.{All, List, [], arith, false, refl, true, ℕ, ◌∷◌, ◌≡◌}
use kvrocks_controller.Js.Text.{codes}
use kvrocks_controller.Js.Value.{Value, at_least_zero, get_opt, is_nullish, null, ok, str}
use kvrocks_controller.Js.Value.Laws.{at_least_zero-null, at_least_zero-range_text, range_text}
use kvrocks_controller.Pages.Namespace.{ClusterData, field_at_least_zero, some_shard, summarize}
use kvrocks_controller.Pages.Namespace.Totals.{get-ok}

abbrev pub SlotIs : Value → Value → Type 0
SlotIs m s = (is_nullish s ≡ false) × (get_opt (codes "migrating_slot") s ≡ m)

pub migrating_test :
    (m s : Value)
    → SlotIs m s
    → field_at_least_zero (codes "migrating_slot") s ≡ ok (at_least_zero m)
unfolding field_at_least_zero
migrating_test m s (p, h) = rw (get-ok (codes "migrating_slot") s p, h)

summarize-has_migration :
    (info : Value) (ss : List Value) (n : ℕ) {d : ClusterData}
    → summarize info ss n ≡ ok d
    → some_shard (field_at_least_zero (codes "migrating_slot")) ss ≡ ok d.has_migration
unfolding summarize
summarize-has_migration info ss n h = ground arith

some_shard_of_hit :
    (m s : Value) (ss : List Value)
    → SlotIs m s
    → at_least_zero m ≡ true
    → some_shard (field_at_least_zero (codes "migrating_slot")) (s ∷ ss) ≡ ok true
unfolding some_shard
some_shard_of_hit m s ss h hit = rw (migrating_test m s h, hit)

-- A cluster of the namespace page whose first shard has null as its migrating slot, as the
-- controller sends it for a shard that migrates nothing, counts as migrating if it is kept.
pub idle_cluster_flagged :
    (info s : Value) (ss : List Value) (n : ℕ) {d : ClusterData}
    → SlotIs null s
    → summarize info (s ∷ ss) n ≡ ok d
    → d.has_migration ≡ true
idle_cluster_flagged info s ss n h made =
    cc (
      summarize-has_migration info (s ∷ ss) n made,
      some_shard_of_hit null s ss h at_least_zero-null,
    )

abbrev pub IsMigratingRange : Value → Type 0
IsMigratingRange s = (a : ℕ) × (b : ℕ) × SlotIs (str (range_text a b)) s

some_shard_of_ranges :
    (ss : List Value)
    → All IsMigratingRange ss
    → some_shard (field_at_least_zero (codes "migrating_slot")) ss ≡ ok false
unfolding some_shard
some_shard_of_ranges [] h = refl
some_shard_of_ranges (s ∷ ss) ((a, b, h), hs) =
    rw (migrating_test (str (range_text a b)) s h, at_least_zero-range_text a b)
      (some_shard_of_ranges ss hs)

-- A cluster of the namespace page all of whose shards are migrating a range of two ends does not
-- count as migrating if it is kept.
pub migrating_cluster_missed :
    (info : Value) (ss : List Value) (n : ℕ) {d : ClusterData}
    → All IsMigratingRange ss
    → summarize info ss n ≡ ok d
    → d.has_migration ≡ false
migrating_cluster_missed info ss n h made =
    cc (summarize-has_migration info ss n made, some_shard_of_ranges ss h)
