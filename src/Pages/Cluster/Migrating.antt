-- ===== src/Pages/Cluster/Migrating.antt =====
-- webui/src/app/namespaces/[namespace]/clusters/[cluster]/page.tsx: how the page reads the slot that
-- a shard is migrating and the shard that receives it.
use kvrocks_controller.Common.{All, [], arith, false, refl, true, ℕ, ◌++◌, ◌∙◌, ◌∷◌, ◌≡◌, ◌≢◌}
use kvrocks_controller.Js.Decimal.{show_ℕ}
use kvrocks_controller.Js.Decimal.Laws.{IsDigit, show_ℕ-digits, show_ℕ-ne-nil}
use kvrocks_controller.Js.Number.{num_ℕ}
use kvrocks_controller.Js.Text.{Text, codes}
use kvrocks_controller.Js.Value.{
  Value, at_least_zero, get, get_opt, null, num, ok, or_else, str, undefined,
}
use kvrocks_controller.Js.Value.Laws.{at_least_zero-range_text, range_text}
use kvrocks_controller.Pages.Cluster.{
  ShardData, fetched_shard, is_active_migration, or_minus_one, rebuilt_shard,
}
use kvrocks_controller.Pages.Effects.{minus_one}

fetched_shard-has_migration :
    (i : ℕ) (v : Value) {d : ShardData}
    → fetched_shard i v ≡ ok d
    → (d.has_migration
        ≡ is_active_migration (or_else (get_opt (codes "migrating_slot") v) (str [])))
      × (d.target_shard_index ≡ or_else (get_opt (codes "target_shard_index") v) minus_one)
unfolding fetched_shard get
fetched_shard-has_migration i undefined h = cc
fetched_shard-has_migration i null h = cc
fetched_shard-has_migration i v h = ground arith

rebuilt_shard-has_migration :
    (i : ℕ) (v : Value) {d : ShardData}
    → rebuilt_shard i v ≡ ok d
    → (d.has_migration ≡ at_least_zero (or_minus_one (get_opt (codes "migrating_slot") v)))
      × (d.target_shard_index ≡ or_else (get_opt (codes "target_shard_index") v) minus_one)
unfolding rebuilt_shard get
rebuilt_shard-has_migration i undefined h = cc
rebuilt_shard-has_migration i null h = cc
rebuilt_shard-has_migration i v h = ground arith

-- Both readings agree on a shard that migrates nothing, for which the controller sends null.
idle_shard_lem :
    (i : ℕ) (v : Value) {d e : ShardData}
    → get_opt (codes "migrating_slot") v ≡ null
    → fetched_shard i v ≡ ok d
    → rebuilt_shard i v ≡ ok e
    → (d.has_migration ≡ false) × (e.has_migration ≡ false)
unfolding is_active_migration at_least_zero
idle_shard_lem i v m h k =
    ((fetched_shard-has_migration i v h).0 ∙ rw m, (rebuilt_shard-has_migration i v k).0 ∙ rw m)

range_text_active : (a b : ℕ) → is_active_migration (or_else (str (range_text a b)) (str [])) ≡ true
unfolding is_active_migration
range_text_active a b = active (show_ℕ a) (show_ℕ-digits a) (show_ℕ-ne-nil a)
  where
    active :
        (s : Text)
        → All IsDigit s
        → s ≢ []
        → is_active_migration (or_else (str (s ++ b'-' ∷ show_ℕ b)) (str [])) ≡ true
    active [] h n = absurd (n refl)
    active (c ∷ s) h n = ground arith

-- A shard that is migrating a range of two ends counts as migrating when the page is loaded, and
-- no longer does when the page rebuilds its data after the deletion of a shard: there the text of
-- the range is compared with zero as a number.
migrating_range_lost :
    (i a b : ℕ) (v : Value) {d e : ShardData}
    → get_opt (codes "migrating_slot") v ≡ str (range_text a b)
    → fetched_shard i v ≡ ok d
    → rebuilt_shard i v ≡ ok e
    → (d.has_migration ≡ true) × (e.has_migration ≡ false)
migrating_range_lost i a b v m h k = (
  (fetched_shard-has_migration i v h).0 ∙ rw m (range_text_active a b),
  (rebuilt_shard-has_migration i v k).0 ∙ rw m (at_least_zero-range_text a b),
)

-- The first shard as the receiver of a migration is lost by both readings of the cluster page:
-- the index zero is falsy, and becomes the -1 that stands for no receiver.
pub target_zero_lost :
    (i : ℕ) (v : Value) {d e : ShardData}
    → get_opt (codes "target_shard_index") v ≡ num (num_ℕ 0)
    → fetched_shard i v ≡ ok d
    → rebuilt_shard i v ≡ ok e
    → (d.target_shard_index ≡ minus_one) × (e.target_shard_index ≡ minus_one)
target_zero_lost i v z h k =
    ((fetched_shard-has_migration i v h).1 ∙ rw z, (rebuilt_shard-has_migration i v k).1 ∙ rw z)
