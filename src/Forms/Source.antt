-- ===== src/Forms/Source.antt =====
-- webui/src/app/ui/formCreation.tsx: the shard that the migration form takes a slot to be in.
use kvrocks_controller.Common.{
  All, Bool-cases, List, Option, [], any, ap, arith, false, if◌then◌else◌, inl, inr, map, none,
  refl, some, suc, ℕ, ◌==◌, ◌∷◌, ◌≡◌,
}
use kvrocks_controller.Api.Calls.{texts}
use kvrocks_controller.Common.Int.{ℤ}
use kvrocks_controller.Dialogs.Migration.Validation.{show_ℕ-no_dash, split-range_text}
use kvrocks_controller.Forms.Migrate.{
  in_parts, listed, range_holds, ranges_hold, shard_ranges, source_shard,
}
use kvrocks_controller.Js.Decimal.{show_ℕ}
use kvrocks_controller.Js.Number.{num_ℕ}
use kvrocks_controller.Js.Number.Laws.{to_number-show_ℕ}
use kvrocks_controller.Js.Text.{codes}
use kvrocks_controller.Js.Text.Laws.{includes_unit-append, includes_unit-false_iff}
use kvrocks_controller.Js.Value.{Value, get_opt, is_int, is_nullish, ok, str}
use kvrocks_controller.Pages.Namespace.Totals.{get-ok}
use kvrocks_controller.Store.Slot.{SlotRange, contains, ranges_contain, slot_range_text}

-- The first shard that holds the slot, counted from `i`.
unfoldable pub first_holding : ℕ → ℕ → List (List SlotRange) → Option ℕ
first_holding slot i [] = none
first_holding slot i (rs ∷ rss) =
    let rest = first_holding slot (suc i) rss in if ranges_contain rs slot then some i else rest

range_holds-printed :
    (slot : ℕ) (r : SlotRange)
    → range_holds (num_ℕ slot) (str (slot_range_text r)) ≡ ok (contains r slot)
unfolding range_holds slot_range_text in_parts contains
range_holds-printed slot r = elim (Bool-cases (r.start == r.stop)) [
  | inl single ↦
      rw
        (
          single,
          (includes_unit-false_iff b'-' (show_ℕ r.start)).1 (show_ℕ-no_dash r.start),
          to_number-show_ℕ r.start,
        )
        (ground arith)
  | inr wide ↦
      rw
        (
          wide,
          includes_unit-append b'-' (show_ℕ r.start) (show_ℕ r.stop),
          split-range_text r.start r.stop,
          to_number-show_ℕ r.start,
          to_number-show_ℕ r.stop,
        )
        (ground arith)
]

printed : List SlotRange → List Value
printed rs = map (λ r. str (slot_range_text r)) rs

ranges_hold-printed :
    (slot : ℕ) (rs : List SlotRange)
    → ranges_hold (num_ℕ slot) (printed rs) ≡ ok (ranges_contain rs slot)
unfolding ranges_hold ranges_contain any printed
ranges_hold-printed slot [] = refl
ranges_hold-printed slot (r ∷ rs) =
    rw (range_holds-printed slot r, ranges_hold-printed slot rs) (ground arith)

-- A shard as the controller prints it, with its ranges.
pub record Prints (s : Value) (rs : List SlotRange) : Type 0 where
  pub object : is_nullish s ≡ false
  pub ranges : get_opt (codes "slot_ranges") s ≡ texts (map slot_range_text rs)
  -- a slot in motion is sent as a text or null, never as a number; import_slot is not sent
  pub migrating : (z : ℤ) → is_int z (get_opt (codes "migrating_slot") s) ≡ false
  pub importing : (z : ℤ) → is_int z (get_opt (codes "import_slot") s) ≡ false

items-texts : (rs : List SlotRange) → listed (texts (map slot_range_text rs)) ≡ printed rs
unfolding listed printed
items-texts [] = refl
items-texts (r ∷ rs) = ap (λ vs. str (slot_range_text r) ∷ vs) (items-texts rs)

shard_ranges-printed :
    (s : Value) (rs : List SlotRange) → Prints s rs → shard_ranges s ≡ ok (printed rs)
unfolding shard_ranges
shard_ranges-printed s rs p = rw (get-ok (codes "slot_ranges") s p.object, p.ranges, items-texts rs)

abbrev pub Printed : Type 0
Printed = Value × List SlotRange

-- If the shards are as the controller prints them, the migration form finds the first shard of
-- whose ranges one holds the slot, or none where there is no such shard.
pub source_shard-printed :
    (slot i : ℕ) (ps : List Printed)
    → All (λ p. Prints p.0 p.1) ps
    → source_shard (num_ℕ slot) i (map (λ p. p.0) ps)
      ≡ ok (first_holding slot i (map (λ p. p.1) ps))
unfolding source_shard first_holding
source_shard-printed slot i [] h = refl
source_shard-printed slot i ((s, rs) ∷ ps) (p, h) =
    rw
      (
        shard_ranges-printed s rs p,
        ranges_hold-printed slot rs,
        source_shard-printed slot (suc i) ps h,
      )
      (ground arith)
