-- ===== src/Pages/Cluster/Slots/Laws.antt =====
-- webui/src/app/namespaces/[namespace]/clusters/[cluster]/page.tsx: what `expandSlotRanges` makes of the
-- ranges that the controller prints.
use mathlib.Core.List.{Perm}
use kvrocks_controller.Common.{
  Bool-cases, List, [], ap, arith, inl, inr, map, refl, suc, sym, zero, ℕ, ◌++◌, ◌+◌, ◌-◌, ◌==◌,
  ◌∙◌, ◌∷◌, ◌≡◌,
}
use kvrocks_controller.Common.Int.{pos, pos_part, ℤ, ◌+ℤ◌, ◌-ℤ◌}
use kvrocks_controller.Dialogs.Migration.Validation.{show_ℕ-no_dash, split-range_text}
use kvrocks_controller.Js.Decimal.{show_ℕ}
use kvrocks_controller.Js.Number.Laws.{to_number-show_ℕ}
use kvrocks_controller.Js.Sort.{after}
use kvrocks_controller.Js.Sort.Laws.{IsOrder, IsSorted, sort-IsSorted, sort-perm}
use kvrocks_controller.Js.Text.Laws.{includes_unit-append, includes_unit-false_iff}
use kvrocks_controller.Js.Value.Laws.{range_text}
use kvrocks_controller.Pages.Cluster.Slots.{
  ascending, between, expand_parts, expand_range, expand_single, expand_slot_ranges, integers_from,
  push_ranges,
}
use kvrocks_controller.Store.Slot.{SlotRange, slot_range_text}

-- The slots of a range, each once and in order.
unfoldable pub slots_from : ℕ → ℕ → List ℤ
slots_from a zero = []
slots_from a (suc n) = pos a ∷ slots_from (suc a) n

abbrev pub slots_of : SlotRange → List ℤ
slots_of r = slots_from r.start (r.stop + 1 - r.start)

abbrev pub all_slots : List SlotRange → List ℤ
all_slots [] = []
all_slots (r ∷ rs) = slots_of r ++ all_slots rs

integers_from-pos : (a n : ℕ) → integers_from (pos a) n ≡ slots_from a n
unfolding integers_from slots_from
integers_from-pos a zero = refl
integers_from-pos a (suc n) = ap (λ l. pos a ∷ l) (rw (next a) (integers_from-pos (suc a) n))
  where
    next : (a : ℕ) → pos a +ℤ pos 1 ≡ pos (suc a)
    next a = unfold ◌+ℤ◌ in ground arith

span : (a b : ℕ) → pos_part (pos b -ℤ pos a +ℤ pos 1) ≡ b + 1 - a
unfolding ◌-ℤ◌ ◌+ℤ◌
span a b = ground arith

expand_range-single : (n : ℕ) → expand_range (show_ℕ n) ≡ pos n ∷ []
unfolding expand_range expand_single
expand_range-single n =
    rw ((includes_unit-false_iff b'-' (show_ℕ n)).1 (show_ℕ-no_dash n), to_number-show_ℕ n)

expand_range-range_text : (a b : ℕ) → expand_range (range_text a b) ≡ slots_from a (b + 1 - a)
unfolding expand_range expand_parts between
expand_range-range_text a b =
    rw
      (
        includes_unit-append b'-' (show_ℕ a) (show_ℕ b),
        split-range_text a b,
        to_number-show_ℕ a,
        to_number-show_ℕ b,
        span a b,
      )
      (integers_from-pos a (b + 1 - a))

slots_from-single : (a n : ℕ) → n ≡ 1 → slots_from a n ≡ pos a ∷ []
unfolding slots_from
slots_from-single a n h = rw h

expand_range-slot_range_text : (r : SlotRange) → expand_range (slot_range_text r) ≡ slots_of r
unfolding slot_range_text
expand_range-slot_range_text r = elim (Bool-cases (r.start == r.stop)) [
  | inl single ↦ rw single (
      expand_range-single r.start
      ∙ sym (slots_from-single r.start (r.stop + 1 - r.start) (ground arith)))
  | inr wide ↦ rw wide (expand_range-range_text r.start r.stop)
]

push_ranges-printed : (rs : List SlotRange) → push_ranges (map slot_range_text rs) ≡ all_slots rs
unfolding push_ranges
push_ranges-printed [] = refl
push_ranges-printed (r ∷ rs) = rw (expand_range-slot_range_text r, push_ranges-printed rs)

ascending-IsOrder : IsOrder ascending
unfolding after ◌-ℤ◌
ascending-IsOrder = record {
  asymmetric = λ x y h. ground arith;
  transitive = λ x y z h k. ground arith;
}

-- For the ranges that the controller prints, the page lists exactly the slots that the ranges
-- hold, each as often as it is held, in ascending order.
pub expand_slot_ranges-printed :
    (rs : List SlotRange)
    → Perm (expand_slot_ranges (map slot_range_text rs)) (all_slots rs)
      × IsSorted ascending (expand_slot_ranges (map slot_range_text rs))
unfolding expand_slot_ranges
expand_slot_ranges-printed rs = (
  rw (push_ranges-printed rs) (sort-perm ascending (all_slots rs)),
  sort-IsSorted ascending ascending-IsOrder (push_ranges (map slot_range_text rs)),
)
