-- ===== src/Store/Slot.antt =====
-- store/slot.go: ranges of slots, their texts, and sets of slots as lists of ranges. The bounds of
-- the ranges are slots, and natural numbers; a text may hold any integer.
pub mod Parse
pub mod Texts
pub mod Sets
pub mod Canonical
pub mod Unique
pub mod Adding
pub mod Removing
pub mod History
mod Tests
use mathlib.Core.List.{Perm}
use kvrocks_controller.Common.{
  All, Bool, List, [], any, false, if◌then◌else◌, leb, ltb, not, true, ℕ, ◌&&◌, ◌++◌, ◌+◌, ◌-◌,
  ◌==◌, ◌||◌, ◌∷◌, ◌≡◌,
}
use kvrocks_controller.Common.Int.{ltb_ℤ, pos, pos_part, ℤ}
use kvrocks_controller.Js.Decimal.{show_ℕ}
use kvrocks_controller.Js.Text.{Text}
use kvrocks_controller.Js.Value.Laws.{range_text}
use kvrocks_controller.Pages.Cluster.Slots.{ascending}

abbrev pub max_slot_id : ℕ
max_slot_id = 16383

pub record SlotRange : Type 0 where
  pub start : ℕ
  pub stop : ℕ

pub data SlotError : Type 0 where
  start_larger : SlotError
  slot_out_of_range : SlotError
  too_many_ranges : SlotError
  not_a_number : SlotError

pub data Checked : Type 0 where
  checked : SlotRange → Checked
  failed : SlotError → Checked

-- `x < MinSlotID || x > MaxSlotID`
unfoldable pub is_outside : ℤ → Bool
is_outside x = ltb_ℤ x (pos 0) || ltb_ℤ (pos max_slot_id) x

unfoldable pub new_slot_range : ℤ → ℤ → Checked
unfolding is_outside
new_slot_range start stop =
    if ltb_ℤ stop start
    then failed start_larger
    else if is_outside start || is_outside stop
    then failed slot_out_of_range
    else checked (record { start = pos_part start; stop = pos_part stop })

-- `SlotRange.Equal`
unfoldable pub equal : SlotRange → SlotRange → Bool
equal r that = if not (r.start == that.start) then false else r.stop == that.stop

unfoldable pub has_overlap : SlotRange → SlotRange → Bool
has_overlap r that = leb that.start r.stop && leb r.start that.stop

-- `SlotRange.Contains`
unfoldable pub contains : SlotRange → ℕ → Bool
contains r slot = leb r.start slot && leb slot r.stop

-- `SlotRange.String`
unfoldable pub slot_range_text : SlotRange → Text
slot_range_text r = if r.start == r.stop then show_ℕ r.start else range_text r.start r.stop

-- `SlotRanges.Contains`
unfoldable pub ranges_contain : List SlotRange → ℕ → Bool
ranges_contain rs slot = any (λ r. contains r slot) rs

-- `SlotRanges.HasOverlap`
unfoldable pub ranges_overlap : List SlotRange → SlotRange → Bool
ranges_overlap rs that = any (λ r. has_overlap r that) rs

-- The ranges are swapped so that `a` starts first.
unfoldable pub can_merge : SlotRange → SlotRange → Bool
can_merge a b = if ltb b.start a.start then leb a.start (b.stop + 1) else leb b.start (a.stop + 1)

unfoldable pub merge_slot_ranges : SlotRange → SlotRange → SlotRange
merge_slot_ranges a b = record {
  start = if leb a.start b.start then a.start else b.start;
  stop = if leb b.stop a.stop then a.stop else b.stop;
}

-- `source[i].Start < source[j].Start`
unfoldable pub starts_before : SlotRange → SlotRange → Bool
starts_before a b = ltb a.start b.start

-- The loop over the sorted ranges: the last merged range takes the next one in or is complete.
unfoldable pub merge_from : SlotRange → List SlotRange → List SlotRange
merge_from last [] = last ∷ []
merge_from last (interval ∷ rest) = elim (can_merge last interval) [
  | true ↦ merge_from (merge_slot_ranges interval last) rest
  | false ↦ last ∷ merge_from interval rest
]

unfoldable pub merge_sorted : List SlotRange → List SlotRange
merge_sorted [] = []
merge_sorted (first ∷ rest) = merge_from first rest

-- What is left of one range: itself without an overlap, else its parts on both sides of the slot.
unfoldable pub cut : SlotRange → SlotRange → List SlotRange
cut slot r =
    if not (has_overlap r slot)
    then r ∷ []
    else (if ltb r.start slot.start
        then record { start = r.start; stop = slot.start - 1 } ∷ []
        else [])
      ++ (if ltb slot.stop r.stop then record { start = slot.stop + 1; stop = r.stop } ∷ [] else [])

unfoldable pub cut_all : SlotRange → List SlotRange → List SlotRange
cut_all slot [] = []
cut_all slot (r ∷ rs) = cut slot r ++ cut_all slot rs

-- `sort.Slice` of Go's library is a parameter.
module _ (sort_slice : (SlotRange → SlotRange → Bool) → List SlotRange → List SlotRange) where
  unfoldable pub add_slot_to_slot_ranges : List SlotRange → SlotRange → List SlotRange
  add_slot_to_slot_ranges [] slot = slot ∷ []
  add_slot_to_slot_ranges (r ∷ rs) slot =
      merge_sorted (sort_slice starts_before ((r ∷ rs) ++ slot ∷ []))

  unfoldable pub remove_slot_from_slot_ranges : List SlotRange → SlotRange → List SlotRange
  remove_slot_from_slot_ranges source slot =
      let sorted = sort_slice starts_before source in
      if not (ranges_overlap sorted slot) then sorted else cut_all slot sorted

-- `sort.Slice` by the start keeps the elements, each as often, and no element comes before one
-- that is less.
abbrev pub IsAscending : List SlotRange → Type 0
IsAscending [] = Unit
IsAscending (r ∷ rs) = All (λ q. starts_before q r ≡ false) rs × IsAscending rs

pub record IsSliceSort
    (sort_slice : (SlotRange → SlotRange → Bool) → List SlotRange → List SlotRange) : Type 0 where
  pub same_elements : (rs : List SlotRange) → Perm (sort_slice starts_before rs) rs
  pub ascending : (rs : List SlotRange) → IsAscending (sort_slice starts_before rs)
