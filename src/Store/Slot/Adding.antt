-- ===== src/Store/Slot/Adding.antt =====
-- store/slot.go: `AddSlotToSlotRanges` adds a range to the set, and its result is canonical.
use native.Mathlib.Bridge.{le_prop}
use kvrocks_controller.Common.{
  All, All-append, Bool, Bool-cases, List, [], any, ap, arith, false, inl, inr, leb, refl, suc, sym,
  true, ℕ, ◌++◌, ◌+◌, ◌<◌, ◌||◌, ◌∙◌, ◌∷◌, ◌≡◌, ◌≤◌,
}
use kvrocks_controller.Store.Slot.{
  IsAscending, IsSliceSort, SlotRange, add_slot_to_slot_ranges, can_merge, contains, merge_from,
  merge_slot_ranges, merge_sorted, ranges_contain, starts_before,
}
use kvrocks_controller.Store.Slot.Sets.{
  All-perm, From, From-weaken, IsNormal, IsRange, any-append, any-perm,
}

can_merge-ordered : (a b : SlotRange) → a.start ≤ b.start → can_merge a b ≡ leb b.start (a.stop + 1)
unfolding can_merge
can_merge-ordered a b h = ground arith

merge_slot_ranges-contains :
    (last i : SlotRange) (x : ℕ)
    → IsRange last
    → IsRange i
    → last.start ≤ i.start
    → leb i.start (last.stop + 1) ≡ true
    → contains (merge_slot_ranges i last) x ≡ (contains last x || contains i x)
unfolding contains merge_slot_ranges
merge_slot_ranges-contains last i x p q h k = ground arith

-- The merge of two ranges that start in this order starts where the first does.
merge_slot_ranges-start :
    (last i : SlotRange)
    → IsRange last
    → last.start ≤ i.start
    → ((merge_slot_ranges i last).start ≡ last.start) × IsRange (merge_slot_ranges i last)
unfolding merge_slot_ranges
merge_slot_ranges-start last i p h = ground arith

-- What the loop needs of the ranges that are left: sorted, none empty, none before the last one.
record IsLeft (last : SlotRange) (rest : List SlotRange) : Type 0 where
  range : IsRange last
  from_last : From last.start rest
  ranges : All IsRange rest
  sorted : IsAscending rest

IsAscending-From : (r : SlotRange) (rs : List SlotRange) → IsAscending (r ∷ rs) → From r.start rs
unfolding starts_before
IsAscending-From r [] h = tt
IsAscending-From r (q ∷ qs) ((p, h), (k, sorted)) =
    (ground arith, IsAscending-From r qs (h, sorted))

IsLeft-next : {last i : SlotRange} {rest : List SlotRange} → IsLeft last (i ∷ rest) → IsLeft i rest
IsLeft-next {i} {rest} h = record {
  range = h.ranges.0;
  from_last = IsAscending-From i rest h.sorted;
  ranges = h.ranges.1;
  sorted = h.sorted.1;
}

IsLeft-merge :
    {last i : SlotRange} {rest : List SlotRange}
    → IsLeft last (i ∷ rest)
    → IsLeft (merge_slot_ranges i last) rest
IsLeft-merge {last} {i} {rest} h =
    let (start, range) = merge_slot_ranges-start last i h.range h.from_last.0 in
    record {
      range = range;
      from_last = rw start h.from_last.1;
      ranges = h.ranges.1;
      sorted = h.sorted.1;
    }

or_false : (b : Bool) → (b || false) ≡ b
or_false b = ground arith

or_assoc : (a b c : Bool) → ((a || b) || c) ≡ (a || (b || c))
or_assoc a b c = ground arith

starting :
    (r : SlotRange) (rs : List SlotRange)
    → IsRange r
    → All IsRange rs
    → IsAscending (r ∷ rs)
    → IsLeft r rs
starting r rs p h sorted = record {
  range = p;
  from_last = IsAscending-From r rs sorted;
  ranges = h;
  sorted = sorted.1;
}

merge_from-touching :
    (last i : SlotRange) (rest : List SlotRange)
    → can_merge last i ≡ true
    → merge_from last (i ∷ rest) ≡ merge_from (merge_slot_ranges i last) rest
unfolding merge_from
merge_from-touching last i rest e = rw (e, merge_from) refl

merge_from-apart :
    (last i : SlotRange) (rest : List SlotRange)
    → can_merge last i ≡ false
    → merge_from last (i ∷ rest) ≡ last ∷ merge_from i rest
unfolding merge_from
merge_from-apart last i rest e = rw (e, merge_from) refl

merge_from-contains :
    (last : SlotRange) (rest : List SlotRange) (x : ℕ)
    → IsLeft last rest
    → ranges_contain (merge_from last rest) x ≡ (contains last x || ranges_contain rest x)
unfolding merge_from ranges_contain any
merge_from-contains last [] x h = refl
merge_from-contains last (i ∷ rest) x h = elim (Bool-cases (can_merge last i)) [
  | inl touch ↦
      let merged =
        merge_slot_ranges-contains last i x h.range h.ranges.0 h.from_last.0
          (sym (can_merge-ordered last i h.from_last.0) ∙ touch) in
      let rest_in = merge_from-contains _ rest x (IsLeft-merge h) in
      ap (λ rs. ranges_contain rs x) (merge_from-touching last i rest touch)
      ∙ rest_in
      ∙ rw merged (or_assoc (contains last x) (contains i x) (ranges_contain rest x))
  | inr apart ↦
      ap (λ rs. ranges_contain rs x) (merge_from-apart last i rest apart)
      ∙ ap (λ b. contains last x || b) (merge_from-contains i rest x (IsLeft-next h))
]

merge_from-IsNormal :
    (last : SlotRange) (rest : List SlotRange)
    → IsLeft last rest
    → IsNormal (merge_from last rest) × From last.start (merge_from last rest)
unfolding merge_from
merge_from-IsNormal last [] h = ((h.range, tt, tt), (omega arith, tt))
merge_from-IsNormal last (i ∷ rest) h = elim (Bool-cases (can_merge last i)) [
  | inl touch ↦
      let (normal, later) = merge_from-IsNormal _ rest (IsLeft-merge h) in
      let start = (merge_slot_ranges-start last i h.range h.from_last.0).0 in
      rw (merge_from-touching last i rest touch)
        (normal, From-weaken last.start _ _ (omega (arith, start)) later)
  | inr apart ↦
      let (normal, later) = merge_from-IsNormal i rest (IsLeft-next h) in
      let gap : last.stop + 1 < i.start =
        ground (arith, can_merge-ordered last i h.from_last.0, apart) in
      rw (merge_from-apart last i rest apart) (
        (h.range, From-weaken (suc (last.stop + 1)) i.start _ gap later, normal),
        (omega arith, From-weaken last.start i.start _ h.from_last.0 later),
      )
]

merge_sorted-contains :
    (rs : List SlotRange) (x : ℕ)
    → All IsRange rs
    → IsAscending rs
    → ranges_contain (merge_sorted rs) x ≡ ranges_contain rs x
unfolding merge_sorted ranges_contain contains any
merge_sorted-contains [] x h sorted = refl
merge_sorted-contains (r ∷ rs) x (p, h) sorted =
    merge_from-contains r rs x (starting r rs p h sorted)

merge_sorted-IsNormal :
    (rs : List SlotRange) → All IsRange rs → IsAscending rs → IsNormal (merge_sorted rs)
unfolding merge_sorted
merge_sorted-IsNormal [] h sorted = tt
merge_sorted-IsNormal (r ∷ rs) (p, h) sorted =
    (merge_from-IsNormal r rs (starting r rs p h sorted)).0

module _ (sort_slice : (SlotRange → SlotRange → Bool) → List SlotRange → List SlotRange)
    (sorts : IsSliceSort sort_slice) where
  ranges_of_sorted :
      (rs : List SlotRange) → All IsRange rs → All IsRange (sort_slice starts_before rs)
  ranges_of_sorted rs h = All-perm IsRange (λ r. le_prop) (sorts.same_elements rs) h

  -- `AddSlotToSlotRanges` computes the union: the result holds exactly the slots of the list and of
  -- the added range, and it is canonical, that is without an empty range, ascending, and with a gap
  -- between each range and the next. The list may be in any order and overlap, if no range of it
  -- and not the added one is empty, and if Go's `sort.Slice` sorts.
  pub add_slot_to_slot_ranges_lem :
      (source : List SlotRange) (slot : SlotRange)
      → All IsRange source
      → IsRange slot
      → ((x : ℕ)
          → ranges_contain (add_slot_to_slot_ranges sort_slice source slot) x
            ≡ (ranges_contain source x || contains slot x))
        × IsNormal (add_slot_to_slot_ranges sort_slice source slot)
  unfolding add_slot_to_slot_ranges ranges_contain any
  add_slot_to_slot_ranges_lem [] slot h p = (λ x. ground arith, (p, tt, tt))
  add_slot_to_slot_ranges_lem (r ∷ rs) slot h p =
      let all = (r ∷ rs) ++ slot ∷ [] in
      let ranges = ranges_of_sorted all (All-append IsRange (r ∷ rs) (slot ∷ []) h (p, tt)) in
      (
        λ x.
            merge_sorted-contains _ x ranges (sorts.ascending all)
            ∙ any-perm (λ q. contains q x) (sorts.same_elements all)
            ∙ any-append (λ q. contains q x) (r ∷ rs) (slot ∷ [])
            ∙ rw (or_false (contains slot x)) refl,
        merge_sorted-IsNormal _ ranges (sorts.ascending all),
      )
