-- ===== src/Store/Slot/Removing.antt =====
-- store/slot.go: `RemoveSlotFromSlotRanges` takes a range out of the set, and keeps lists canonical.
use kvrocks_controller.Common.{
  All, All-append, All-map, Bool, Bool-cases, List, [], any, ap, ap₂, arith, false, if◌then◌else◌,
  inl, inr, not, refl, suc, ℕ, ◌&&◌, ◌++◌, ◌+◌, ◌<◌, ◌||◌, ◌∙◌, ◌∷◌, ◌≡◌, ◌≤◌,
}
use kvrocks_controller.Store.Slot.{
  IsSliceSort, SlotRange, contains, cut, cut_all, has_overlap, ranges_contain, ranges_overlap,
  remove_slot_from_slot_ranges, starts_before,
}
use kvrocks_controller.Store.Slot.Canonical.{sort_slice-IsNormal}
use kvrocks_controller.Store.Slot.Sets.{
  From, From-weaken, From-zero, IsNormal, IsRange, any-append, any-perm,
}

cut-contains :
    (slot r : SlotRange) (x : ℕ)
    → ranges_contain (cut slot r) x ≡ (contains r x && not (contains slot x))
unfolding cut has_overlap ranges_contain any contains
cut-contains slot r x = ground arith

cut_all-contains :
    (slot : SlotRange) (rs : List SlotRange) (x : ℕ)
    → ranges_contain (cut_all slot rs) x ≡ (ranges_contain rs x && not (contains slot x))
unfolding cut_all ranges_contain any
cut_all-contains slot [] x = refl
cut_all-contains slot (r ∷ rs) x =
    any-append (λ q. contains q x) (cut slot r) (cut_all slot rs)
    ∙ ap₂ ◌||◌ (cut-contains slot r x) (cut_all-contains slot rs x)
    ∙ distribute (contains r x) (ranges_contain rs x) (not (contains slot x))
  where
    distribute : (a b c : Bool) → ((a && c) || (b && c)) ≡ ((a || b) && c)
    distribute a b c = ground arith

or_split : (a b : Bool) → (a || b) ≡ false → (a ≡ false) × (b ≡ false)
or_split a b h = ground arith

overlap_of_common :
    (r slot : SlotRange) (x : ℕ)
    → has_overlap r slot ≡ false
    → contains r x ≡ (contains r x && not (contains slot x))
unfolding has_overlap contains
overlap_of_common r slot x h = ground arith

-- Without an overlap nothing is taken out.
disjoint-contains :
    (slot : SlotRange) (rs : List SlotRange) (x : ℕ)
    → ranges_overlap rs slot ≡ false
    → ranges_contain rs x ≡ (ranges_contain rs x && not (contains slot x))
unfolding ranges_overlap ranges_contain any
disjoint-contains slot [] x h = refl
disjoint-contains slot (r ∷ rs) x h =
    let (now, later) = or_split (has_overlap r slot) (ranges_overlap rs slot) h in
    distribute (contains r x) (ranges_contain rs x) (not (contains slot x))
      (overlap_of_common r slot x now) (disjoint-contains slot rs x later)
  where
    distribute : (a b c : Bool) → a ≡ (a && c) → b ≡ (b && c) → (a || b) ≡ ((a || b) && c)
    distribute a b c h k = ground arith

-- A list that is cut, or has no overlap, loses the slots of the range and no other.
remove_sorted : SlotRange → List SlotRange → List SlotRange
remove_sorted slot rs = if not (ranges_overlap rs slot) then rs else cut_all slot rs

remove_sorted-contains :
    (slot : SlotRange) (rs : List SlotRange) (x : ℕ)
    → ranges_contain (remove_sorted slot rs) x ≡ (ranges_contain rs x && not (contains slot x))
unfolding remove_sorted
remove_sorted-contains slot rs x = elim (Bool-cases (ranges_overlap rs slot)) [
  | inl some_ ↦ rw some_ (cut_all-contains slot rs x)
  | inr none_ ↦ rw none_ (disjoint-contains slot rs x none_)
]

-- What is cut out of a range stands between the range's bounds.
cut-IsNormal :
    (slot r : SlotRange)
    → IsRange slot
    → IsRange r
    → IsNormal (cut slot r) × All (λ q. (r.start ≤ q.start) × (q.stop ≤ r.stop)) (cut slot r)
unfolding cut has_overlap
cut-IsNormal slot r p q = ground arith

IsNormal-append :
    (n : ℕ) (rs qs : List SlotRange)
    → IsNormal rs
    → All (λ q. q.stop ≤ n) rs
    → IsNormal qs
    → From (suc (n + 1)) qs
    → IsNormal (rs ++ qs)
IsNormal-append n [] qs h k normal later = normal
IsNormal-append n (r ∷ rs) qs (p, gap, h) (e, k) normal later = (
  p,
  All-append (λ q. r.stop + 1 < q.start) rs qs gap
      (From-weaken (suc (r.stop + 1)) (suc (n + 1)) qs (omega arith) later),
  IsNormal-append n rs qs h k normal later,
)

cut_all-IsNormal :
    (slot : SlotRange) (rs : List SlotRange) (n : ℕ)
    → IsRange slot
    → IsNormal rs
    → From n rs
    → IsNormal (cut_all slot rs) × From n (cut_all slot rs)
unfolding cut_all
cut_all-IsNormal slot [] n p h k = (tt, tt)
cut_all-IsNormal slot (r ∷ rs) n p (q, gap, h) (e, k) =
    let (normal, later) = cut_all-IsNormal slot rs (suc (r.stop + 1)) p h gap in
    let (parts, bounds) = cut-IsNormal slot r p q in
    (
      IsNormal-append r.stop (cut slot r) (cut_all slot rs) parts
          (All-map _ _ (λ x b. b.1) _ bounds) normal later,
      All-append (λ x. n ≤ x.start) (cut slot r) (cut_all slot rs)
          (All-map _ _ (λ x b. omega (arith, b.0, e)) _ bounds)
          (From-weaken n (suc (r.stop + 1)) _ (omega arith) later),
    )

module _ (sort_slice : (SlotRange → SlotRange → Bool) → List SlotRange → List SlotRange)
    (sorts : IsSliceSort sort_slice) where
  -- `RemoveSlotFromSlotRanges` computes the difference of sets: whatever the list, sorted or not
  -- and overlapping or not, the result holds exactly the slots of the list that are not in the
  -- removed range, if Go's `sort.Slice` sorts.
  pub remove_slot_from_slot_ranges_lem :
      (source : List SlotRange) (slot : SlotRange) (x : ℕ)
      → ranges_contain (remove_slot_from_slot_ranges sort_slice source slot) x
        ≡ (ranges_contain source x && not (contains slot x))
  unfolding remove_slot_from_slot_ranges remove_sorted
  remove_slot_from_slot_ranges_lem source slot x =
      remove_sorted-contains slot (sort_slice starts_before source) x
      ∙ ap (λ b. b && not (contains slot x))
          (unfold ranges_contain in any-perm (λ q. contains q x) (sorts.same_elements source))

  pub remove_slot_from_slot_ranges-IsNormal :
      (source : List SlotRange) (slot : SlotRange)
      → IsNormal source
      → IsRange slot
      → IsNormal (remove_slot_from_slot_ranges sort_slice source slot)
  unfolding remove_slot_from_slot_ranges
  remove_slot_from_slot_ranges-IsNormal source slot h p =
      let normal = sort_slice-IsNormal sort_slice sorts source h in
      elim (Bool-cases (ranges_overlap (sort_slice starts_before source) slot)) [
        | inl some_ ↦ rw some_ (cut_all-IsNormal slot _ 0 p normal (From-zero _)).0
        | inr none_ ↦ rw none_ normal
      ]
