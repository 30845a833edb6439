-- ===== src/Store/Slot/Unique.antt =====
-- store/slot.go: a set of slots has one canonical list.
use native.Mathlib.Decide.{dec_lt}
use kvrocks_controller.Common.{
  All, List, [], any, ap, ap₂, arith, false, ltb, refl, suc, sym, ℕ, ◌&&◌, ◌+◌, ◌<◌, ◌∙◌, ◌∷◌, ◌≡◌,
  ◌≤◌,
}
use kvrocks_controller.Js.Text.{same}
use kvrocks_controller.Store.Slot.{SlotRange, contains, ranges_contain}
use kvrocks_controller.Store.Slot.Sets.{From, IsNormal, contains_iff}

-- No slot below the first start is in the list.
ranges_contain-below :
    (rs : List SlotRange) (n x : ℕ) → From n rs → x < n → ranges_contain rs x ≡ false
unfolding ranges_contain any contains
ranges_contain-below [] n x h k = refl
ranges_contain-below (r ∷ rs) n x (p, h) k = rw (ranges_contain-below rs n x h k) (ground arith)

From-gap : (n : ℕ) (rs : List SlotRange) → All (λ q. n + 1 < q.start) rs → From (suc (n + 1)) rs
From-gap n [] h = tt
From-gap n (r ∷ rs) (p, h) = (p, From-gap n rs h)

-- Up to the slot after the first range, the list is that range.
ranges_contain-first :
    (r : SlotRange) (rs : List SlotRange) (x : ℕ)
    → IsNormal (r ∷ rs)
    → x ≤ r.stop + 1
    → ranges_contain (r ∷ rs) x ≡ contains r x
unfolding ranges_contain any contains
ranges_contain-first r rs x (p, gap, h) k =
    rw (ranges_contain-below rs (suc (r.stop + 1)) x (From-gap r.stop rs gap) (omega arith))
      (ground arith)

abbrev SameSet : List SlotRange → List SlotRange → Type 0
SameSet rs qs = (x : ℕ) → ranges_contain rs x ≡ ranges_contain qs x

-- The list with the least slot starts first, and its first range is not the longer one.
first-le :
    (r : SlotRange) (rs : List SlotRange) (q : SlotRange) (qs : List SlotRange)
    → IsNormal (r ∷ rs)
    → IsNormal (q ∷ qs)
    → SameSet (r ∷ rs) (q ∷ qs)
    → q.start ≤ r.start
first-le r rs q qs h k same = elim (dec_lt r.start q.start) [
  | no below ↦ omega arith
  | yes below ↦ absurd (
      ground (
        arith,
        same r.start,
        ranges_contain-first r rs r.start h (omega (arith, h.0)),
        ranges_contain-first q qs r.start k (omega (arith, k.0)),
        contains_iff r r.start,
        contains_iff q r.start,
        h.0,
      ))
]

stop-le :
    (r : SlotRange) (rs : List SlotRange) (q : SlotRange) (qs : List SlotRange)
    → IsNormal (r ∷ rs)
    → IsNormal (q ∷ qs)
    → SameSet (r ∷ rs) (q ∷ qs)
    → r.start ≡ q.start
    → q.stop ≤ r.stop
stop-le r rs q qs h k same e = elim (dec_lt r.stop q.stop) [
  | no above ↦ omega arith
  | yes above ↦
      let x = r.stop + 1 in
      absurd (
        ground (
          arith,
          same x,
          ranges_contain-first r rs x h (omega arith),
          ranges_contain-first q qs x k (omega arith),
          contains_iff r x,
          contains_iff q x,
          h.0,
        ))
]

-- The rest of the list is the set without the slots up to the first stop.
rest_contain :
    (r : SlotRange) (rs : List SlotRange) (x : ℕ)
    → IsNormal (r ∷ rs)
    → ranges_contain rs x ≡ (ranges_contain (r ∷ rs) x && ltb r.stop x)
unfolding ranges_contain any contains
rest_contain r rs x (p, gap, h) = elim (dec_lt r.stop x) [
  | yes above ↦ ground arith
  | no below ↦
      rw (ranges_contain-below rs (suc (r.stop + 1)) x (From-gap r.stop rs gap) (omega arith))
        (ground arith)
]

holds_some : (r : SlotRange) (rs : List SlotRange) → IsNormal (r ∷ rs) → ¬ SameSet (r ∷ rs) []
unfolding ranges_contain any contains
holds_some r rs h same = ground (arith, same r.start, h.0)

pub same_range : (r q : SlotRange) → r.start ≡ q.start → r.stop ≡ q.stop → r ≡ q
same_range r q e k = ground arith

-- A set of slots has one canonical list: two lists without empty ranges, ascending and with gaps
-- between their ranges, that hold the same slots are equal.
pub IsNormal-unique :
    (rs qs : List SlotRange)
    → IsNormal rs
    → IsNormal qs
    → ((x : ℕ) → ranges_contain rs x ≡ ranges_contain qs x)
    → rs ≡ qs
IsNormal-unique [] [] h k same = refl
IsNormal-unique [] (q ∷ qs) h k same = absurd (holds_some q qs k (λ x. sym (same x)))
IsNormal-unique (r ∷ rs) [] h k same = absurd (holds_some r rs h same)
IsNormal-unique (r ∷ rs) (q ∷ qs) h k same = ap₂ ◌∷◌ first (
    IsNormal-unique rs qs h.2 k.2 (λ x.
      rest_contain r rs x h
      ∙ ap₂ (λ b (n : ℕ). b && ltb n x) (same x) (ap (λ (a : SlotRange). a.stop) first)
      ∙ sym (rest_contain q qs x k)))
  where
    back : SameSet (q ∷ qs) (r ∷ rs)
    back x = sym (same x)

    start : r.start ≡ q.start
    start = omega (arith, first-le r rs q qs h k same, first-le q qs r rs k h back)

    first : r ≡ q
    first =
        same_range r q start
          (omega (arith, stop-le r rs q qs h k same start, stop-le q qs r rs k h back (sym start)))
