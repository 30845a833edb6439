-- ===== src/Store/Slot/Canonical.antt =====
-- store/slot.go: canonical lists. Sorting keeps them, and a set has at most one.
use mathlib.Core.List.{Pairwise}
use mathlib.Core.List.Perm
use mathlib.Core.Bool.{Bool-set}
use native.Mathlib.Bridge.{le_prop}
use kvrocks_controller.Common.{
  All, Bool, List, [], arith, false, ltb, true, ◌+◌, ◌<◌, ◌||◌, ◌∷◌, ◌≡◌,
}
use kvrocks_controller.Store.Slot.{IsAscending, IsSliceSort, SlotRange, starts_before}
use kvrocks_controller.Store.Slot.Sets.{
  All-Mem, All-perm, IsNormal, IsNormal-IsRange, IsRange, Mem-All,
}

-- A gap stands between two ranges, in one order or the other.
abbrev apart : SlotRange → SlotRange → Bool
apart a b = ltb (a.stop + 1) b.start || ltb (b.stop + 1) a.start

abbrev Apart : SlotRange → SlotRange → Type 0
Apart a b = apart a b ≡ true

IsNormal-Pairwise : (rs : List SlotRange) → IsNormal rs → Pairwise Apart rs
IsNormal-Pairwise [] h = Pairwise.nil
IsNormal-Pairwise (r ∷ rs) (p, gap, h) =
    Pairwise.cons
      (λ q m. ground (arith, All-Mem (λ q. r.stop + 1 < q.start) (λ q. le_prop) rs gap m))
      (IsNormal-Pairwise rs h)

Pairwise-IsNormal :
    (rs : List SlotRange) → Pairwise Apart rs → All IsRange rs → IsAscending rs → IsNormal rs
unfolding starts_before
Pairwise-IsNormal [] h ranges sorted = tt
Pairwise-IsNormal (r ∷ rs) (Pairwise.cons far h) (p, ranges) (later, sorted) =
    (p, gaps, Pairwise-IsNormal rs h ranges sorted)
  where
    gap :
        (q : SlotRange)
        → apart r q ≡ true
        → IsRange q
        → starts_before q r ≡ false
        → r.stop + 1 < q.start
    gap q a b c = ground arith

    gaps : All (λ q. r.stop + 1 < q.start) rs
    gaps = Mem-All _ rs (λ q m.
        gap q (far q m) (All-Mem IsRange (λ a. le_prop) rs ranges m)
          (All-Mem (λ a. starts_before a r ≡ false) (λ a. Bool-set _ _) rs later m))

module _ (sort_slice : (SlotRange → SlotRange → Bool) → List SlotRange → List SlotRange)
    (sorts : IsSliceSort sort_slice) where
  pub sort_slice-IsNormal :
      (rs : List SlotRange) → IsNormal rs → IsNormal (sort_slice starts_before rs)
  sort_slice-IsNormal rs h =
      let same = sorts.same_elements rs in
      Pairwise-IsNormal _
        (Perm.pairwise (λ a b. Bool-set _ _) (λ a b far. swap a b far) (Perm.symm same)
          (IsNormal-Pairwise rs h))
        (All-perm IsRange (λ r. le_prop) same (IsNormal-IsRange rs h)) (sorts.ascending rs)
    where
      swap : (a b : SlotRange) → apart a b ≡ true → apart b a ≡ true
      swap a b far = ground arith
