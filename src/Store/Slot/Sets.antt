-- ===== src/Store/Slot/Sets.antt =====
-- store/slot.go: a list of ranges as a set of slots, and what sorting keeps of it.
use mathlib.Core.List.{Mem, foldr, Perm, mem-cons, not-mem-nil, mem-cons_self, mem-cons_of_mem}
use mathlib.Core.List.Perm
use mathlib.Core.Logic.Or
use mathlib.Core.Bool.{Bool-set}
use kvrocks_controller.Common.{
  All, Bool, List, [], any, arith, false, refl, sym, true, ℕ, ◌++◌, ◌+◌, ◌<◌, ◌||◌, ◌↔◌, ◌∙◌, ◌∷◌,
  ◌≡◌, ◌≤◌,
}
use kvrocks_controller.Js.Text.{same}
use kvrocks_controller.Store.Slot.{SlotRange, contains}

-- A range that is not empty.
abbrev pub IsRange : SlotRange → Type 0
IsRange r = r.start ≤ r.stop

-- The canonical lists: no range is empty, and a gap stands between one range and the next.
abbrev pub IsNormal : List SlotRange → Type 0
IsNormal [] = Unit
IsNormal (r ∷ rs) = IsRange r × All (λ q. r.stop + 1 < q.start) rs × IsNormal rs

pub IsNormal-IsRange : (rs : List SlotRange) → IsNormal rs → All IsRange rs
IsNormal-IsRange [] h = tt
IsNormal-IsRange (r ∷ rs) (p, gap, h) = (p, IsNormal-IsRange rs h)

module _ {ℓ κ} {A : Type ℓ} (P : A → Type κ) where
  pub All-Mem : ((a : A) → IsProp (P a)) → {a : A} (xs : List A) → All P xs → Mem a xs → P a
  All-Mem prop [] h m = absurd (not-mem-nil m)
  All-Mem prop {a} (x ∷ xs) (p, h) m =
      Or.elim (prop a) (mem-cons.0 m) (λ e. rw e p) (All-Mem prop xs h)

  pub Mem-All : (xs : List A) → ((a : A) → Mem a xs → P a) → All P xs
  Mem-All [] f = tt
  Mem-All (x ∷ xs) f = (f x mem-cons_self, Mem-All xs (λ a m. f a (mem-cons_of_mem x m)))

  pub All-perm : ((a : A) → IsProp (P a)) → {xs ys : List A} → Perm xs ys → All P ys → All P xs
  All-perm prop {xs} {ys} p h = Mem-All xs (λ a m. All-Mem prop ys h ((Perm.mem_iff p).0 m))

pub any-append {ℓ} :
    {A : Type ℓ} (p : A → Bool) (xs ys : List A) → any p (xs ++ ys) ≡ (any p xs || any p ys)
unfolding any
any-append p [] ys = refl
any-append p (x ∷ xs) ys = rw (any-append p xs ys) (ground arith)

pub contains_iff : (r : SlotRange) (x : ℕ) → (contains r x ≡ true) ↔ ((r.start ≤ x) × (x ≤ r.stop))
unfolding contains
contains_iff r x = ground arith

any-foldr {ℓ} :
    {A : Type ℓ} (p : A → Bool) (xs : List A) → any p xs ≡ foldr (λ a b. p a || b) false xs
unfolding any
any-foldr p [] = refl
any-foldr p (x ∷ xs) = rw (any-foldr p xs) refl

pub any-perm {ℓ} : {A : Type ℓ} (p : A → Bool) {xs ys : List A} → Perm xs ys → any p xs ≡ any p ys
any-perm p {xs} {ys} same =
    any-foldr p xs
    ∙ Perm.foldr-eq Bool-set (λ a b. p a || b) (λ a b x. or_swap (p a) (p b) x) same false
    ∙ sym (any-foldr p ys)
  where
    or_swap : (a b x : Bool) → (a || (b || x)) ≡ (b || (a || x))
    or_swap a b x = ground arith

-- Every range of the list starts at `n` or later.
abbrev pub From : ℕ → List SlotRange → Type 0
From n = All (λ q. n ≤ q.start)

pub From-weaken : (m n : ℕ) (rs : List SlotRange) → m ≤ n → From n rs → From m rs
From-weaken m n [] h k = tt
From-weaken m n (r ∷ rs) h (p, k) = (omega arith, From-weaken m n rs h k)

pub From-zero : (rs : List SlotRange) → From 0 rs
From-zero [] = tt
From-zero (r ∷ rs) = (omega arith, From-zero rs)
