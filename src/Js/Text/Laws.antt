-- ===== src/Js/Text/Laws.antt =====
-- Laws of the text methods.
use kvrocks_controller.Common.{
  Bool-cases, inl, inr, ==_iff, All, Bool-cases, List, [], arith, false, inl, inr, refl, true, ℕ,
  ◌++◌, ◌==◌, ◌↔◌, ◌∷◌, ◌≡◌, ◌≢◌,
}
use kvrocks_controller.Js.Text.{
  includes, starts_with, Text, cons_first, contains_space, includes_unit, is_space, same, split,
  trim, trim_end, trim_start,
}

pub same_iff : (s t : Text) → (same s t ≡ true) ↔ (s ≡ t)
same_iff [] [] = ground arith
same_iff [] (b ∷ t) = ground arith
same_iff (a ∷ s) [] = ground arith
same_iff (a ∷ s) (b ∷ t) = ground (arith, same_iff s t)

pub same_refl : (s : Text) → same s s ≡ true
same_refl s = (same_iff s s).1 refl

abbrev pub IsSolid : ℕ → Type 0
IsSolid c = is_space c ≡ false

pub trim_start_of_solid : (c : ℕ) (s : Text) → IsSolid c → trim_start (c ∷ s) ≡ c ∷ s
unfolding trim_start
trim_start_of_solid c s h = rw h

pub trim_end_of_All : (s : Text) → All IsSolid s → trim_end s ≡ s
unfolding trim_end
trim_end_of_All [] h = refl
trim_end_of_All (c ∷ s) (p, h) = rw (p, trim_end_of_All s h)

pub trim_of_All : (s : Text) → All IsSolid s → trim s ≡ s
unfolding trim
trim_of_All [] h = refl
trim_of_All (c ∷ s) h = rw (trim_start_of_solid c s h.0) (trim_end_of_All (c ∷ s) h)

pub contains_space_iff : (s : Text) → (contains_space s ≡ false) ↔ All IsSolid s
unfolding contains_space
contains_space_iff [] = ground arith
contains_space_iff (c ∷ s) = ground (arith, contains_space_iff s)

abbrev pub Lacks : ℕ → Text → Type 0
Lacks c s = All (λ a. (a == c) ≡ false) s

pub includes_unit-false_iff : (c : ℕ) (s : Text) → (includes_unit c s ≡ false) ↔ Lacks c s
unfolding includes_unit
includes_unit-false_iff c [] = ground arith
includes_unit-false_iff c (a ∷ s) = ground (arith, includes_unit-false_iff c s)

pub includes_unit-append : (c : ℕ) (s t : Text) → includes_unit c (s ++ c ∷ t) ≡ true
unfolding includes_unit
includes_unit-append c [] t = rw ((==_iff c c).1 refl)
includes_unit-append c (a ∷ s) t = ground (arith, includes_unit-append c s t)

pub split_of_Lacks : (c : ℕ) (s : Text) → Lacks c s → split c s ≡ s ∷ []
unfolding split
split_of_Lacks c [] h = refl
split_of_Lacks c (a ∷ s) (p, h) = rw (p, split_of_Lacks c s h)

pub split-append : (c : ℕ) (s t : Text) → Lacks c s → split c (s ++ c ∷ t) ≡ s ∷ split c t
unfolding split
split-append c [] t h = rw ((==_iff c c).1 refl)
split-append c (a ∷ s) t (p, h) = rw (p, split-append c s t h)

cons_first-ne-nil : (a : ℕ) (ps : List Text) → cons_first a ps ≢ []
unfolding cons_first
cons_first-ne-nil a [] = cc
cons_first-ne-nil a (p ∷ ps) = cc

split-ne-nil : (c : ℕ) (s : Text) → split c s ≢ []
unfolding split
split-ne-nil c [] = cc
split-ne-nil c (a ∷ s) = elim (Bool-cases (a == c)) [
  | inl here ↦ rw (here, split) (cc)
  | inr there ↦ rw (there, split) (cons_first-ne-nil a (split c s))
]

cons_first-append :
    (a : ℕ) (ps qs : List Text) → ps ≢ [] → cons_first a (ps ++ qs) ≡ cons_first a ps ++ qs
unfolding cons_first
cons_first-append a [] qs h = absurd (h refl)
cons_first-append a (p ∷ ps) qs h = refl

-- Splitting at a separator that stands between two texts gives the parts of both.
pub split-append_all : (c : ℕ) (s t : Text) → split c (s ++ c ∷ t) ≡ split c s ++ split c t
unfolding split
split-append_all c [] t = rw ((==_iff c c).1 refl)
split-append_all c (a ∷ s) t =
    ground (
      arith,
      split-append_all c s t,
      cons_first-append a (split c s) (split c t) (split-ne-nil c s),
    )

-- One text stands somewhere in another.
abbrev pub IsWithin : Text → Text → Type 0
IsWithin t s = (front : Text) × (rest : Text) × (s ≡ front ++ (t ++ rest))

starts_with-rest : (s t : Text) → starts_with s t ≡ true → (rest : Text) × (s ≡ t ++ rest)
unfolding starts_with
starts_with-rest s [] h = (s, refl)
starts_with-rest [] (b ∷ t) h = cc
starts_with-rest (a ∷ s) (b ∷ t) h =
    let (rest, e) = starts_with-rest s t (ground arith) in
    let same_unit : a ≡ b = ground arith in (rest, cc)

starts_with-append : (t rest : Text) → starts_with (t ++ rest) t ≡ true
unfolding starts_with
starts_with-append [] rest = starts_with-nil rest
  where
    starts_with-nil : (s : Text) → starts_with s [] ≡ true
    starts_with-nil [] = refl
    starts_with-nil (a ∷ s) = refl
starts_with-append (a ∷ t) rest = let ih = starts_with-append t rest in ground arith

pub includes-IsWithin : (s t : Text) → includes s t ≡ true → IsWithin t s
unfolding includes
includes-IsWithin [] t h = let (rest, e) = starts_with-rest [] t h in ([], rest, e)
includes-IsWithin (a ∷ s) t h = elim (Bool-cases (starts_with (a ∷ s) t)) [
  | inl here ↦ let (rest, e) = starts_with-rest (a ∷ s) t here in ([], rest, e)
  | inr there ↦ let (front, rest, e) = includes-IsWithin s t (ground arith) in (a ∷ front, rest, cc)
]

pub includes-append : (front t rest : Text) → includes (front ++ (t ++ rest)) t ≡ true
unfolding includes
includes-append [] t rest = at_front (t ++ rest) (starts_with-append t rest)
  where
    at_front : (s : Text) → starts_with s t ≡ true → includes s t ≡ true
    at_front [] h = h
    at_front (a ∷ s) h = rw h refl
includes-append (a ∷ front) t rest = let ih = includes-append front t rest in ground arith
