-- ===== src/Js/Sort/Laws.antt =====
-- The elements of a sorted list, and their order.
use mathlib.Core.List.{Perm, perm_middle}
use mathlib.Core.List.Perm
use kvrocks_controller.Common.{
  All, Bool, Bool-cases, List, [], arith, false, filter, inl, inr, not, ◌++◌, length, refl, suc,
  true, ◌∙◌, ◌∷◌, ◌≡◌,
}
use kvrocks_controller.Js.Number.{Num}
use kvrocks_controller.Js.Sort.{after, insert, sort}

module _ {ℓ} {A : Type ℓ} (compare : A → A → Num) where
  insert-perm : (x : A) (xs : List A) → Perm (insert compare x xs) (x ∷ xs)
  unfolding insert
  insert-perm x [] = Perm.refl (x ∷ [])
  insert-perm x (y ∷ ys) = elim (Bool-cases (after compare x y)) [
    | inl later ↦ rw later (Perm.trans (Perm.cons y (insert-perm x ys)) (Perm.swap x y ys))
    | inr now ↦ rw now (Perm.refl (x ∷ y ∷ ys))
  ]

  length-insert : (x : A) (xs : List A) → length (insert compare x xs) ≡ suc (length xs)
  unfolding insert
  length-insert x [] = refl
  length-insert x (y ∷ ys) = elim (Bool-cases (after compare x y)) [
    | inl later ↦ rw later (omega (arith, length-insert x ys))
    | inr now ↦ rw now refl
  ]

  pub length-sort : (xs : List A) → length (sort compare xs) ≡ length xs
  unfolding sort
  length-sort [] = refl
  length-sort (x ∷ xs) = omega (arith, length-insert x (sort compare xs), length-sort xs)

  -- The result has the elements of the list, each as often.
  pub sort-perm : (xs : List A) → Perm (sort compare xs) xs
  unfolding sort
  sort-perm [] = Perm.refl []
  sort-perm (x ∷ xs) = Perm.trans (insert-perm x (sort compare xs)) (Perm.cons x (sort-perm xs))

  -- The comparison function is consistent: it orders the elements up to ties.
  pub record IsOrder : Type ℓ where
    pub asymmetric : (x y : A) → after compare x y ≡ true → after compare y x ≡ false
    pub transitive :
        (x y z : A)
        → after compare x y ≡ false
        → after compare y z ≡ false
        → after compare x z ≡ false

  -- No element is to come after a later one.
  abbrev pub IsSorted : List A → Type ℓ
  IsSorted [] = Unit
  IsSorted (x ∷ xs) = All (λ y. after compare x y ≡ false) xs × IsSorted xs

  module _ (order : IsOrder) where
    All-insert :
        (z x : A) (xs : List A)
        → after compare z x ≡ false
        → All (λ y. after compare z y ≡ false) xs
        → All (λ y. after compare z y ≡ false) (insert compare x xs)
    unfolding insert
    All-insert z x [] p h = (p, tt)
    All-insert z x (y ∷ ys) p (q, h) = ground (arith, All-insert z x ys p h)

    All-weaken :
        (x y : A) (ys : List A)
        → after compare x y ≡ false
        → All (λ z. after compare y z ≡ false) ys
        → All (λ z. after compare x z ≡ false) ys
    All-weaken x y [] p h = tt
    All-weaken x y (z ∷ zs) p (q, h) = (order.transitive x y z p q, All-weaken x y zs p h)

    insert-IsSorted : (x : A) (xs : List A) → IsSorted xs → IsSorted (insert compare x xs)
    unfolding insert
    insert-IsSorted x [] h = (tt, tt)
    insert-IsSorted x (y ∷ ys) (p, h) = elim (Bool-cases (after compare x y)) [
      | inl later ↦
          rw later (All-insert y x ys (order.asymmetric x y later) p, insert-IsSorted x ys h)
      | inr now ↦ rw now ((now, All-weaken x y ys now p), (p, h))
    ]

    pub sort-IsSorted : (xs : List A) → IsSorted (sort compare xs)
    unfolding sort
    sort-IsSorted [] = tt
    sort-IsSorted (x ∷ xs) = insert-IsSorted x (sort compare xs) (sort-IsSorted xs)

  module _ (p : A → Bool)
      (ties : (x y : A) → p x ≡ true → p y ≡ true → after compare x y ≡ false) where
    insert_stable : (x : A) (xs : List A) → filter p (insert compare x xs) ≡ filter p (x ∷ xs)
    unfolding insert filter
    insert_stable x [] = refl
    insert_stable x (y ∷ ys) = ground (arith, ties x y, insert_stable x ys)

    -- Elements that all tie with one another keep the order that they had.
    pub sort_stable : (xs : List A) → filter p (sort compare xs) ≡ filter p xs
    unfolding sort filter
    sort_stable [] = refl
    sort_stable (x ∷ xs) = insert_stable x (sort compare xs) ∙ ground (arith, sort_stable xs)

module _ {ℓ κ} {A : Type ℓ} (compare : A → A → Num) (P : A → Type κ) where
  insert-All : (x : A) (ys : List A) → P x → All P ys → All P (insert compare x ys)
  unfolding insert
  insert-All x [] p h = (p, tt)
  insert-All x (y ∷ ys) p (q, h) = elim (Bool-cases (after compare x y)) [
    | inl later ↦ rw later (q, insert-All x ys p h)
    | inr now ↦ rw now (p, (q, h))
  ]

  pub sort-All : (xs : List A) → All P xs → All P (sort compare xs)
  unfolding sort
  sort-All [] h = tt
  sort-All (x ∷ xs) (p, h) = insert-All x (sort compare xs) p (sort-All xs h)

pub filter-All {ℓ κ} :
    {A : Type ℓ} (P : A → Type κ) (test : A → Bool)
    → ((x : A) → test x ≡ true → P x)
    → (xs : List A) → All P (filter test xs)
unfolding filter
filter-All P test f [] = tt
filter-All P test f (x ∷ xs) = elim (Bool-cases (test x)) [
  | inl kept ↦ rw kept (f x kept, filter-All P test f xs)
  | inr dropped ↦ rw dropped (filter-All P test f xs)
]

-- What a test keeps and what it drops make up the list.
pub filter-perm {ℓ} :
    {A : Type ℓ} (test : A → Bool) (xs : List A)
    → Perm (filter test xs ++ filter (λ x. not (test x)) xs) xs
unfolding filter
filter-perm test [] = Perm.refl []
filter-perm test (x ∷ xs) = elim (Bool-cases (test x)) [
  | inl kept ↦ rw kept (Perm.cons x (filter-perm test xs))
  | inr dropped ↦ rw dropped (
      Perm.trans (perm_middle (filter test xs) (filter (λ x. not (test x)) xs))
        (Perm.cons x (filter-perm test xs)))
]

-- Each element is related to all that follow it.
abbrev pub Ordered {ℓ κ} : {A : Type ℓ} → (A → A → Type κ) → List A → Type κ
Ordered R [] = Unit
Ordered R (x ∷ xs) = All (R x) xs × Ordered R xs

module _ {ℓ κ} {A : Type ℓ} (compare : A → A → Num) (order : IsOrder compare) {R : A → A → Type κ}
    (reads : (x y : A) → after compare x y ≡ false → R x y) where
  All-reads : (x : A) (xs : List A) → All (λ y. after compare x y ≡ false) xs → All (R x) xs
  All-reads x [] h = tt
  All-reads x (y ∷ ys) (p, h) = (reads x y p, All-reads x ys h)

  IsSorted-Ordered : (xs : List A) → IsSorted compare xs → Ordered R xs
  IsSorted-Ordered [] h = tt
  IsSorted-Ordered (x ∷ xs) (p, h) = (All-reads x xs p, IsSorted-Ordered xs h)

  -- A sorted list is ordered by what the comparison stands for.
  pub sort-Ordered : (xs : List A) → Ordered R (sort compare xs)
  sort-Ordered xs = IsSorted-Ordered _ (sort-IsSorted compare order xs)

-- Where no two elements of a list are out of order, sorting leaves the list as it is.
module _ {ℓ κ} {A : Type ℓ} (compare : A → A → Num) (P : A → Type κ)
    (ties : (x y : A) → P x → P y → after compare x y ≡ false) where
  insert_of_ties : (x : A) (ys : List A) → P x → All P ys → insert compare x ys ≡ x ∷ ys
  unfolding insert
  insert_of_ties x [] p h = refl
  insert_of_ties x (y ∷ ys) p (q, h) = rw (ties x y p q)

  pub sort_of_ties : (xs : List A) → All P xs → sort compare xs ≡ xs
  unfolding sort
  sort_of_ties [] h = refl
  sort_of_ties (x ∷ xs) (p, h) = rw (sort_of_ties xs h) (insert_of_ties x xs p h)
