-- ===== src/Ui/Laws.antt =====
-- Controls of a part of a view are controls of the whole, and the other way round.
use kvrocks_controller.Common.{List, [], false, inl, inr, true, ◌++◌, ◌∷◌, ◌⊎◌}
use kvrocks_controller.Ui.{
  Offers, Shown, alert, button, child, chip, choice, icon, link, text, text_field,
}

pub Offers-append :
    {A : Type 0} (xs ys : List (Shown A)) (a : A) → Offers (xs ++ ys) a → Offers xs a ⊎ Offers ys a
Offers-append [] ys a h = inr h
Offers-append (button l false b ∷ xs) ys a (inl e) = inl (inl e)
Offers-append (button l false b ∷ xs) ys a (inr h) = elim (Offers-append xs ys a h) [
  | inl p ↦ inl (inr p)
  | inr p ↦ inr p
]
Offers-append (choice l c b ∷ xs) ys a (inl e) = inl (inl e)
Offers-append (choice l c b ∷ xs) ys a (inr h) = elim (Offers-append xs ys a h) [
  | inl p ↦ inl (inr p)
  | inr p ↦ inr p
]
Offers-append (button l true b ∷ xs) ys a h = Offers-append xs ys a h
Offers-append (text t ∷ xs) ys a h = Offers-append xs ys a h
Offers-append (child t ∷ xs) ys a h = Offers-append xs ys a h
Offers-append (icon t ∷ xs) ys a h = Offers-append xs ys a h
Offers-append (chip t ∷ xs) ys a h = Offers-append xs ys a h
Offers-append (alert t v ∷ xs) ys a h = Offers-append xs ys a h
Offers-append (text_field t v b ∷ xs) ys a h = Offers-append xs ys a h
Offers-append (link t ∷ xs) ys a h = Offers-append xs ys a h

pub Offers-right : {A : Type 0} (xs ys : List (Shown A)) (a : A) → Offers ys a → Offers (xs ++ ys) a
Offers-right [] ys a h = h
Offers-right (button l false b ∷ xs) ys a h = inr (Offers-right xs ys a h)
Offers-right (choice l c b ∷ xs) ys a h = inr (Offers-right xs ys a h)
Offers-right (button l true b ∷ xs) ys a h = Offers-right xs ys a h
Offers-right (text t ∷ xs) ys a h = Offers-right xs ys a h
Offers-right (child t ∷ xs) ys a h = Offers-right xs ys a h
Offers-right (icon t ∷ xs) ys a h = Offers-right xs ys a h
Offers-right (chip t ∷ xs) ys a h = Offers-right xs ys a h
Offers-right (alert t v ∷ xs) ys a h = Offers-right xs ys a h
Offers-right (text_field t v b ∷ xs) ys a h = Offers-right xs ys a h
Offers-right (link t ∷ xs) ys a h = Offers-right xs ys a h
