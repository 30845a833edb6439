-- ===== src/Js/Sort.antt =====
-- `Array.prototype.sort`: stable, by a comparison function whose sign orders two elements.
pub mod Laws
use kvrocks_controller.Common.{Bool, List, [], if◌then◌else◌, ◌∷◌}
use kvrocks_controller.Common.Int.{pos}
use kvrocks_controller.Js.Number.{Num, int, num_lt}

module _ {ℓ} {A : Type ℓ} (compare : A → A → Num) where
  -- A comparison that gives NaN counts as zero: the elements stay in their order.
  unfoldable pub after : A → A → Bool
  after x y = num_lt (int (pos 0)) (compare x y)

  insert : A → List A → List A
  unfolding after
  insert x [] = x ∷ []
  insert x (y ∷ ys) = let rest = y ∷ insert x ys in if after x y then rest else x ∷ y ∷ ys

  -- Insertion from the right keeps the elements that compare as equal in their order; where the
  -- comparison function is consistent, every stable sort has this result.
  unfoldable pub sort : List A → List A
  unfolding insert
  sort [] = []
  sort (x ∷ xs) = insert x (sort xs)
