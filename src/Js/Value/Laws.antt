-- ===== src/Js/Value/Laws.antt =====
-- How the comparisons of the source read the values that the controller sends for a slot.
use kvrocks_controller.Common.{[], arith, false, refl, true, ℕ, ◌++◌, ◌∷◌, ◌≡◌}
use kvrocks_controller.Common.Int.{negsuc}
use kvrocks_controller.Js.Decimal.{show_ℕ}
use kvrocks_controller.Js.Decimal.Laws.{show_ℕ-digits, show_ℕ-ne-nil}
use kvrocks_controller.Js.Number.{int}
use kvrocks_controller.Js.Number.Laws.{to_number-show_ℕ, to_number_of_range}
use kvrocks_controller.Js.Text.{Text, codes}
use kvrocks_controller.Js.Value.{
  Result, arr, at_least_zero, nil, no_fields, null, num, obj, ok, str, throw, undefined, ◌>>=◌,
}

-- The text of a slot range with two ends, as the controller prints it.
abbrev pub range_text : ℕ → ℕ → Text
range_text a b = show_ℕ a ++ b'-' ∷ show_ℕ b

pub at_least_zero-null : at_least_zero null ≡ true
unfolding at_least_zero
at_least_zero-null = refl

pub at_least_zero-undefined : at_least_zero undefined ≡ false
unfolding at_least_zero
at_least_zero-undefined = refl

pub at_least_zero-show_ℕ : (n : ℕ) → at_least_zero (str (show_ℕ n)) ≡ true
unfolding at_least_zero
at_least_zero-show_ℕ n = rw to_number-show_ℕ (ground arith)

pub at_least_zero-range_text : (a b : ℕ) → at_least_zero (str (range_text a b)) ≡ false
unfolding at_least_zero
at_least_zero-range_text a b =
    rw (
      to_number_of_range (show_ℕ a) (show_ℕ b) (show_ℕ-digits a) (show_ℕ-ne-nil a)
        (show_ℕ-digits b))

coerce_tests :
    (at_least_zero (num (int (negsuc 0))) ≡ false)
    × (at_least_zero (str (codes "-1")) ≡ false)
    × (at_least_zero (str []) ≡ true)
    × (at_least_zero (arr nil) ≡ true)
    × (at_least_zero (obj no_fields) ≡ false)
unfolding at_least_zero
coerce_tests = (refl, refl, refl, refl, refl)

-- Inversion of a chain that did not throw.
pub >>=-eq-ok {ℓ κ} :
    {X : Type ℓ} {Y : Type κ} {y : Y} (r : Result X) (next : X → Result Y)
    → (r >>= next) ≡ ok y
    → (x : X) × (r ≡ ok x) × (next x ≡ ok y)
>>=-eq-ok (throw t) next e = cc
>>=-eq-ok (ok x) next e = (x, refl, e)
