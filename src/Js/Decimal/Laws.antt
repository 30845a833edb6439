-- ===== src/Js/Decimal/Laws.antt =====
-- The digits of a printed number, and their value.
use kvrocks_controller.Common.{
  ℕ, zero, suc, ◌+◌, ◌-◌, ◌*◌, ◌/◌, ◌≤◌, ◌<◌, ◌≡◌, ◌≢◌, refl, Bool-cases, inl, inr, [], ◌∷◌, ◌++◌,
  some, arith, ltb, All, All-append,
}
use kvrocks_controller.Js.Text.{Text, is_space}
use kvrocks_controller.Js.Text.Laws.{IsSolid, Lacks}
use kvrocks_controller.Js.Decimal.{show_fuel, show_ℕ, digit?}

abbrev pub IsDigit : ℕ → Type 0
IsDigit c = (b'0' ≤ c) × (c ≤ b'9')

-- The value of a list of digits read after `acc`.
unfoldable pub digits_value : ℕ → Text → ℕ
digits_value acc [] = acc
digits_value acc (c ∷ s) = digits_value (acc * 10 + (c - b'0')) s

digits_value-append :
    (acc c : ℕ) (s : Text) → digits_value acc (s ++ c ∷ []) ≡ digits_value acc s * 10 + (c - b'0')
unfolding digits_value
digits_value-append acc c [] = refl
digits_value-append acc c (a ∷ s) = digits_value-append (acc * 10 + (a - b'0')) c s

show_fuel-digits : (f n : ℕ) → All IsDigit (show_fuel f n)
unfolding show_fuel
show_fuel-digits zero n = tt
show_fuel-digits (suc f) n = elim (Bool-cases (ltb n 10)) [
  | inl short ↦ rw short (ground arith)
  | inr long ↦
      rw long
        (All-append IsDigit (show_fuel f (n / 10)) _ (show_fuel-digits f (n / 10)) (omega arith))
]

show_fuel-value : (f n : ℕ) → n < f → digits_value 0 (show_fuel f n) ≡ n
unfolding show_fuel digits_value
show_fuel-value zero n h = absurd (omega arith)
show_fuel-value (suc f) n h = elim (Bool-cases (ltb n 10)) [
  | inl short ↦ rw short (omega arith)
  | inr long ↦ rw (long, digits_value-append) (ground (arith, show_fuel-value f (n / 10)))
]

pub show_ℕ-digits : (n : ℕ) → All IsDigit (show_ℕ n)
unfolding show_ℕ
show_ℕ-digits n = show_fuel-digits (suc n) n

-- The digits of a printed number have that number's value.
pub digits_value-show_ℕ : (n : ℕ) → digits_value 0 (show_ℕ n) ≡ n
unfolding show_ℕ
digits_value-show_ℕ n = show_fuel-value (suc n) n (omega arith)

append-ne-nil : (s : Text) (c : ℕ) → (s ++ c ∷ []) ≢ []
append-ne-nil [] c = cc
append-ne-nil (a ∷ s) c = cc

pub show_ℕ-ne-nil : (n : ℕ) → show_ℕ n ≢ []
unfolding show_ℕ
show_ℕ-ne-nil n = elim (Bool-cases (ltb n 10)) [
  | inl short ↦ rw (short, show_fuel) (cc)
  | inr long ↦ rw (long, show_fuel) (append-ne-nil (show_fuel n (n / 10)) _)
]

pub digits-IsSolid : (s : Text) → All IsDigit s → All IsSolid s
unfolding is_space
digits-IsSolid [] h = tt
digits-IsSolid (c ∷ s) (p, h) = (ground arith, digits-IsSolid s h)

pub digits-Lacks : (c : ℕ) (s : Text) → c < b'0' → All IsDigit s → Lacks c s
digits-Lacks c [] k h = tt
digits-Lacks c (a ∷ s) k (p, h) = (ground arith, digits-Lacks c s k h)

pub digit?-decimal : (c : ℕ) → IsDigit c → digit? 10 c ≡ some (c - b'0')
unfolding digit?
digit?-decimal c h = ground arith
