-- ===== src/Js/Number/Laws.antt =====
-- How printed numbers are read back.
use kvrocks_controller.Common.{
  All, All-append, Option, [], ap, arith, false, none, refl, some, ℕ, ◌*◌, ◌++◌, ◌+◌, ◌-◌, ◌<◌, ◌∙◌,
  ◌∷◌, ◌≡◌, ◌≢◌,
}
use kvrocks_controller.Common.Int.{negsuc}
use kvrocks_controller.Js.Decimal.{digit?, show_ℕ}
use kvrocks_controller.Js.Decimal.Laws.{
  IsDigit, digit?-decimal, digits-IsSolid, digits_value, digits_value-show_ℕ, show_ℕ-digits,
  show_ℕ-ne-nil,
}
use kvrocks_controller.Js.Number.{
  int, more_digits, nan, num_ℕ, parse_int, read_all, read_int, read_prefix, split_sign, to_number,
}
use kvrocks_controller.Js.Text.{Text, codes, is_space, starts_with}
use kvrocks_controller.Js.Text.Laws.{IsSolid, trim_of_All, trim_start_of_solid}

read_prefix-some :
    (n : ℕ) (s : Text) → All IsDigit s → read_prefix 10 (some n) s ≡ some (digits_value n s)
unfolding digits_value more_digits read_prefix
read_prefix-some n [] h = refl
read_prefix-some n (c ∷ s) (p, h) =
    rw (digit?-decimal c p, read_prefix) (read_prefix-some (n * 10 + (c - b'0')) s h)

read_prefix-none :
    (c : ℕ) (s : Text)
    → All IsDigit (c ∷ s)
    → read_prefix 10 none (c ∷ s) ≡ some (digits_value 0 (c ∷ s))
unfolding digits_value more_digits read_prefix
read_prefix-none c s (p, h) =
    rw (digit?-decimal c p, read_prefix)
      (read_prefix-some (c - b'0') s h ∙ ap (λ n. some (digits_value n s)) (omega arith))

read_all-some : (n : ℕ) (s : Text) → All IsDigit s → read_all (some n) s ≡ some (digits_value n s)
unfolding digits_value more_digits read_all
read_all-some n [] h = refl
read_all-some n (c ∷ s) (p, h) =
    rw (digit?-decimal c p, read_all) (read_all-some (n * 10 + (c - b'0')) s h)

read_all-none :
    (c : ℕ) (s : Text) → All IsDigit (c ∷ s) → read_all none (c ∷ s) ≡ some (digits_value 0 (c ∷ s))
unfolding digits_value more_digits read_all
read_all-none c s (p, h) =
    rw (digit?-decimal c p, read_all)
      (read_all-some (c - b'0') s h ∙ ap (λ n. some (digits_value n s)) (omega arith))

split_sign_of_digit : (c : ℕ) (s : Text) → IsDigit c → split_sign (c ∷ s) ≡ (false, c ∷ s)
unfolding split_sign
split_sign_of_digit c s h = ground arith

no_radix_prefix :
    (x : ℕ) (s : Text) → All IsDigit s → b'9' < x → starts_with s (b'0' ∷ x ∷ []) ≡ false
unfolding starts_with
no_radix_prefix x [] h k = refl
no_radix_prefix x (c ∷ []) h k = ground arith
no_radix_prefix x (c ∷ d ∷ s) h k = ground arith

read_int_of_digits :
    (c : ℕ) (s : Text) → All IsDigit (c ∷ s) → read_int (c ∷ s) ≡ some (digits_value 0 (c ∷ s))
unfolding read_int
read_int_of_digits c s h =
    rw (no_radix_prefix b'x' (c ∷ s) h (omega arith), no_radix_prefix b'X' (c ∷ s) h (omega arith))
      (read_prefix-none c s h)

-- A text of digits is read as their value, by `parseInt` and by `Number`.
pub parse_int_of_digits :
    (s : Text) → All IsDigit s → s ≢ [] → parse_int s ≡ num_ℕ (digits_value 0 s)
unfolding parse_int
parse_int_of_digits [] h k = absurd (k refl)
parse_int_of_digits (c ∷ s) h k = rw (
  trim_start_of_solid c s (digits-IsSolid (c ∷ s) h).0,
  split_sign_of_digit c s h.0,
  read_int_of_digits c s h,
)

pub to_number_of_digits :
    (s : Text) → All IsDigit s → s ≢ [] → to_number s ≡ num_ℕ (digits_value 0 s)
unfolding to_number
to_number_of_digits [] h k = absurd (k refl)
to_number_of_digits (c ∷ s) h k = rw (
  trim_of_All (c ∷ s) (digits-IsSolid (c ∷ s) h),
  split_sign_of_digit c s h.0,
  read_all-none c s h,
)

-- Printing a number and reading it back gives the number.
pub parse_int-show_ℕ : (n : ℕ) → parse_int (show_ℕ n) ≡ num_ℕ n
parse_int-show_ℕ n =
    parse_int_of_digits (show_ℕ n) (show_ℕ-digits n) (show_ℕ-ne-nil n)
    ∙ ap num_ℕ (digits_value-show_ℕ n)

pub to_number-show_ℕ : (n : ℕ) → to_number (show_ℕ n) ≡ num_ℕ n
to_number-show_ℕ n =
    to_number_of_digits (show_ℕ n) (show_ℕ-digits n) (show_ℕ-ne-nil n)
    ∙ ap num_ℕ (digits_value-show_ℕ n)

read_all_stops : (acc : Option ℕ) (s t : Text) → All IsDigit s → read_all acc (s ++ b'-' ∷ t) ≡ none
unfolding digit? read_all
read_all_stops acc [] t h = refl
read_all_stops acc (c ∷ s) t (p, h) =
    unfold more_digits in
    rw (digit?-decimal c p, read_all) (read_all_stops (some (more_digits 10 acc (c - b'0'))) s t h)

read_prefix_stops :
    (n c : ℕ) (s t : Text)
    → All IsDigit s
    → digit? 10 c ≡ none
    → read_prefix 10 (some n) (s ++ c ∷ t) ≡ some (digits_value n s)
unfolding digits_value more_digits read_prefix
read_prefix_stops n c [] t h k = rw (k, read_prefix)
read_prefix_stops n c (d ∷ s) t (p, h) k =
    rw (digit?-decimal d p, read_prefix) (read_prefix_stops (n * 10 + (d - b'0')) c s t h k)

not_radix_prefix :
    (x c d : ℕ) (s t : Text)
    → All IsDigit (d ∷ s)
    → b'9' < x
    → c ≢ x
    → starts_with (d ∷ s ++ c ∷ t) (b'0' ∷ x ∷ []) ≡ false
unfolding starts_with
not_radix_prefix x c d [] t h k e = ground arith
not_radix_prefix x c d (a ∷ s) t h k e = ground arith

read_int_of_prefix :
    (c d : ℕ) (s t : Text)
    → All IsDigit (d ∷ s)
    → digit? 10 c ≡ none
    → c ≢ b'x'
    → c ≢ b'X'
    → read_int (d ∷ s ++ c ∷ t) ≡ some (digits_value 0 (d ∷ s))
unfolding digits_value read_prefix read_int
read_int_of_prefix c d s t h e x y =
    rw
      (
        not_radix_prefix b'x' c d s t h (omega arith) x,
        not_radix_prefix b'X' c d s t h (omega arith) y,
        digit?-decimal d h.0,
        read_prefix,
      )
      (read_prefix_stops (d - b'0') c s t h.1 e ∙ ap (λ n. some (digits_value n s)) (omega arith))

-- What `parseInt` reads of a text that begins with digits: those digits, where what follows is
-- neither a digit nor the letter of a hexadecimal prefix.
pub parse_int_of_prefix :
    (c : ℕ) (s t : Text)
    → All IsDigit s
    → s ≢ []
    → digit? 10 c ≡ none
    → c ≢ b'x'
    → c ≢ b'X'
    → parse_int (s ++ c ∷ t) ≡ num_ℕ (digits_value 0 s)
unfolding parse_int
parse_int_of_prefix c [] t h k e x y = absurd (k refl)
parse_int_of_prefix c (d ∷ s) t h k e x y = rw (
  trim_start_of_solid d (s ++ c ∷ t) (digits-IsSolid (d ∷ s) h).0,
  split_sign_of_digit d (s ++ c ∷ t) h.0,
  read_int_of_prefix c d s t h e x y,
)

-- A range of slots "a-b", with digits before the dash, is no number.
pub to_number_of_range :
    (s t : Text) → All IsDigit s → s ≢ [] → All IsDigit t → to_number (s ++ b'-' ∷ t) ≡ nan
unfolding to_number
to_number_of_range [] t h k e = absurd (k refl)
to_number_of_range (c ∷ s) t h k e = rw (
  trim_of_All (c ∷ s ++ b'-' ∷ t) (
      All-append IsSolid (c ∷ s) (b'-' ∷ t) (digits-IsSolid (c ∷ s) h)
        (unfold is_space in refl, digits-IsSolid t e)),
  split_sign_of_digit c (s ++ b'-' ∷ t) h.0,
  read_all_stops none (c ∷ s) t h,
)

parse_int_tests :
    (parse_int (codes " 42px") ≡ num_ℕ 42)
    × (parse_int (codes "-7") ≡ int (negsuc 6))
    × (parse_int (codes "0x1F") ≡ num_ℕ 31)
    × (parse_int (codes "x") ≡ nan)
    × (parse_int (codes "") ≡ nan)
unfolding parse_int
parse_int_tests = (refl, refl, refl, refl, refl)

to_number_tests :
    (to_number (codes " 42 ") ≡ num_ℕ 42)
    × (to_number (codes "-1") ≡ int (negsuc 0))
    × (to_number (codes "100-200") ≡ nan)
    × (to_number (codes "") ≡ num_ℕ 0)
unfolding to_number
to_number_tests = (refl, refl, refl, refl)
