-- ===== src/Js/Number.antt =====
-- Numbers: the integers and NaN. Fractions, infinities and the rounding of integers from 2^53 on
-- are outside the model; the values that the source handles are slots, counts and times.
pub mod Laws
use kvrocks_controller.Common.{
  ℕ, zero, suc, ◌+◌, ◌*◌, Bool, true, false, not, ◌||◌, List, [], ◌∷◌, Option, none, some, ◌==◌,
  if◌then◌else◌,
}
use kvrocks_controller.Common.Int.{ℤ, pos, negsuc, ltb_ℤ, leb_ℤ, eqb_ℤ, ◌-ℤ◌}
use kvrocks_controller.Js.Text.{Text, codes, starts_with, trim_start, trim, is_empty}
use kvrocks_controller.Js.Decimal.{digit?, show_ℤ}

pub data Num : Type 0 where
  nan : Num
  int : ℤ → Num

abbrev pub num_ℕ : ℕ → Num
num_ℕ n = int (pos n)

-- `isNaN(n)`
abbrev pub is_nan : Num → Bool
is_nan nan = true
is_nan (int _) = false

-- `a < b`, `a <= b` and `a === b`, all false at NaN
abbrev pub num_lt : Num → Num → Bool
num_lt (int a) (int b) = ltb_ℤ a b
num_lt (int _) nan = false
num_lt nan _ = false

abbrev pub num_le : Num → Num → Bool
num_le (int a) (int b) = leb_ℤ a b
num_le (int _) nan = false
num_le nan _ = false

abbrev pub num_eq : Num → Num → Bool
num_eq (int a) (int b) = eqb_ℤ a b
num_eq (int _) nan = false
num_eq nan _ = false

-- `a - b`
abbrev pub num_sub : Num → Num → Num
num_sub (int a) (int b) = int (a -ℤ b)
num_sub (int _) nan = nan
num_sub nan _ = nan

-- `${n}`
unfoldable pub show_num : Num → Text
unfolding show_ℤ
show_num nan = codes "NaN"
show_num (int z) = show_ℤ z

unfoldable pub negate : ℕ → ℤ
negate zero = pos 0
negate (suc n) = negsuc n

with_sign : Bool → Option ℕ → Num
unfolding negate
with_sign _ none = nan
with_sign true (some n) = int (negate n)
with_sign false (some n) = int (pos n)

more_digits : ℕ → Option ℕ → ℕ → ℕ
more_digits radix none d = d
more_digits radix (some n) d = n * radix + d

-- The longest prefix of digits; `none` where there is none.
read_prefix : ℕ → Option ℕ → Text → Option ℕ
unfolding digit? more_digits
read_prefix radix acc [] = acc
read_prefix radix acc (c ∷ s) = elim (digit? radix c) [
  | none ↦ acc
  | some d ↦ read_prefix radix (some (more_digits radix acc d)) s
]

-- A text of decimal digits only.
read_all : Option ℕ → Text → Option ℕ
unfolding digit? more_digits
read_all acc [] = acc
read_all acc (c ∷ s) = elim (digit? 10 c) [
  | none ↦ none
  | some d ↦ read_all (some (more_digits 10 acc d)) s
]

split_sign : Text → Bool × Text
split_sign [] = (false, [])
split_sign (c ∷ s) =
    if c == b'-' then (true, s) else if c == b'+' then (false, s) else (false, c ∷ s)

drop_two : Text → Text
drop_two (_ ∷ _ ∷ s) = s
drop_two _ = []

read_int : Text → Option ℕ
unfolding starts_with drop_two read_prefix
read_int s =
    if starts_with s (codes "0x") || starts_with s (codes "0X")
    then read_prefix 16 none (drop_two s)
    else read_prefix 10 none s

-- `parseInt(s)` with no radix: spaces, a sign, then a prefix of digits, hexadecimal after "0x".
unfoldable pub parse_int : Text → Num
unfolding trim_start split_sign read_int with_sign
parse_int s = let (minus, body) = split_sign (trim_start s) in with_sign minus (read_int body)

signed_number : Bool × Text → Num
unfolding read_all with_sign
signed_number (minus, body) = with_sign minus (read_all none body)

-- `Number(s)`: zero for a blank text, else the integer that the trimmed text spells. A literal
-- with a fraction, an exponent or a radix prefix has no place in `Num` and is read as NaN.
unfoldable pub to_number : Text → Num
unfolding trim split_sign signed_number
to_number s = let t = trim s in if is_empty t then int (pos 0) else signed_number (split_sign t)
