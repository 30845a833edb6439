-- ===== src/Store/Slot/Parse.antt =====
-- store/slot.go: `ParseSlotRange`, with what it uses of Go's strings and strconv.
use mathlib.Core.Option
use kvrocks_controller.Common.{
  Bool, Option, [], count_of, false, if◌then◌else◌, leb, ltb, none, some, suc, take, true, zero, ℕ,
  ◌*◌, ◌+◌, ◌==◌, ◌^◌, ◌||◌, ◌∷◌,
}
use kvrocks_controller.Common.Int.{ltb_ℤ, pos, pos_part, ℤ, ◌-ℤ◌}
use kvrocks_controller.Js.Decimal.{digit?}
use kvrocks_controller.Js.Text.{Text}
use kvrocks_controller.Store.Slot.{
  Checked, checked, failed, is_outside, not_a_number, slot_out_of_range, start_larger,
  too_many_ranges,
}

-- `strings.IndexByte`, with no value for -1
unfoldable pub index_byte : Text → ℕ → Option ℕ
index_byte [] c = none
index_byte (a ∷ s) c = let rest = index_byte s c in if a == c then some 0 else Option.map suc rest

unfoldable pub drop : ℕ → Text → Text
drop zero s = s
drop (suc n) [] = []
drop (suc n) (a ∷ s) = drop n s

unfoldable pub read_digits : ℕ → Text → Option ℕ
read_digits acc [] = some acc
read_digits acc (c ∷ s) = elim (digit? 10 c) [ none ↦ none | some d ↦ read_digits (acc * 10 + d) s ]

-- At least one digit, and nothing else.
unfoldable pub unsigned : Text → Option ℕ
unsigned [] = none
unsigned (c ∷ s) = read_digits 0 (c ∷ s)

-- The signed value, if a 64-bit `int` holds it.
unfoldable pub fitting : Bool → Option ℕ → Option ℤ
fitting negative none = none
fitting true (some n) = if leb n (2 ^ 63) then some (pos 0 -ℤ pos n) else none
fitting false (some n) = if ltb n (2 ^ 63) then some (pos n) else none

-- `strconv.Atoi`, with no value for its errors
unfoldable pub atoi : Text → Option ℤ
atoi [] = none
atoi (c ∷ s) =
    if c == b'-'
    then fitting true (unsigned s)
    else if c == b'+'
    then fitting false (unsigned s)
    else fitting false (unsigned (c ∷ s))

unfoldable pub parse_single : Option ℤ → Checked
parse_single none = failed not_a_number
parse_single (some start) =
    if is_outside start
    then failed slot_out_of_range
    else checked (record { start = pos_part start; stop = pos_part start })

unfoldable pub parse_bounds : Option ℤ → Option ℤ → Checked
parse_bounds none stop = failed not_a_number
parse_bounds (some start) none = failed not_a_number
parse_bounds (some start) (some stop) =
    if ltb_ℤ stop start
    then failed start_larger
    else if is_outside start || is_outside stop
    then failed slot_out_of_range
    else checked (record { start = pos_part start; stop = pos_part stop })

unfoldable pub parse_parts : Text → Option ℕ → Checked
parse_parts s none = parse_single (atoi s)
parse_parts s (some index) = parse_bounds (atoi (take index s)) (atoi (drop (suc index) s))

unfoldable pub parse_slot_range : Text → Checked
parse_slot_range s =
    if ltb 1 (count_of (λ c. c == b'-') s)
    then failed too_many_ranges
    else parse_parts s (index_byte s b'-')
