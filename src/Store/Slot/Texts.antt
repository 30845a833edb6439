-- ===== src/Store/Slot/Texts.antt =====
-- store/slot.go: the texts of ranges, printed and parsed.
use kvrocks_controller.Common.{
  All, Bool, Bool-cases, Option, [], ap, arith, count_of, false, if◌then◌else◌, inl, inr, length,
  none, refl, some, suc, take, true, ℕ, ◌*◌, ◌++◌, ◌+◌, ◌-◌, ◌<◌, ◌==◌, ◌^◌, ◌↔◌, ◌∙◌, ◌∷◌, ◌≡◌,
  ◌≢◌, ◌≤◌,
}
use kvrocks_controller.Common.Int.{pos, ℤ}
use kvrocks_controller.Dialogs.Migration.Validation.{show_ℕ-no_dash}
use kvrocks_controller.Js.Decimal.{show_ℕ}
use kvrocks_controller.Js.Decimal.Laws.{
  IsDigit, digit?-decimal, digits_value, digits_value-show_ℕ, show_ℕ-digits, show_ℕ-ne-nil,
}
use kvrocks_controller.Js.Text.{Text}
use kvrocks_controller.Js.Text.Laws.{Lacks}
use kvrocks_controller.Js.Value.Laws.{range_text}
use kvrocks_controller.Store.Slot.{
  Checked, SlotError, SlotRange, checked, failed, is_outside, max_slot_id, slot_range_text,
  too_many_ranges,
}
use kvrocks_controller.Store.Slot.Parse.{
  atoi, drop, fitting, index_byte, parse_bounds, parse_parts, parse_single, parse_slot_range,
  read_digits, unsigned,
}
use kvrocks_controller.Store.Slot.Unique.{same_range}

-- The ranges that the store holds: slots in their order.
abbrev pub IsSlotRange : SlotRange → Type 0
IsSlotRange r = (r.start ≤ r.stop) × (r.stop ≤ max_slot_id)

read_digits_of_digits :
    (acc : ℕ) (s : Text) → All IsDigit s → read_digits acc s ≡ some (digits_value acc s)
unfolding read_digits digits_value
read_digits_of_digits acc [] h = refl
read_digits_of_digits acc (c ∷ s) (p, h) =
    rw (digit?-decimal c p, read_digits) (read_digits_of_digits (acc * 10 + (c - b'0')) s h)

unsigned-show_ℕ : (n : ℕ) → unsigned (show_ℕ n) ≡ some n
unfolding unsigned
unsigned-show_ℕ n = read (show_ℕ n) (show_ℕ-digits n) (show_ℕ-ne-nil n) (digits_value-show_ℕ n)
  where
    read : (s : Text) → All IsDigit s → s ≢ [] → digits_value 0 s ≡ n → unsigned s ≡ some n
    read [] h k e = absurd (k refl)
    read (c ∷ s) h k e = read_digits_of_digits 0 (c ∷ s) h ∙ ap some e

fitting-small : (n : ℕ) → n < 2 ^ 63 → fitting false (some n) ≡ some (pos n)
unfolding fitting
fitting-small n h = ground arith

atoi-show_ℕ : (n : ℕ) → n < 2 ^ 63 → atoi (show_ℕ n) ≡ some (pos n)
unfolding atoi unsigned
atoi-show_ℕ n h = read (show_ℕ n) (show_ℕ-digits n) (unsigned-show_ℕ n)
  where
    read : (s : Text) → All IsDigit s → unsigned s ≡ some n → atoi s ≡ some (pos n)
    read [] digits e = cc
    read (c ∷ s) (p, digits) e =
        let minus : (c == b'-') ≡ false = ground arith in
        let plus : (c == b'+') ≡ false = ground arith in
        rw (minus, plus) (ap (fitting false) e ∙ fitting-small n h)

no_dash-count : (s : Text) → Lacks b'-' s → count_of (λ c. c == b'-') s ≡ 0
unfolding count_of
no_dash-count [] h = refl
no_dash-count (c ∷ s) (p, h) = ground (arith, no_dash-count s h)

no_dash-index : (s : Text) → Lacks b'-' s → index_byte s b'-' ≡ none
unfolding index_byte
no_dash-index [] h = refl
no_dash-index (c ∷ s) (p, h) = rw (no_dash-index s h) (ground arith)

dash-count :
    (s t : Text) → Lacks b'-' s → Lacks b'-' t → count_of (λ c. c == b'-') (s ++ b'-' ∷ t) ≡ 1
unfolding count_of
dash-count [] t h k = rw (no_dash-count t k) refl
dash-count (c ∷ s) t (p, h) k = ground (arith, dash-count s t h k)

dash-index : (s t : Text) → Lacks b'-' s → index_byte (s ++ b'-' ∷ t) b'-' ≡ some (length s)
unfolding index_byte
dash-index [] t h = refl
dash-index (c ∷ s) t (p, h) = rw (dash-index s t h) (ground arith)

take-length : (s t : Text) → take (length s) (s ++ t) ≡ s
take-length [] t = refl
take-length (c ∷ s) t = ap (λ l. c ∷ l) (take-length s t)

drop-length : (s t : Text) (c : ℕ) → drop (suc (length s)) (s ++ c ∷ t) ≡ t
unfolding drop
drop-length [] t c = refl
drop-length (a ∷ s) t c = drop-length s t c

parse_slot_range-show_ℕ : (n : ℕ) → parse_slot_range (show_ℕ n) ≡ parse_single (atoi (show_ℕ n))
unfolding parse_slot_range parse_parts
parse_slot_range-show_ℕ n =
    rw (no_dash-count _ (show_ℕ-no_dash n), no_dash-index _ (show_ℕ-no_dash n)) refl

parse_slot_range-range_text :
    (a b : ℕ) → parse_slot_range (range_text a b) ≡ parse_bounds (atoi (show_ℕ a)) (atoi (show_ℕ b))
unfolding parse_slot_range parse_parts
parse_slot_range-range_text a b =
    rw
      (
        dash-count _ _ (show_ℕ-no_dash a) (show_ℕ-no_dash b),
        dash-index (show_ℕ a) (show_ℕ b) (show_ℕ-no_dash a),
        take-length (show_ℕ a) (b'-' ∷ show_ℕ b),
        drop-length (show_ℕ a) (show_ℕ b) b'-',
      )
      refl

parse_single-IsSlotRange :
    (z : Option ℤ) (r : SlotRange) → parse_single z ≡ checked r → IsSlotRange r
unfolding parse_single is_outside
parse_single-IsSlotRange none r e = cc
parse_single-IsSlotRange (some z) r e = ground arith

parse_bounds-IsSlotRange :
    (y z : Option ℤ) (r : SlotRange) → parse_bounds y z ≡ checked r → IsSlotRange r
unfolding parse_bounds is_outside
parse_bounds-IsSlotRange none z r e = cc
parse_bounds-IsSlotRange (some y) none r e = cc
parse_bounds-IsSlotRange (some y) (some z) r e = ground arith

parse_single-pos :
    (n : ℕ)
    → n ≤ max_slot_id
    → parse_single (some (pos n)) ≡ checked (record { start = n; stop = n })
unfolding parse_single is_outside
parse_single-pos n h = ground arith

parse_bounds-pos :
    (a b : ℕ)
    → a ≤ b
    → b ≤ max_slot_id
    → parse_bounds (some (pos a)) (some (pos b)) ≡ checked (record { start = a; stop = b })
unfolding parse_bounds is_outside
parse_bounds-pos a b h k = ground arith

parse_slot_range-printed :
    (r : SlotRange) → IsSlotRange r → parse_slot_range (slot_range_text r) ≡ checked r
unfolding slot_range_text
parse_slot_range-printed r (h, k) = elim (Bool-cases (r.start == r.stop)) [
  | inl single ↦
      rw
        (
          single,
          parse_slot_range-show_ℕ r.start,
          atoi-show_ℕ r.start (omega arith),
          parse_single-pos r.start (omega arith),
        )
        (ap checked (same_range _ r refl (ground arith)))
  | inr wide ↦
      rw
        (
          wide,
          parse_slot_range-range_text r.start r.stop,
          atoi-show_ℕ r.start (omega arith),
          atoi-show_ℕ r.stop (omega arith),
        )
        (parse_bounds-pos r.start r.stop h k)
]

unless_failed :
    (b : Bool) (why : SlotError) (x : Checked) (r : SlotRange)
    → (if b then failed why else x) ≡ checked r
    → x ≡ checked r
unless_failed true why x r e = cc
unless_failed false why x r e = e

parse_parts-IsSlotRange :
    (s : Text) (o : Option ℕ) (r : SlotRange) → parse_parts s o ≡ checked r → IsSlotRange r
unfolding parse_parts
parse_parts-IsSlotRange s none r e = parse_single-IsSlotRange (atoi s) r e
parse_parts-IsSlotRange s (some i) r e = parse_bounds-IsSlotRange _ _ r e

-- `ParseSlotRange` reads the text that `String` prints of a range back to the same range exactly
-- when the range is one of slots in their order, at most 16383.
pub parse_slot_range-slot_range_text :
    (r : SlotRange)
    → (parse_slot_range (slot_range_text r) ≡ checked r)
      ↔ ((r.start ≤ r.stop) × (r.stop ≤ max_slot_id))
unfolding parse_slot_range
parse_slot_range-slot_range_text r = (
  λ e. parse_parts-IsSlotRange _ _ r (unless_failed _ too_many_ranges _ r e),
  parse_slot_range-printed r,
)

-- Whatever text `ParseSlotRange` accepts, with signs or leading zeros or not, it returns a range of
-- slots in their order, at most 16383, whose printed text is accepted as the same range.
pub parse_slot_range_sound :
    (s : Text) (r : SlotRange)
    → parse_slot_range s ≡ checked r
    → (r.start ≤ r.stop)
      × (r.stop ≤ max_slot_id)
      × (parse_slot_range (slot_range_text r) ≡ checked r)
unfolding parse_slot_range
parse_slot_range_sound s r e =
    let (h, k) = parse_parts-IsSlotRange _ _ r (unless_failed _ too_many_ranges _ r e) in
    (h, k, parse_slot_range-printed r (h, k))
