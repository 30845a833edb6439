-- ===== src/Dialogs/Migration/Validation.antt =====
-- webui/src/app/ui/migrationDialog.tsx: which texts `validateSlotInput` accepts.
use kvrocks_controller.Common.{
  All, All-append, [], ap, arith, false, none, refl, ℕ, ◌++◌, ◌==◌, ◌↔◌, ◌∙◌, ◌∷◌, ◌≡◌, ◌≢◌, ◌≤◌,
}
use kvrocks_controller.Dialogs.Migration.{
  out_of_range, validate_range, validate_single, validate_slot_input,
}
use kvrocks_controller.Js.Decimal.{digit?, show_ℕ}
use kvrocks_controller.Js.Decimal.Laws.{
  digits-IsSolid, digits-Lacks, digits_value-show_ℕ, show_ℕ-digits, show_ℕ-ne-nil,
}
use kvrocks_controller.Js.Number.Laws.{parse_int-show_ℕ, parse_int_of_prefix}
use kvrocks_controller.Js.Text.{Text, is_empty, is_space, split, trim}
use kvrocks_controller.Js.Text.Laws.{
  IsSolid, Lacks, includes_unit-append, includes_unit-false_iff, split-append, split_of_Lacks,
  trim_of_All,
}
use kvrocks_controller.Js.Value.Laws.{range_text}

pub show_ℕ-cons : (n : ℕ) → (c : ℕ) × (s : Text) × (show_ℕ n ≡ c ∷ s)
show_ℕ-cons n = found (show_ℕ n) refl
  where
    found : (t : Text) → show_ℕ n ≡ t → (c : ℕ) × (s : Text) × (show_ℕ n ≡ c ∷ s)
    found [] e = absurd (show_ℕ-ne-nil n e)
    found (c ∷ s) e = (c, s, e)

pub is_empty-show_ℕ : (n : ℕ) (t : Text) → is_empty (show_ℕ n ++ t) ≡ false
is_empty-show_ℕ n t = let (c, s, e) = show_ℕ-cons n in rw e

show_ℕ-IsSolid : (n : ℕ) → All IsSolid (show_ℕ n)
show_ℕ-IsSolid n = digits-IsSolid (show_ℕ n) (show_ℕ-digits n)

pub show_ℕ-no_dash : (n : ℕ) → Lacks b'-' (show_ℕ n)
show_ℕ-no_dash n = digits-Lacks b'-' (show_ℕ n) (omega arith) (show_ℕ-digits n)

trim-show_ℕ : (n : ℕ) → trim (show_ℕ n) ≡ show_ℕ n
trim-show_ℕ n = trim_of_All (show_ℕ n) (show_ℕ-IsSolid n)

trim-range_text : (a b : ℕ) → trim (range_text a b) ≡ range_text a b
trim-range_text a b = trim_of_All (range_text a b) (
    All-append IsSolid (show_ℕ a) (b'-' ∷ show_ℕ b) (show_ℕ-IsSolid a)
      (unfold is_space in refl, show_ℕ-IsSolid b))

pub split-range_text : (a b : ℕ) → split b'-' (range_text a b) ≡ show_ℕ a ∷ show_ℕ b ∷ []
split-range_text a b =
    split-append b'-' (show_ℕ a) (show_ℕ b) (show_ℕ-no_dash a)
    ∙ ap (λ ts. show_ℕ a ∷ ts) (split_of_Lacks b'-' (show_ℕ b) (show_ℕ-no_dash b))

validate_range_lem :
    (a b : ℕ) → (validate_range (show_ℕ a ∷ show_ℕ b ∷ []) ≡ none) ↔ ((a ≤ b) × (b ≤ 16383))
unfolding validate_range out_of_range
validate_range_lem a b =
    rw (trim-show_ℕ a, trim-show_ℕ b, parse_int-show_ℕ a, parse_int-show_ℕ b) (ground arith)

validate_single_lem : (n : ℕ) → (validate_single (show_ℕ n) ≡ none) ↔ (n ≤ 16383)
unfolding validate_single
validate_single_lem n = rw (trim-show_ℕ n, parse_int-show_ℕ n) (ground arith)

-- The migration dialog accepts the text of a range of two numbers exactly when the first is at
-- most the second and the second is a slot, at most 16383.
pub validate_slot_input-range_text :
    (a b : ℕ) → (validate_slot_input (range_text a b) ≡ none) ↔ ((a ≤ b) × (b ≤ 16383))
unfolding validate_slot_input
validate_slot_input-range_text a b =
    rw
      (
        trim-range_text a b,
        is_empty-show_ℕ a (b'-' ∷ show_ℕ b),
        includes_unit-append b'-' (show_ℕ a) (show_ℕ b),
        split-range_text a b,
      )
      (validate_range_lem a b)

-- The migration dialog accepts the text of a number exactly when it is a slot, at most 16383.
pub validate_slot_input-show_ℕ : (n : ℕ) → (validate_slot_input (show_ℕ n) ≡ none) ↔ (n ≤ 16383)
unfolding validate_slot_input
validate_slot_input-show_ℕ n =
    let (c, s, e) = show_ℕ-cons n in
    let nonempty : is_empty (show_ℕ n) ≡ false = rw e refl in
    rw (trim-show_ℕ n, nonempty, (includes_unit-false_iff b'-' (show_ℕ n)).1 (show_ℕ-no_dash n))
      (validate_single_lem n)

-- The text of a slot followed by other characters, of which the first is no digit and no "x" and
-- none is a dash or a space, is accepted by the migration dialog too.
pub validate_slot_input_trailing :
    (n c : ℕ) (t : Text)
    → n ≤ 16383
    → All IsSolid (c ∷ t)
    → Lacks b'-' (c ∷ t)
    → digit? 10 c ≡ none
    → c ≢ b'x'
    → c ≢ b'X'
    → validate_slot_input (show_ℕ n ++ c ∷ t) ≡ none
unfolding validate_slot_input validate_single
validate_slot_input_trailing n c t h solid no_dash junk x y =
    rw
      (
        trim_of_All (show_ℕ n ++ c ∷ t)
            (All-append IsSolid (show_ℕ n) (c ∷ t) (show_ℕ-IsSolid n) solid),
        is_empty-show_ℕ n (c ∷ t),
        (includes_unit-false_iff b'-' (show_ℕ n ++ c ∷ t)).1
            (All-append (λ a. (a == b'-') ≡ false) (show_ℕ n) (c ∷ t) (show_ℕ-no_dash n) no_dash),
        parse_int_of_prefix c (show_ℕ n) t (show_ℕ-digits n) (show_ℕ-ne-nil n) junk x y,
        digits_value-show_ℕ n,
      )
      (ground arith)
