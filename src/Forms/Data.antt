-- ===== src/Forms/Data.antt =====
-- webui/src/app/ui/formCreation.tsx: form data, and what the forms check of it.
use kvrocks_controller.Common.{
  Bool, List, Option, [], false, if◌then◌else◌, leb, none, some, ◌&&◌, ◌++◌, ◌-◌, ◌∷◌,
}
use kvrocks_controller.Js.Text.{Text, codes, contains_space, same}
use kvrocks_controller.Js.Value.{Value, is_text, or_else, str}

-- The entries of a `FormData`, in their order.
abbrev pub FormData : Type 0
FormData = List (Text × Text)

-- `formData.get(name)`: the first entry of the name
unfoldable pub get_entry : Text → FormData → Option Text
get_entry name [] = none
get_entry name ((k, v) ∷ fs) = let rest = get_entry name fs in if same k name then some v else rest

-- `Object.fromEntries(formData.entries())[name]`: the last entry of the name
unfoldable pub last_entry : Text → FormData → Option Text
last_entry name [] = none
last_entry name ((k, v) ∷ fs) = later (last_entry name fs)
  where
    later : Option Text → Option Text
    later (some u) = some u
    later none = if same k name then some v else none

-- A text field, which the dialog always renders, so that it has an entry.
unfoldable pub text_field : Text → FormData → Text
text_field name fs = elim (last_entry name fs) [ none ↦ [] | some v ↦ v ]

unfoldable pub contains_whitespace : Text → Bool
contains_whitespace value = contains_space value

-- `field.charAt(0).toUpperCase() + field.slice(1)`, for the ASCII names of fields
unfoldable pub capitalize : Text → Text
capitalize [] = []
capitalize (c ∷ s) = (if leb b'a' c && leb c b'z' then c - 32 else c) ∷ s

abbrev pub whitespace_message : Text → Text
whitespace_message field = capitalize field ++ codes " cannot contain any whitespace characters."

unfoldable pub spaced : Option Text → Bool
spaced none = false
spaced (some v) = contains_whitespace v

unfoldable pub validate_form_data : FormData → List Text → Option Text
validate_form_data fs [] = none
validate_form_data fs (field ∷ fields) =
    let rest = validate_form_data fs fields in
    if spaced (get_entry field fs) then some (whitespace_message field) else rest

-- What a form's `handleSubmit` does in the end: it navigates, reloads, or returns a message.
pub data Outcome : Type 0 where
  pushed : Text → Outcome
  reloaded : Outcome
  message : Value → Outcome

-- `if (response === "") … else return response || fallback`
unfoldable pub conclude : Outcome → Text → Value → Outcome
conclude done fallback response =
    if is_text [] response then done else message (or_else response (str fallback))
