-- ===== src/Pages/Effects.antt =====
-- What the pages share: array methods on dynamic values, and the text of an exception.
use kvrocks_controller.Common.{not, Bool, List, false, length, true, ℕ, ◌++◌}
use kvrocks_controller.Common.Int.{negsuc}
use kvrocks_controller.Js.Number.{int}
use kvrocks_controller.Js.Text.{is_empty, Text, codes}
use kvrocks_controller.Js.Value.{
  Result, Thrown, Value, arr, axios_error, cons, error, items, nil, num, ok, str, throw,
}

-- `${error}` in an alert
unfoldable pub thrown_text : Thrown → Text
thrown_text (axios_error v m) = codes "AxiosError: " ++ m
thrown_text (error m) = codes "TypeError: " ++ m

-- The elements that an array method of the source walks over; a TypeError where the value has no
-- such method.
unfoldable pub elements : Text → Value → Result (List Value)
elements what (arr vs) = ok (items vs)
elements what v = throw (error (what ++ codes " is not a function"))

-- `xs.length` where `Array.isArray(xs)`, and 0 of any other value.
unfoldable pub count_items : Value → ℕ
count_items (arr vs) = length (items vs)
count_items v = 0

-- `v.length` of an array or a text, and 0 for what has no length: `v?.length || 0`. An object with a
-- field of that name is left out.
unfoldable pub length_of : Value → ℕ
length_of (arr vs) = length (items vs)
length_of (str t) = length t
length_of v = 0

-- `v && v.length > 0`, of the same values.
unfoldable pub has_items : Value → Bool
has_items (arr nil) = false
has_items (arr (cons _ _)) = true
has_items (str t) = not (is_empty t)
has_items v = false

abbrev pub minus_one : Value
minus_one = num (int (negsuc 0))
