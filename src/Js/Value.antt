-- ===== src/Js/Value.antt =====
-- Dynamic values, as axios parses them from JSON: property reads, truthiness and coercions.
pub mod Laws
use kvrocks_controller.Common.{
  Bool, List, [], false, if◌then◌else◌, length, not, true, ℕ, ◌++◌, ◌||◌, ◌∷◌,
}
use kvrocks_controller.Common.Int.{eqb_ℤ, pos, ℤ}
use kvrocks_controller.Js.Number.{Num, int, nan, num_le, num_ℕ, show_num, to_number}
use kvrocks_controller.Js.Text.{Text, codes, is_empty, same}

mutual
  pub data Value : Type 0 where
    undefined : Value
    null : Value
    bool : Bool → Value
    num : Num → Value
    str : Text → Value
    arr : Items → Value
    obj : Fields → Value

  pub data Items : Type 0 where
    nil : Items
    cons : Value → Items → Items

  pub data Fields : Type 0 where
    no_fields : Fields
    with_field : Text → Value → Fields → Fields

abbrev pub items : Items → List Value
items nil = []
items (cons v vs) = v ∷ items vs

abbrev pub from_list : List Value → Items
from_list [] = nil
from_list (v ∷ vs) = cons v (from_list vs)

-- What a `throw` carries, and a computation that may throw.
pub data Thrown : Type 0 where
  -- axios: the parsed body of the response, `undefined` where there was none, and the message
  axios_error : Value → Text → Thrown
  error : Text → Thrown

pub data Result {ℓ} (A : Type ℓ) : Type ℓ where
  ok : A → Result A
  throw : Thrown → Result A

infixl 5 ◌>>=◌
abbrev pub ◌>>=◌ {ℓ κ} : {X : Type ℓ} {Y : Type κ} → Result X → (X → Result Y) → Result Y
throw t >>= next = throw t
ok x >>= next = next x

-- `v == null`, `v == undefined`
abbrev pub is_nullish : Value → Bool
is_nullish undefined = true
is_nullish null = true
is_nullish _ = false

abbrev pub is_array : Value → Bool
is_array (arr _) = true
is_array _ = false

-- `typeof v === "object"`
abbrev pub is_object : Value → Bool
is_object null = true
is_object (arr _) = true
is_object (obj _) = true
is_object _ = false

abbrev pub is_string : Value → Bool
is_string (str _) = true
is_string _ = false

unfoldable pub own_field : Text → Fields → Value
own_field k no_fields = undefined
own_field k (with_field j v fs) = let rest = own_field k fs in if same j k then v else rest

-- `k in v` for an object `v`
unfoldable pub has_field : Text → Fields → Bool
has_field k no_fields = false
has_field k (with_field j v fs) = same j k || has_field k fs

-- `v.length` of a text or an array
abbrev length_of : Text → ℕ → Value
length_of k n = if same k (codes "length") then num (num_ℕ n) else undefined

-- `v?.k`
unfoldable pub get_opt : Text → Value → Value
unfolding own_field
get_opt k (str s) = length_of k (length s)
get_opt k (arr vs) = length_of k (length (items vs))
get_opt k (obj fs) = own_field k fs
get_opt k _ = undefined

abbrev pub read_failure : Text → Text → Thrown
read_failure what k =
    error
      (codes "Cannot read properties of " ++ (what ++ (codes " (reading '" ++ (k ++ codes "')"))))

-- `v.k`, a TypeError on undefined and null
unfoldable pub get : Text → Value → Result Value
unfolding get_opt
get k undefined = throw (read_failure (codes "undefined") k)
get k null = throw (read_failure (codes "null") k)
get k v = ok (get_opt k v)

-- `Boolean(v)`
abbrev pub truthy : Value → Bool
truthy undefined = false
truthy null = false
truthy (bool b) = b
truthy (num nan) = false
truthy (num (int z)) = not (eqb_ℤ z (pos 0))
truthy (str s) = not (is_empty s)
truthy (arr _) = true
truthy (obj _) = true

-- `v || w`
abbrev pub or_else : Value → Value → Value
or_else v w = if truthy v then v else w

-- `v === "…"` and `v === n`
abbrev pub is_text : Text → Value → Bool
is_text t (str s) = same s t
is_text t _ = false

abbrev pub is_int : ℤ → Value → Bool
is_int z (num (int a)) = eqb_ℤ a z
is_int z _ = false

-- `String(v)`; an array joins its elements by commas, in which undefined and null are blank.
unfoldable mutual
  unfolding show_num

  pub to_text : Value → Text
  to_text undefined = codes "undefined"
  to_text null = codes "null"
  to_text (bool true) = codes "true"
  to_text (bool false) = codes "false"
  to_text (num n) = show_num n
  to_text (str s) = s
  to_text (arr vs) = items_to_text vs
  to_text (obj _) = codes "[object Object]"

  pub items_to_text : Items → Text
  items_to_text nil = []
  items_to_text (cons v vs) = element_to_text v (to_text v) ++ tail_to_text vs (items_to_text vs)

  -- the comma before the elements that follow, of which the text is given
  pub tail_to_text : Items → Text → Text
  tail_to_text nil t = []
  tail_to_text (cons _ _) t = b',' ∷ t

  pub element_to_text : Value → Text → Text
  element_to_text undefined t = []
  element_to_text null t = []
  element_to_text _ t = t

-- The number that a comparison with a number makes of a value.
unfoldable pub coerce : Value → Num
unfolding to_number to_text
coerce undefined = nan
coerce null = int (pos 0)
coerce (bool true) = int (pos 1)
coerce (bool false) = int (pos 0)
coerce (num n) = n
coerce (str s) = to_number s
coerce (arr vs) = to_number (items_to_text vs)
coerce (obj _) = nan

-- `v >= 0`
unfoldable pub at_least_zero : Value → Bool
unfolding coerce
at_least_zero v = num_le (int (pos 0)) (coerce v)
