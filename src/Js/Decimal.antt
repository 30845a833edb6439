-- ===== src/Js/Decimal.antt =====
-- The decimal text of a number, as `n.toString()` and template literals print it.
pub mod Laws
use kvrocks_controller.Common.{
  ℕ, zero, suc, ◌+◌, ◌-◌, ◌*◌, ◌/◌, ◌%◌, Bool, List, [], ◌∷◌, ◌++◌, Option, none, some, ltb, leb,
  ◌&&◌, if◌then◌else◌,
}
use kvrocks_controller.Common.Int.{ℤ, pos, negsuc}
use kvrocks_controller.Js.Text.{Text}

-- Digits from the least significant one; a number has at most as many digits as its value plus one.
show_fuel : ℕ → ℕ → Text
show_fuel zero n = []
show_fuel (suc f) n =
    let rest = show_fuel f (n / 10) ++ (b'0' + n % 10) ∷ [] in
    if ltb n 10 then (b'0' + n) ∷ [] else rest

unfoldable pub show_ℕ : ℕ → Text
unfolding show_fuel
show_ℕ n = show_fuel (suc n) n

unfoldable pub show_ℤ : ℤ → Text
unfolding show_ℕ
show_ℤ (pos n) = show_ℕ n
show_ℤ (negsuc n) = b'-' ∷ show_ℕ (suc n)

-- The value of a digit in a radix up to 36; letters of both cases count from ten.
unfoldable pub digit? : ℕ → ℕ → Option ℕ
digit? radix c =
    let v : ℕ =
      if leb b'0' c && leb c b'9'
      then c - b'0'
      else if leb b'a' c && leb c b'z'
      then c - b'a' + 10
      else if leb b'A' c && leb c b'Z'
      then c - b'A' + 10
      else radix in
    if ltb v radix then some v else none
