-- ===== src/Pages/Cluster/Slots.antt =====
-- webui/src/app/namespaces/[namespace]/clusters/[cluster]/page.tsx: `formatSlotRanges` and
-- `expandSlotRanges`.
pub mod Laws
-- The second argument is `showAll`.
use kvrocks_controller.Common.{
  Bool, List, [], if◌then◌else◌, leb, length, suc, zero, ℕ, ◌++◌, ◌||◌, ◌∷◌,
}
use kvrocks_controller.Common.Int.{pos, pos_part, ℤ, ◌+ℤ◌, ◌-ℤ◌}
use kvrocks_controller.Js.Decimal.{show_ℕ}
use kvrocks_controller.Js.Number.{Num, int, nan, num_sub, to_number}
use kvrocks_controller.Js.Sort.{sort}
use kvrocks_controller.Js.Text.{Text, codes, includes_unit, join, split}

unfoldable pub format_slot_ranges : List Text → Bool → Text
format_slot_ranges [] all_shown = codes "None"
format_slot_ranges (r ∷ rs) all_shown =
    if all_shown || leb (length (r ∷ rs)) 2 then join (codes ", ") (r ∷ rs) else shortened (r ∷ rs)
  where
    shortened : List Text → Text
    shortened (a ∷ b ∷ rest) =
        a ++ (codes ", " ++ (b ++ (codes ", ... (+" ++ (show_ℕ (length rest) ++ codes " more)"))))
    shortened _ = []

-- The integers from `a` on, `n` of them.
unfoldable pub integers_from : ℤ → ℕ → List ℤ
integers_from a zero = []
integers_from a (suc n) = a ∷ integers_from (a +ℤ pos 1) n

-- `for (let i = start; i <= end; i++) slots.push(i)`, if neither is NaN
unfoldable pub between : Num → Num → List ℤ
between (int a) (int b) = integers_from a (pos_part (b -ℤ a +ℤ pos 1))
between _ _ = []

-- The first two parts of a text that holds a dash.
unfoldable pub expand_parts : List Text → List ℤ
expand_parts (first ∷ second ∷ _) = between (to_number first) (to_number second)
expand_parts _ = []

unfoldable pub expand_single : Num → List ℤ
expand_single nan = []
expand_single (int z) = z ∷ []

unfoldable pub expand_range : Text → List ℤ
expand_range r =
    if includes_unit b'-' r then expand_parts (split b'-' r) else expand_single (to_number r)

unfoldable pub push_ranges : List Text → List ℤ
push_ranges [] = []
push_ranges (r ∷ rs) = expand_range r ++ push_ranges rs

abbrev pub ascending : ℤ → ℤ → Num
ascending a b = num_sub (int a) (int b)

unfoldable pub expand_slot_ranges : List Text → List ℤ
expand_slot_ranges ranges = sort ascending (push_ranges ranges)
