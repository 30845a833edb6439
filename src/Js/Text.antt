-- ===== src/Js/Text.antt =====
-- A JavaScript string as its list of UTF-16 code units, with the methods that the source calls.
pub mod Laws
use Prim.Native.Char.{code}
use Prim.Native.String
use Prim.Native.String.{String}
use kvrocks_controller.Common.{
  ℕ, Bool, true, false, ◌&&◌, ◌||◌, List, [], ◌∷◌, ◌++◌, leb, ◌==◌, if◌then◌else◌, any,
}

abbrev pub Text : Type 0
Text = List ℕ

-- A literal of the source; each of its characters is one code unit.
abbrev pub codes : String → Text
codes String.[] = []
codes (String.◌∷◌ c s) = code c ∷ codes s

-- `s === t`
abbrev pub same : Text → Text → Bool
same [] [] = true
same (a ∷ s) (b ∷ t) = (a == b) && same s t
same _ _ = false

abbrev pub is_empty : Text → Bool
is_empty [] = true
is_empty (_ ∷ _) = false

-- `s.startsWith(t)`
unfoldable pub starts_with : Text → Text → Bool
starts_with s [] = true
starts_with [] (b ∷ t) = false
starts_with (a ∷ s) (b ∷ t) = (a == b) && starts_with s t

-- `s.includes(t)`
unfoldable pub includes : Text → Text → Bool
unfolding starts_with
includes [] t = starts_with [] t
includes (a ∷ s) t = starts_with (a ∷ s) t || includes s t

-- `s.includes(c)` for a text `c` of one code unit
unfoldable pub includes_unit : ℕ → Text → Bool
unfolding any
includes_unit c s = any (λ a. a == c) s

unfoldable pub cons_first : ℕ → List Text → List Text
cons_first a [] = (a ∷ []) ∷ []
cons_first a (p ∷ ps) = (a ∷ p) ∷ ps

-- `s.split(c)` for a separator of one code unit
unfoldable pub split : ℕ → Text → List Text
unfolding cons_first
split c [] = [] ∷ []
split c (a ∷ s) = let rest = split c s in if a == c then [] ∷ rest else cons_first a rest

-- `ts.join(sep)`
unfoldable pub join : Text → List Text → Text
join sep [] = []
join sep (t ∷ []) = t
join sep (t ∷ u ∷ ts) = t ++ (sep ++ join sep (u ∷ ts))

-- The code units that `\s` matches and `trim` strips: ECMAScript's WhiteSpace and LineTerminator.
unfoldable pub is_space : ℕ → Bool
is_space c =
    (leb 9 c && leb c 13)
    || (c == 32)
    || (c == 160)
    || (c == 5760)
    || (leb 8192 c && leb c 8202)
    || (c == 8232)
    || (c == 8233)
    || (c == 8239)
    || (c == 8287)
    || (c == 12288)
    || (c == 65279)

-- `/\s/.test(s)`
unfoldable pub contains_space : Text → Bool
unfolding any is_space
contains_space s = any is_space s

unfoldable pub trim_start : Text → Text
unfolding is_space
trim_start [] = []
trim_start (c ∷ s) = let rest = trim_start s in if is_space c then rest else c ∷ s

unfoldable pub trim_end : Text → Text
unfolding is_space
trim_end [] = []
trim_end (c ∷ s) = let rest = trim_end s in if is_space c && is_empty rest then [] else c ∷ rest

-- `s.trim()`
unfoldable pub trim : Text → Text
unfolding trim_start trim_end
trim s = trim_end (trim_start s)

-- A text as `for (… of s)` walks over it: by code points, so that a high surrogate and the low one
-- after it are one part.
unfoldable pub add_unit : ℕ → List Text → List Text
add_unit a ((b ∷ []) ∷ parts) =
    if leb 55296 a && leb a 56319 && leb 56320 b && leb b 57343
    then (a ∷ b ∷ []) ∷ parts
    else (a ∷ []) ∷ (b ∷ []) ∷ parts
add_unit a parts = (a ∷ []) ∷ parts

unfoldable pub code_points : Text → List Text
unfolding add_unit
code_points [] = []
code_points (a ∷ s) = add_unit a (code_points s)
