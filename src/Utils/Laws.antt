-- ===== src/Utils/Laws.antt =====
-- webui/src/app/utils.ts: shortened texts and described times.
use kvrocks_controller.Common.{
  Bool-cases, [], ap, arith, if◌then◌else◌, inl, inr, leb, length, length-append, ltb, refl, suc,
  take, zero, ℕ, ◌*◌, ◌++◌, ◌+◌, ◌-◌, ◌/◌, ◌<◌, ◌∙◌, ◌∷◌, ◌≡◌, ◌≤◌,
}
use kvrocks_controller.Common.Int.{pos, ◌-ℤ◌}
use kvrocks_controller.Js.Decimal.{show_ℕ, show_ℤ}
use kvrocks_controller.Js.Text.{Text, codes}
use kvrocks_controller.Utils.{calculate_uptime, describe_uptime, truncate_text}

take-take : (n : ℕ) (s t : Text) → n ≤ length s → take n (take n s ++ t) ≡ take n s
take-take zero s t h = refl
take-take (suc n) [] t h = absurd (omega arith)
take-take (suc n) (a ∷ s) t h = ap (λ r. a ∷ r) (take-take n s t (omega arith))

length-take : (n : ℕ) (s : Text) → n ≤ length s → length (take n s) ≡ n
length-take zero s h = refl
length-take (suc n) [] h = absurd (omega arith)
length-take (suc n) (a ∷ s) h = ap suc (length-take n s (omega arith))

-- A shortened text begins with as much of the text as fits; it has the text's length where the
-- text fits, and three more than the limit where it does not.
pub truncate_text_lem :
    (text : Text) (most : ℕ)
    → (take most (truncate_text text most) ≡ take most text)
      × (length (truncate_text text most)
          ≡ (if leb (length text) most then length text else most + 3))
unfolding truncate_text
truncate_text_lem [] most = (refl, ground arith)
truncate_text_lem (c ∷ text) most = elim (Bool-cases (leb (length (c ∷ text)) most)) [
  | inl short ↦ rw (short, truncate_text) (refl, refl)
  | inr long ↦
      let fits : most ≤ length (c ∷ text) = ground arith in
      rw long (
        take-take most (c ∷ text) (codes "...") fits,
        length-append (take most (c ∷ text)) (codes "...")
            ∙ ap (λ n. n + 3) (length-take most (c ∷ text) fits),
      )
]

pub data TimeUnit : Type 0 where
  seconds minutes hours days : TimeUnit

abbrev pub seconds_in : TimeUnit → ℕ
seconds_in seconds = 1
seconds_in minutes = 60
seconds_in hours = 3600
seconds_in days = 86400

-- How many of a unit make the next one.
abbrev pub IsProper : ℕ → TimeUnit → Type 0
IsProper k seconds = k < 60
IsProper k minutes = (1 ≤ k) × (k < 60)
IsProper k hours = (1 ≤ k) × (k < 24)
IsProper k days = 1 ≤ k

abbrev pub unit_text : TimeUnit → Text
unit_text seconds = codes " seconds"
unit_text minutes = codes " minutes"
unit_text hours = codes " hours"
unit_text days = codes " days"

abbrev IsAge : ℕ → Text → Type 0
IsAge age t =
    (k : ℕ) × (u : TimeUnit) × (t ≡ show_ℕ k ++ unit_text u)
    × (k * seconds_in u ≤ age)
    × (age < (k + 1) * seconds_in u)
    × IsProper k u

pos_difference : (a b : ℕ) → b ≤ a → pos a -ℤ pos b ≡ pos (a - b)
unfolding ◌-ℤ◌
pos_difference a b h = ground arith

describe_uptime_lem : (age : ℕ) → IsAge age (describe_uptime (pos age))
unfolding describe_uptime show_ℤ
describe_uptime_lem age = elim (Bool-cases (ltb age 60)) [
  | inl few ↦ (age, seconds, ground arith, omega arith, omega arith, ground arith)
  | inr more ↦ elim (Bool-cases (ltb age 3600)) [
    | inl few ↦ (age / 60, minutes, ground arith, omega arith, omega arith, ground arith)
    | inr more' ↦ elim (Bool-cases (ltb age 86400)) [
      | inl few ↦ (age / 3600, hours, ground arith, omega arith, omega arith, ground arith)
      | inr most ↦ (age / 86400, days, ground arith, omega arith, omega arith, ground arith)
    ]
  ]
]

-- The age of something that was created in the past is described by whole units, rounded down,
-- in the largest unit of which there is at least one.
pub calculate_uptime_lem :
    (clock timestamp : ℕ)
    → timestamp ≤ clock / 1000
    → (k : ℕ) × (u : TimeUnit) × (calculate_uptime clock timestamp ≡ show_ℕ k ++ unit_text u)
      × (k * seconds_in u ≤ clock / 1000 - timestamp)
      × (clock / 1000 - timestamp < (k + 1) * seconds_in u)
      × IsProper k u
unfolding calculate_uptime
calculate_uptime_lem clock timestamp h =
    rw (pos_difference (clock / 1000) timestamp h) (describe_uptime_lem (clock / 1000 - timestamp))
