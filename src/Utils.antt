-- ===== src/Utils.antt =====
-- webui/src/app/utils.ts: the helpers that shorten texts and describe times and slots.
-- `formatTimestamp` and `formatBytes` rest on the locale and on floating point, and are left out.
pub mod Laws
mod Tests
use kvrocks_controller.Common.{List, [], if◌then◌else◌, leb, length, take, ℕ, ◌++◌, ◌/◌, ◌||◌, ◌∷◌}
use kvrocks_controller.Common.Int.{ltb_ℤ, pos, pos_part, ℤ, ◌-ℤ◌}
use kvrocks_controller.Js.Decimal.{show_ℕ, show_ℤ}
use kvrocks_controller.Js.Text.{Text, codes, is_empty, join}

unfoldable pub truncate_text : Text → ℕ → Text
truncate_text text max_length =
    if is_empty text || leb (length text) max_length
    then text
    else take max_length text ++ codes "..."

unfoldable pub describe_uptime : ℤ → Text
describe_uptime uptime_seconds =
    if ltb_ℤ uptime_seconds (pos 60)
    then show_ℤ uptime_seconds ++ codes " seconds"
    else if ltb_ℤ uptime_seconds (pos 3600)
    then show_ℕ (pos_part uptime_seconds / 60) ++ codes " minutes"
    else if ltb_ℤ uptime_seconds (pos 86400)
    then show_ℕ (pos_part uptime_seconds / 3600) ++ codes " hours"
    else show_ℕ (pos_part uptime_seconds / 86400) ++ codes " days"

-- `Date.now()` is the parameter `clock`, in milliseconds.
unfoldable pub calculate_uptime : ℕ → ℕ → Text
unfolding describe_uptime
calculate_uptime clock timestamp = describe_uptime (pos (clock / 1000) -ℤ pos timestamp)

unfoldable pub format_slot_ranges : List Text → Text
format_slot_ranges [] = codes "None"
format_slot_ranges (a ∷ []) = join (codes ", ") (a ∷ [])
format_slot_ranges (a ∷ b ∷ []) = join (codes ", ") (a ∷ b ∷ [])
format_slot_ranges (a ∷ b ∷ c ∷ rest) =
    a ++ (codes ", " ++ (b ++ (codes ", ... (+" ++ (show_ℕ (length (c ∷ rest)) ++ codes " more)"))))
