-- ===== src/Utils/Tests.antt =====
-- Runs of the helpers.
use kvrocks_controller.Common.{refl, ◌≡◌}
use kvrocks_controller.Common.Int.{◌-ℤ◌}
use kvrocks_controller.Js.Decimal.{show_ℕ}
use kvrocks_controller.Js.Text.{codes}
use kvrocks_controller.Utils.{calculate_uptime, describe_uptime}

uptime_of_an_hour : calculate_uptime 7300000 100 ≡ codes "2 hours"
unfolding calculate_uptime describe_uptime show_ℕ ◌-ℤ◌
uptime_of_an_hour = refl
