-- ===== src/Pages/Samples.antt =====
-- A stand-in for `localeCompare` in the runs of the tests: shorter texts come first.
use kvrocks_controller.Common.{arith, length}
use kvrocks_controller.Common.Int.{◌-ℤ◌}
use kvrocks_controller.Js.Number.{Num, num_sub, num_ℕ}
use kvrocks_controller.Js.Sort.{after}
use kvrocks_controller.Js.Sort.Laws.{IsOrder}
use kvrocks_controller.Js.Text.{Text}

abbrev pub by_length : Text → Text → Num
by_length s t = num_sub (num_ℕ (length s)) (num_ℕ (length t))

pub by_length-IsOrder : IsOrder by_length
unfolding after ◌-ℤ◌
by_length-IsOrder = record {
  asymmetric = λ x y h. ground arith;
  transitive = λ x y z h k. ground arith;
}
