-- ===== src/Pages/Namespace/Promises/Tests.antt =====
-- Runs of the callbacks of two clusters, the second of which is answered first.
use mathlib.Core.WellFounded.{Acc}
use kvrocks_controller.Common.{All, List, [], refl, some, ℕ, ◌∷◌, ◌≡◌}
use kvrocks_controller.Api.Calls.{Request, fetch_cluster, list_nodes}
use kvrocks_controller.Api.Samples.{body, idle_shard, sample_data}
use kvrocks_controller.Js.Text.{Text, codes}
use kvrocks_controller.Js.Value.{
  Result, Value, get, get_opt, has_field, ok, own_field, str, to_text,
}
use kvrocks_controller.Pages.Effects.{count_items}
use kvrocks_controller.Pages.Namespace.Gather.{Totals, gather, no_totals, shards_of}
use kvrocks_controller.Pages.Namespace.Promises.{
  AllDone, Reach, Step, System, Task, answer, asking, continue_loop, here, is_answered, is_done,
  is_waiting, next, resume, serve, start_loop, started, turn, valid_data,
}
use kvrocks_controller.Pages.Namespace.Promises.Counting.{totals_at_every_moment}
use kvrocks_controller.Pages.Namespace.Promises.Due.{IsReadOnly}
use kvrocks_controller.Pages.Namespace.Promises.Order.{promise_all_refines_gather}
use kvrocks_controller.Pages.Namespace.Promises.Progress.{promises_finish, promises_terminate}
use kvrocks_controller.Pages.Namespace.Totals.{AddsUp, IsObject, IsWellFormed}

abbrev steady : Request → ℕ → Result Value × ℕ
steady r n = (ok (body sample_data), n)

steady-IsReadOnly : IsReadOnly steady
steady-IsReadOnly = record { reads = λ u w. refl }

steady-shards :
    (cluster : Text) (w : ℕ)
    → shards_of (fetch_cluster steady (codes "ns") cluster w).0 ≡ some (idle_shard ∷ [])
unfolding shards_of fetch_cluster get get_opt own_field has_field
steady-shards cluster w = refl

steady-IsWellFormed : IsWellFormed steady (codes "ns")
steady-IsWellFormed = record { shards = λ cluster w ss h. objects cluster w ss h }
  where
    objects :
        (cluster : Text) (w : ℕ) (ss : List Value)
        → shards_of (fetch_cluster steady (codes "ns") cluster w).0 ≡ some ss
        → All IsObject ss
    objects cluster w ss h =
        let one : ss ≡ idle_shard ∷ [] = cc (steady-shards cluster w, h) in rw one (refl, tt)

abbrev two_clusters : List Value
two_clusters = str (codes "c") ∷ str (codes "d") ∷ []

abbrev at_start : System ℕ
at_start = started two_clusters 4

-- One cluster after its answer, and after its turn.
abbrev answered : Task → Task
answered x = (serve steady (codes "ns") x 4).0

abbrev turned : Task → Task
turned x = (resume x no_totals).0

abbrev first : Task
first = asking (codes "c")

abbrev second : Task
second = asking (codes "d")

abbrev ended : Task → Task
ended x = turned (answered (turned (answered x)))

abbrev one_added : Totals
one_added = record { total_shards = 1; total_nodes = 1 }

abbrev midway : System ℕ
midway = record { tasks = answered first ∷ ended second ∷ []; totals = one_added; world = 4 }

abbrev at_end : System ℕ
at_end = record {
  tasks = ended first ∷ ended second ∷ [];
  totals = record { total_shards = 2; total_nodes = 2 };
  world = 4;
}

-- The second cluster runs to its end before the first has had a turn.
midway-reached : Reach steady (codes "ns") at_start midway
unfolding started serve resume start_loop continue_loop shards_of fetch_cluster list_nodes get
    get_opt own_field has_field is_waiting is_answered count_items to_text
midway-reached =
    next
      (next
        (next
          (next (next here (answer (first ∷ []) second [] refl refl))
            (answer [] first (answered second ∷ []) refl refl))
          (turn (answered first ∷ []) (answered second) [] refl refl))
        (answer (answered first ∷ []) (turned (answered second)) [] refl refl))
      (turn (answered first ∷ []) (answered (turned (answered second))) [] refl refl)

at_end-reached : Reach steady (codes "ns") at_start at_end
unfolding started serve resume start_loop continue_loop shards_of fetch_cluster list_nodes get
    get_opt own_field has_field is_waiting is_answered count_items to_text
at_end-reached =
    next
      (next (next midway-reached (turn [] (answered first) (ended second ∷ []) refl refl))
        (answer [] (turned (answered first)) (ended second ∷ []) refl refl))
      (turn [] (answered (turned (answered first))) (ended second ∷ []) refl refl)

at_end-AllDone : AllDone at_end.tasks
unfolding started serve resume start_loop continue_loop shards_of fetch_cluster list_nodes get
    get_opt own_field has_field is_done
at_end-AllDone = (refl, (refl, tt))

promise_all_refines_gather_example :
    (valid_data at_end.tasks, at_end.totals)
    ≡ (gather steady (codes "ns") two_clusters no_totals 4).0
promise_all_refines_gather_example =
    promise_all_refines_gather steady (codes "ns") steady-IsReadOnly 4 two_clusters at_end-reached
      at_end-AllDone

totals_at_every_moment_example : AddsUp no_totals (valid_data midway.tasks) one_added
totals_at_every_moment_example =
    totals_at_every_moment steady (codes "ns") steady-IsWellFormed two_clusters 4 midway-reached

promises_terminate_example : Acc (λ t u. Step steady (codes "ns") u t) at_start
promises_terminate_example = promises_terminate steady (codes "ns") at_start

promises_finish_example : (t : System ℕ) × Reach steady (codes "ns") midway t × AllDone t.tasks
promises_finish_example = promises_finish steady (codes "ns") midway
