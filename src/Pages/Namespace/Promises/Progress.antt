-- ===== src/Pages/Namespace/Promises/Progress.antt =====
-- webui/src/app/namespaces/[namespace]/page.tsx: the requests come to an end, in any order and
-- whatever the server answers.
use mathlib.Core.WellFounded.{Acc}
use kvrocks_controller.Common.{
  List, Option, [], all, ap, arith, inl, inr, length, none, refl, some, suc, sum_of, sum_of-middle,
  true, zero, ℕ, ◌*◌, ◌++◌, ◌+◌, ◌<◌, ◌∷◌, ◌≡◌, ◌⊎◌,
}
use kvrocks_controller.Api.Calls.{Request}
use kvrocks_controller.Js.Text.{Text, same}
use kvrocks_controller.Js.Value.{Result, Value}
use kvrocks_controller.Pages.Cluster.Handlers.{has}
use kvrocks_controller.Pages.Effects.{count_items}
use kvrocks_controller.Pages.Namespace.Gather.{Totals, shards_of}
use kvrocks_controller.Pages.Namespace.Promises.{
  AllDone, Reach, Step, System, Task, answer, asking, continue_loop, done, heard, here, is_answered,
  is_done, is_waiting, listing, next, resume, serve, start_loop, told, turn,
}

-- Callbacks whose number of requests is not known yet, and the runs left of the others.
unfoldable unasked : Task → ℕ
unasked (asking c) = 1
unasked x = 0

unfoldable work_of_shards : Option (List Value) → ℕ
work_of_shards none = 1
work_of_shards (some ss) = suc (2 * length ss)

unfoldable work : Task → ℕ
work (told c info) = work_of_shards (shards_of info)
work (listing c info ss n i count) = 2 * n + 2
work (heard c info ss n i count nodes) = 2 * n + 1
work x = 0

continue_loop-work :
    (c : Text) (info : Value) (ss : List Value) (n i count : ℕ) (t : Totals)
    → (unasked (continue_loop c info ss n i count t).0 ≡ 0)
      × (work (continue_loop c info ss n i count t).0 ≡ 2 * n)
unfolding continue_loop unasked work
continue_loop-work c info ss zero i count t = (refl, refl)
continue_loop-work c info ss (suc n) i count t = (refl, omega arith)

start_loop-work :
    (c : Text) (info : Value) (found : Option (List Value)) (t : Totals)
    → (unasked (start_loop c info found t).0 ≡ 0)
      × (work (start_loop c info found t).0 < work_of_shards found)
unfolding start_loop unasked work work_of_shards
start_loop-work c info none t = (refl, omega arith)
start_loop-work c info (some ss) t = omega (arith, continue_loop-work c info ss (length ss) 0 0 t)

resume-work :
    (x : Task) (t : Totals)
    → is_answered x ≡ true
    → (unasked (resume x t).0 ≡ unasked x) × (work (resume x t).0 < work x)
unfolding resume unasked work is_answered
resume-work (told c info) t e = start_loop-work c info (shards_of info) t
resume-work (heard c info ss n i count nodes) t e =
    omega (arith, continue_loop-work c info ss n (suc i) (count + count_items nodes) t)
resume-work (asking c) t e = cc
resume-work (listing c info ss n i count) t e = cc
resume-work (done r) t e = cc

module _ {W : Type 0} (axios : Request → W → Result Value × W) (namespace : Text) where
  serve-work :
      (x : Task) (w : W)
      → is_waiting x ≡ true
      → (unasked (serve axios namespace x w).0 < unasked x)
        ⊎ ((unasked (serve axios namespace x w).0 ≡ unasked x)
            × (work (serve axios namespace x w).0 < work x))
  unfolding serve unasked work is_waiting
  serve-work (asking c) w e = inl (omega arith)
  serve-work (listing c info ss n i count) w e = inr (refl, omega arith)
  serve-work (told c info) w e = cc
  serve-work (heard c info ss n i count nodes) w e = cc
  serve-work (done r) w e = cc

  -- One task in place of another makes the list smaller as it does the task.
  replaced :
      {all : List Task} (xs : List Task) (x y : Task) (ys : List Task)
      → all ≡ xs ++ x ∷ ys
      → (unasked y < unasked x) ⊎ ((unasked y ≡ unasked x) × (work y < work x))
      → (sum_of unasked (xs ++ y ∷ ys) < sum_of unasked all)
        ⊎ ((sum_of unasked (xs ++ y ∷ ys) ≡ sum_of unasked all)
            × (sum_of work (xs ++ y ∷ ys) < sum_of work all))
  replaced xs x y ys e (inl less) =
      inl (rw e (omega (arith, less, sum_of-middle unasked xs x ys, sum_of-middle unasked xs y ys)))
  replaced xs x y ys e (inr (same, less)) = inr (
      rw e (
        omega (
          arith,
          same,
          less,
          sum_of-middle unasked xs x ys,
          sum_of-middle unasked xs y ys,
          sum_of-middle work xs x ys,
          sum_of-middle work xs y ys,
        )))

  Step-work :
      {s t : System W}
      → Step axios namespace s t
      → (sum_of unasked t.tasks < sum_of unasked s.tasks)
        ⊎ ((sum_of unasked t.tasks ≡ sum_of unasked s.tasks)
            × (sum_of work t.tasks < sum_of work s.tasks))
  Step-work {s} (answer xs x ys e wait) = replaced xs x _ ys e (serve-work x s.world wait)
  Step-work {s} (turn xs x ys e has) = replaced xs x _ ys e (inr (resume-work x s.totals has))

  Acc-below :
      (n m : ℕ) (s : System W)
      → sum_of unasked s.tasks < n
      → sum_of work s.tasks < m
      → Acc (λ t u. Step axios namespace u t) s
  Acc-below zero m s h k = absurd (omega arith)
  Acc-below (suc n) zero s h k = absurd (omega arith)
  Acc-below (suc n) (suc m) s h k = Acc.intro s (λ t step. elim (Step-work step) [
    | inl less ↦ Acc-below n (suc (sum_of work t.tasks)) t (omega arith) (omega arith)
    | inr less ↦ Acc-below (suc n) m t (omega arith) (omega arith)
  ])

  -- No run goes on for ever: whatever the server answers and in whatever order, every sequence of
  -- answers and turns of the callbacks is finite, from any state of the page.
  pub promises_terminate : (s : System W) → Acc (λ t u. Step axios namespace u t) s
  promises_terminate s =
      Acc-below (suc (sum_of unasked s.tasks)) (suc (sum_of work s.tasks)) s (omega arith)
        (omega arith)

  Task-cases : (x : Task) → (is_done x ≡ true) ⊎ ((is_waiting x ≡ true) ⊎ (is_answered x ≡ true))
  unfolding is_done is_waiting is_answered
  Task-cases (asking c) = inr (inl refl)
  Task-cases (listing c info ss n i count) = inr (inl refl)
  Task-cases (told c info) = inr (inr refl)
  Task-cases (heard c info ss n i count nodes) = inr (inr refl)
  Task-cases (done r) = inl refl

  -- The first callback of a list that has not ended.
  abbrev Pending : List Task → Type 0
  Pending all =
      (xs : List Task) × (x : Task) × (ys : List Task) × (all ≡ xs ++ x ∷ ys)
      × ((is_waiting x ≡ true) ⊎ (is_answered x ≡ true))

  next_callback : (all : List Task) → AllDone all ⊎ Pending all
  next_callback [] = inl tt
  next_callback (x ∷ xs) = elim (Task-cases x) [
    | inr open_ ↦ inr ([], x, xs, refl, open_)
    | inl ended ↦ elim (next_callback xs) [
      | inl rest ↦ inl (ended, rest)
      | inr (before, y, ys, e, open_) ↦ inr (x ∷ before, y, ys, ap (λ l. x ∷ l) e, open_)
    ]
  ]

  progress : (s : System W) → AllDone s.tasks ⊎ ((t : System W) × Step axios namespace s t)
  progress s = elim (next_callback s.tasks) [
    | inl ended ↦ inl ended
    | inr (xs, x, ys, e, inl wait) ↦ inr (_, answer xs x ys e wait)
    | inr (xs, x, ys, e, inr has) ↦ inr (_, turn xs x ys e has)
  ]

  finish :
      {r : System W} (s : System W)
      → Acc (λ t u. Step axios namespace u t) s
      → Reach axios namespace r s
      → (t : System W) × Reach axios namespace r t × AllDone t.tasks
  finish s (Acc.intro _ smaller) reached = elim (progress s) [
    | inl ended ↦ (s, reached, ended)
    | inr (t, step) ↦ finish t (smaller t step) (next reached step)
  ]

  -- No run gets stuck: from every state of the page some answers and turns lead to a state in
  -- which every callback has ended, so that `Promise.all` is settled, whatever the server answers.
  pub promises_finish :
      (s : System W) → (t : System W) × Reach axios namespace s t × AllDone t.tasks
  promises_finish s = finish s (promises_terminate s) here
