-- ===== src/Pages/Namespace/Promises/Counting.antt =====
-- webui/src/app/namespaces/[namespace]/page.tsx: the shared counters, whatever the order.
use kvrocks_controller.Common.{
  All, All-at, All-replace, List, Option, Option-cases, [], arith, inl, inr, length, map, none,
  refl, some, suc, sum_of, true, zero, ℕ, ◌++◌, ◌+◌, ◌∷◌, ◌≡◌,
}
use kvrocks_controller.Api.Calls.{Request}
use kvrocks_controller.Js.Text.{Text}
use kvrocks_controller.Js.Value.{Result, Value, to_text}
use kvrocks_controller.Pages.Cluster.Handlers.{has}
use kvrocks_controller.Pages.Namespace.{ClusterData}
use kvrocks_controller.Pages.Namespace.Gather.{Totals, keep, no_totals, shards_of}
use kvrocks_controller.Pages.Namespace.Promises.{
  Reach, Step, System, Task, answer, asking, collect, continue_loop, done, heard, here, is_answered,
  listing, next, result_of, resume, serve, settled, start_loop, started, told, turn, valid_data,
}
use kvrocks_controller.Pages.Namespace.Totals.{AddsUp, IsObject, IsWellFormed, summarize-ok}

module _ (measure : ClusterData → ℕ) where
  sum_of-keep :
      (o : Option ClusterData) (ds : List ClusterData)
      → sum_of measure (keep o ds) ≡ sum_of measure (keep o []) + sum_of measure ds
  unfolding sum_of keep
  sum_of-keep none ds = omega arith
  sum_of-keep (some d) ds = omega arith

  -- What the tasks before and after one of them keep, and what it keeps itself.
  pub sum_of-collect :
      (f : Task → Option ClusterData) (xs : List Task) (x : Task) (ys : List Task)
      → sum_of measure (collect f (xs ++ x ∷ ys))
        ≡ sum_of measure (collect f xs)
          + sum_of measure (keep (f x) [])
          + sum_of measure (collect f ys)
  unfolding collect sum_of
  sum_of-collect f [] x ys = omega (arith, sum_of-keep (f x) (collect f ys))
  sum_of-collect f (z ∷ zs) x ys = omega (
    arith,
    sum_of-keep (f z) (collect f (zs ++ x ∷ ys)),
    sum_of-keep (f z) (collect f zs),
    sum_of-collect f zs x ys,
  )

-- The shards that a callback has before it are objects.
abbrev IsSound : Task → Type 0
IsSound (told c info) = (ss : List Value) → shards_of info ≡ some ss → All IsObject ss
IsSound (listing c info ss n i count) = All IsObject ss
IsSound (heard c info ss n i count nodes) = All IsObject ss
IsSound x = Unit

-- A turn that ends a callback adds to the totals what the callback returns.
abbrev TurnAddsUp : Totals → Task × Totals → Type 0
TurnAddsUp t r = IsSound r.0 × AddsUp t (keep (result_of r.0) []) r.1

continue_loop-AddsUp :
    (c : Text) (info : Value) (ss : List Value) (n i count : ℕ) (t : Totals)
    → All IsObject ss
    → TurnAddsUp t (continue_loop c info ss n i count t)
unfolding continue_loop settled keep sum_of result_of
continue_loop-AddsUp c info ss zero i count t h =
    let (d, made, shards, counted) = summarize-ok info ss count h in (tt, rw made (omega arith))
continue_loop-AddsUp c info ss (suc n) i count t h = (h, omega arith)

resume-AddsUp :
    (x : Task) (t : Totals) → is_answered x ≡ true → IsSound x → TurnAddsUp t (resume x t)
unfolding resume start_loop is_answered keep sum_of result_of
resume-AddsUp (told c info) t e h = elim (Option-cases (shards_of info)) [
  | inl missing ↦ rw missing (tt, omega arith)
  | inr (ss, found) ↦ rw found (continue_loop-AddsUp c info ss (length ss) 0 0 t (h ss found))
]
resume-AddsUp (heard c info ss n i count nodes) t e h = continue_loop-AddsUp c info ss n _ _ t h
resume-AddsUp (asking c) t e h = cc
resume-AddsUp (listing c info ss n i count) t e h = cc
resume-AddsUp (done r) t e h = cc

result_of-is_answered : (x : Task) → is_answered x ≡ true → result_of x ≡ none
unfolding is_answered result_of
result_of-is_answered (done r) e = cc
result_of-is_answered (told c info) e = refl
result_of-is_answered (heard c info ss n i count nodes) e = refl
result_of-is_answered (asking c) e = refl
result_of-is_answered (listing c info ss n i count) e = refl

module _ {W : Type 0} (axios : Request → W → Result Value × W) (namespace : Text) where
  result_of-serve : (x : Task) (w : W) → result_of (serve axios namespace x w).0 ≡ result_of x
  unfolding serve result_of
  result_of-serve (asking c) w = refl
  result_of-serve (listing c info ss n i count) w = refl
  result_of-serve (done r) w = refl
  result_of-serve (told c info) w = refl
  result_of-serve (heard c info ss n i count nodes) w = refl

  -- Every callback has objects before it, and the totals are those of the callbacks that ended.
  pub record IsCounted (s : System W) : Type 0 where
    pub sound : All IsSound s.tasks
    pub adds_up : AddsUp no_totals (valid_data s.tasks) s.totals

  -- One task in place of another, where the totals grow by the difference.
  abbrev Shifts : Totals → Task → Totals → Task → Type 0
  Shifts t x t' y =
      (t'.total_shards + sum_of (λ d. d.shard_count) (keep (result_of x) [])
        ≡ t.total_shards + sum_of (λ d. d.shard_count) (keep (result_of y) []))
      × (t'.total_nodes + sum_of (λ d. d.node_count) (keep (result_of x) [])
          ≡ t.total_nodes + sum_of (λ d. d.node_count) (keep (result_of y) []))

  replace-AddsUp :
      (xs : List Task) (x y : Task) (ys : List Task) (t t' : Totals)
      → AddsUp no_totals (valid_data (xs ++ x ∷ ys)) t
      → Shifts t x t' y
      → AddsUp no_totals (valid_data (xs ++ y ∷ ys)) t'
  replace-AddsUp xs x y ys t t' h k = omega (
    arith,
    h,
    k,
    sum_of-collect (λ d. d.shard_count) result_of xs x ys,
    sum_of-collect (λ d. d.shard_count) result_of xs y ys,
    sum_of-collect (λ d. d.node_count) result_of xs x ys,
    sum_of-collect (λ d. d.node_count) result_of xs y ys,
  )

  module _ (well : IsWellFormed axios namespace) where
    serve-IsSound : (x : Task) (w : W) → IsSound x → IsSound (serve axios namespace x w).0
    unfolding serve
    serve-IsSound (asking c) w h = λ ss found. well.shards c w ss found
    serve-IsSound (listing c info ss n i count) w h = h
    serve-IsSound (done r) w h = h
    serve-IsSound (told c info) w h = h
    serve-IsSound (heard c info ss n i count nodes) w h = h

    serve-Shifts : (x : Task) (t : Totals) (w : W) → Shifts t x t (serve axios namespace x w).0
    serve-Shifts x t w = rw (result_of-serve x w) (refl, refl)

    resume-Shifts :
        (x : Task) (t : Totals)
        → is_answered x ≡ true
        → IsSound x
        → Shifts t x (resume x t).1 (resume x t).0
    unfolding keep sum_of
    resume-Shifts x t e h =
        rw (result_of-is_answered x e) (omega (arith, (resume-AddsUp x t e h).1))

    Step-IsCounted : {s t : System W} → Step axios namespace s t → IsCounted s → IsCounted t
    Step-IsCounted {s} (answer xs x ys e wait) h = record {
      sound = All-replace IsSound xs x _ ys (serve-IsSound x s.world) (rw (← e) h.sound);
      adds_up =
          replace-AddsUp xs x _ ys s.totals s.totals (rw (← e) h.adds_up)
            (serve-Shifts x s.totals s.world);
    }
    Step-IsCounted {s} (turn xs x ys e has) h =
        let sound : All IsSound (xs ++ x ∷ ys) = rw (← e) h.sound in
        record {
          sound = All-replace IsSound xs x _ ys (λ p. (resume-AddsUp x s.totals has p).0) sound;
          adds_up =
              replace-AddsUp xs x _ ys s.totals _ (rw (← e) h.adds_up)
                (resume-Shifts x s.totals has (All-at IsSound xs x ys sound));
        }

    started-IsCounted : (cs : List Value) (w : W) → IsCounted (started cs w)
    unfolding started sum_of collect result_of keep
    started-IsCounted cs w = record { sound = waiting cs; adds_up = nothing cs }
      where
        waiting : (cs : List Value) → All IsSound (map (λ c. asking (to_text c)) cs)
        waiting [] = tt
        waiting (c ∷ cs) = (tt, waiting cs)

        nothing :
            (cs : List Value)
            → AddsUp no_totals (valid_data (map (λ c. asking (to_text c)) cs)) no_totals
        nothing [] = (refl, refl)
        nothing (c ∷ cs) = nothing cs

    Reach-IsCounted : {s t : System W} → Reach axios namespace s t → IsCounted s → IsCounted t
    Reach-IsCounted here h = h
    Reach-IsCounted (next r st) h = Step-IsCounted st (Reach-IsCounted r h)

    -- At every moment of every interleaving of the clusters' requests, whatever the server answers
    -- and however its state changes between the answers, the totals are the sums of the shards
    -- and nodes of the clusters whose callbacks have ended, if every shard of a cluster that the
    -- controller sends is an object.
    pub totals_at_every_moment :
        (cs : List Value) (w : W) {s : System W}
        → Reach axios namespace (started cs w) s
        → AddsUp no_totals (valid_data s.tasks) s.totals
    totals_at_every_moment cs w r = (Reach-IsCounted r (started-IsCounted cs w)).adds_up
