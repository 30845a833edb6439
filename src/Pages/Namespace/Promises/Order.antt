-- ===== src/Pages/Namespace/Promises/Order.antt =====
-- webui/src/app/namespaces/[namespace]/page.tsx: the order of the answers does not matter where
-- the server keeps its state.
use kvrocks_controller.Common.{
  List, Option, [], ap, ap₂, arith, refl, sum_of, sum_of-middle, sym, true, ◌++◌, ◌+◌, ◌∙◌, ◌∷◌,
  ◌≡◌,
}
use kvrocks_controller.Api.Calls.{Request}
use kvrocks_controller.Js.Text.{Text, same}
use kvrocks_controller.Js.Value.{Result, Value}
use kvrocks_controller.Pages.Cluster.Handlers.{has}
use kvrocks_controller.Pages.Namespace.{ClusterData}
use kvrocks_controller.Pages.Namespace.Gather.{Totals, gather, no_totals}
use kvrocks_controller.Pages.Namespace.Promises.{
  AllDone, Reach, Step, System, Task, answer, asking, collect, done, heard, here, is_done, listing,
  next, result_of, started, told, turn, valid_data,
}
use kvrocks_controller.Pages.Namespace.Promises.Due.{
  IsReadOnly, Pays, due, resume-Pays, serve-Pays, serve-reads, totals_eq,
}
use kvrocks_controller.Pages.Namespace.Promises.Sequential.{gather-due}

collect-replace :
    (f : Task → Option ClusterData) (xs : List Task) (x y : Task) (ys : List Task)
    → f y ≡ f x
    → collect f (xs ++ y ∷ ys) ≡ collect f (xs ++ x ∷ ys)
unfolding collect
collect-replace f [] x y ys e = rw e refl
collect-replace f (z ∷ zs) x y ys e = rw (collect-replace f zs x y ys e) refl

module _ {W : Type 0} (axios : Request → W → Result Value × W) (namespace : Text)
    (read_only : IsReadOnly axios) (w : W) where
  -- What all the callbacks will have returned and added in the end.
  record IsOnCourse (ds : List ClusterData) (total : Totals) (s : System W) : Type 0 where
    same_world : s.world ≡ w
    returned : collect (λ x. (due axios namespace w x).0) s.tasks ≡ ds
    shards :
        s.totals.total_shards + sum_of (λ x. (due axios namespace w x).1.total_shards) s.tasks
        ≡ total.total_shards
    nodes :
        s.totals.total_nodes + sum_of (λ x. (due axios namespace w x).1.total_nodes) s.tasks
        ≡ total.total_nodes

  replace-IsOnCourse :
      {ds : List ClusterData} {total : Totals} {s : System W} (xs : List Task) (x y : Task)
      (ys : List Task) (t : Totals) (w' : W)
      → IsOnCourse ds total s
      → s.tasks ≡ xs ++ x ∷ ys
      → w' ≡ w
      → Pays axios namespace w (due axios namespace w x) s.totals (y, t)
      → IsOnCourse ds total (record { tasks = xs ++ y ∷ ys; totals = t; world = w' })
  replace-IsOnCourse {s} xs x y ys t w' h e same (returns, shards, nodes) =
      let sums_shards = sum_of-middle (λ x. (due axios namespace w x).1.total_shards) xs in
      let sums_nodes = sum_of-middle (λ x. (due axios namespace w x).1.total_nodes) xs in
      let before = ap (sum_of (λ x. (due axios namespace w x).1.total_shards)) e in
      let before_nodes = ap (sum_of (λ x. (due axios namespace w x).1.total_nodes)) e in
      record {
        same_world = same;
        returned =
            collect-replace (λ x. (due axios namespace w x).0) xs x y ys returns
            ∙ sym (ap (collect (λ x. (due axios namespace w x).0)) e)
            ∙ h.returned;
        shards = omega (arith, h.shards, before, sums_shards x ys, sums_shards y ys, shards);
        nodes = omega (arith, h.nodes, before_nodes, sums_nodes x ys, sums_nodes y ys, nodes);
      }

  Step-IsOnCourse :
      {ds : List ClusterData} {total : Totals} {s t : System W}
      → Step axios namespace s t
      → IsOnCourse ds total s
      → IsOnCourse ds total t
  Step-IsOnCourse {s} (answer xs x ys e wait) h =
      replace-IsOnCourse xs x _ ys _ _ h e
        (rw h.same_world (serve-reads axios namespace w read_only x))
        (rw h.same_world (serve-Pays axios namespace w read_only x s.totals))
  Step-IsOnCourse {s} (turn xs x ys e has) h =
      replace-IsOnCourse xs x _ ys _ _ h e h.same_world (resume-Pays axios namespace w x s.totals)

  Reach-IsOnCourse :
      {ds : List ClusterData} {total : Totals} {s t : System W}
      → Reach axios namespace s t
      → IsOnCourse ds total s
      → IsOnCourse ds total t
  Reach-IsOnCourse here h = h
  Reach-IsOnCourse (next r st) h = Step-IsOnCourse st (Reach-IsOnCourse r h)

  started-IsOnCourse :
      (cs : List Value)
      → IsOnCourse
          (gather axios namespace cs no_totals w).0.0
          (gather axios namespace cs no_totals w).0.1
          (started cs w)
  unfolding started
  started-IsOnCourse cs =
      let (returned, shards, nodes) = gather-due axios namespace read_only w cs no_totals in
      record { same_world = refl; returned = sym returned; shards = sym shards; nodes = sym nodes }

  due-is_done : (x : Task) → is_done x ≡ true → due axios namespace w x ≡ (result_of x, no_totals)
  unfolding due is_done result_of
  due-is_done (done r) e = refl
  due-is_done (asking c) e = cc
  due-is_done (told c info) e = cc
  due-is_done (listing c info ss n i count) e = cc
  due-is_done (heard c info ss n i count nodes) e = cc

  AllDone-due :
      (xs : List Task)
      → AllDone xs
      → (collect (λ x. (due axios namespace w x).0) xs ≡ valid_data xs)
        × (sum_of (λ x. (due axios namespace w x).1.total_shards) xs ≡ 0)
        × (sum_of (λ x. (due axios namespace w x).1.total_nodes) xs ≡ 0)
  unfolding collect sum_of
  AllDone-due [] h = (refl, refl, refl)
  AllDone-due (x ∷ xs) (p, h) =
      let (returned, shards, nodes) = AllDone-due xs h in
      rw (due-is_done x p) (rw returned refl, omega arith, omega arith)

  -- Where GET requests leave the server's state as it is, `Promise.all` over the clusters' callbacks
  -- is a refinement of gathering one cluster after the other: in whatever order the requests of
  -- all clusters are answered and the callbacks run, once all have ended the data kept, its order
  -- and both totals are those of the sequential loop.
  pub promise_all_refines_gather :
      (cs : List Value) {s : System W}
      → Reach axios namespace (started cs w) s
      → AllDone s.tasks
      → (valid_data s.tasks, s.totals) ≡ (gather axios namespace cs no_totals w).0
  promise_all_refines_gather cs {s} r ended =
      let course = Reach-IsOnCourse r (started-IsOnCourse cs) in
      let (returned, shards, nodes) = AllDone-due s.tasks ended in
      ap₂ (λ (ds : List ClusterData) (t : Totals). (ds, t)) (sym returned ∙ course.returned)
        (totals_eq (omega (arith, course.shards, shards)) (omega (arith, course.nodes, nodes)))
