-- ===== src/Pages/Namespace/Promises/Sequential.antt =====
-- webui/src/app/namespaces/[namespace]/page.tsx: one cluster after the other, what the callbacks owe
-- is what the loop adds.
use kvrocks_controller.Common.{
  List, Option, [], ap, arith, length, map, none, refl, some, sum_of, ◌+◌, ◌∷◌, ◌≡◌,
}
use kvrocks_controller.Api.Calls.{Request, fetch_cluster}
use kvrocks_controller.Js.Text.{Text}
use kvrocks_controller.Js.Value.{Result, Value, ok, throw, to_text}
use kvrocks_controller.Pages.Namespace.{ClusterData, summarize}
use kvrocks_controller.Pages.Namespace.Gather.{
  Totals, gather, gather_cluster, gather_shards, shards_of,
}
use kvrocks_controller.Pages.Namespace.Promises.{Task, asking, collect, settled}
use kvrocks_controller.Pages.Namespace.Promises.Due.{
  IsReadOnly, add_due, count_nodes-reads, due, fetch_cluster-reads, loop_due, start_due, totals_eq,
}

module _ {W : Type 0} (axios : Request → W → Result Value × W) (namespace : Text)
    (read_only : IsReadOnly axios) (w : W) where
  -- The sequential loop pays at once what the callback of a cluster owes.
  gather_shards-due :
      (c : Text) (info : Value) (ss : List Value) (t : Totals)
      → gather_shards axios namespace c info ss t w ≡ (
        (
          (loop_due axios namespace w c info ss (length ss) 0 0).0,
          add_due t (loop_due axios namespace w c info ss (length ss) 0 0),
        ),
        w,
      )
  unfolding gather_shards loop_due settled
  gather_shards-due c info ss t =
      split (summarize info ss _) _
        (count_nodes-reads axios namespace w read_only c (length ss) 0 0)
    where
      split :
          (r : Result ClusterData) (w' : W)
          → w' ≡ w
          → ◌≡◌ {A = (Option ClusterData × Totals) × W}
              (elim r as (λ _. (Option ClusterData × Totals) × W) [
                | ok d ↦
                    ((some d, add_due t (loop_due axios namespace w c info ss (length ss) 0 0)), w')
                | throw e ↦
                    ((none, add_due t (loop_due axios namespace w c info ss (length ss) 0 0)), w')
              ])
              ((settled r, add_due t (loop_due axios namespace w c info ss (length ss) 0 0)), w)
      split (ok d) w' e = rw e refl
      split (throw e') w' e = rw e refl

  gather_cluster-due :
      (c : Value) (t : Totals)
      → gather_cluster axios namespace c t w ≡ (
        (
          (due axios namespace w (asking (to_text c))).0,
          add_due t (due axios namespace w (asking (to_text c))),
        ),
        w,
      )
  unfolding gather_cluster due start_due
  gather_cluster-due c t =
      split _ (fetch_cluster-reads axios namespace w read_only (to_text c))
        (shards_of (fetch_cluster axios namespace _ w).0)
    where
      info : Value
      info = (fetch_cluster axios namespace (to_text c) w).0

      split :
          (w' : W)
          → w' ≡ w
          → (found : Option (List Value))
          → ◌≡◌ {A = (Option ClusterData × Totals) × W}
              (elim found as (λ _. (Option ClusterData × Totals) × W) [
                | none ↦ ((none, t), w')
                | some ss ↦ gather_shards axios namespace (to_text c) info ss t w'
              ])
              (
                (
                  (start_due axios namespace w (to_text c) info found).0,
                  add_due t (start_due axios namespace w (to_text c) info found),
                ),
                w,
              )
      split w' e none =
          rw e (ap (λ (t' : Totals). ((none, t'), w)) (totals_eq (omega arith) (omega arith)))
      split w' e (some ss) = rw e (gather_shards-due (to_text c) info ss t)

  abbrev pub tasks_of : List Value → List Task
  tasks_of = map (λ c. asking (to_text c))

  -- The sequential gathering, which returns and adds what the callbacks owe at the start.
  pub gather-due :
      (cs : List Value) (t : Totals)
      → ((gather axios namespace cs t w).0.0
          ≡ collect (λ x. (due axios namespace w x).0) (tasks_of cs))
        × ((gather axios namespace cs t w).0.1.total_shards
            ≡ t.total_shards + sum_of (λ x. (due axios namespace w x).1.total_shards) (tasks_of cs))
        × ((gather axios namespace cs t w).0.1.total_nodes
            ≡ t.total_nodes + sum_of (λ x. (due axios namespace w x).1.total_nodes) (tasks_of cs))
  unfolding gather collect sum_of
  gather-due [] t = (refl, omega arith, omega arith)
  gather-due (c ∷ cs) t =
      let (returned, shards, nodes) =
        gather-due cs (add_due t (due axios namespace w (asking (to_text c)))) in
      rw (gather_cluster-due c t) (rw returned refl, omega arith, omega arith)
