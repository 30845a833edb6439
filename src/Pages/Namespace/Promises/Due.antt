-- ===== src/Pages/Namespace/Promises/Due.antt =====
-- webui/src/app/namespaces/[namespace]/page.tsx: what a callback owes in every state: the data it
-- returns in the end and what it has yet to add to the totals, where the server keeps its state.
-- A GET request leaves the state of the server as it is.
use kvrocks_controller.Common.{
  List, Option, ap, arith, length, none, refl, some, suc, zero, ℕ, ◌+◌, ◌≡◌,
}
use kvrocks_controller.Api.Calls.{Request, fetch_cluster, getting, list_nodes}
use kvrocks_controller.Js.Decimal.{show_ℕ}
use kvrocks_controller.Js.Text.{Text}
use kvrocks_controller.Js.Value.{Result, Value}
use kvrocks_controller.Pages.Effects.{count_items}
use kvrocks_controller.Pages.Namespace.{ClusterData, summarize}
use kvrocks_controller.Pages.Namespace.Gather.{Totals, count_nodes, no_totals, shards_of}
use kvrocks_controller.Pages.Namespace.Promises.{
  Task, asking, continue_loop, done, heard, listing, resume, serve, settled, start_loop, told,
}

pub record IsReadOnly {W : Type 0} (axios : Request → W → Result Value × W) : Type 0 where
  pub reads : (u : Text) (w : W) → (axios (getting u) w).1 ≡ w

-- What a callback returns in the end, and what it has yet to add to the totals.
abbrev pub Due : Type 0
Due = Option ClusterData × Totals

abbrev pub add_due : Totals → Due → Totals
add_due t d = record {
  total_shards = t.total_shards + d.1.total_shards;
  total_nodes = t.total_nodes + d.1.total_nodes;
}

pub totals_eq :
    {t t' : Totals} → t.total_shards ≡ t'.total_shards → t.total_nodes ≡ t'.total_nodes → t ≡ t'
totals_eq e k = ground arith

module _ {W : Type 0} (axios : Request → W → Result Value × W) (namespace : Text) (w : W) where
  unfoldable pub loop_due : Text → Value → List Value → ℕ → ℕ → ℕ → Due
  loop_due c info ss n i count =
      let nodes = (count_nodes axios namespace c n i count w).0 in
      (settled (summarize info ss nodes), record { total_shards = length ss; total_nodes = nodes })

  unfoldable pub start_due : Text → Value → Option (List Value) → Due
  start_due c info none = (none, no_totals)
  start_due c info (some ss) = loop_due c info ss (length ss) 0 0

  unfoldable pub due : Task → Due
  due (asking c) =
      let info = (fetch_cluster axios namespace c w).0 in start_due c info (shards_of info)
  due (told c info) = start_due c info (shards_of info)
  due (listing c info ss n i count) = loop_due c info ss (suc n) i count
  due (heard c info ss n i count nodes) = loop_due c info ss n (suc i) (count + count_items nodes)
  due (done r) = (r, no_totals)

  -- A turn pays into the totals what the callback no longer owes.
  abbrev pub Pays : Due → Totals → Task × Totals → Type 0
  Pays d t r =
      ((due r.0).0 ≡ d.0)
      × (r.1.total_shards + (due r.0).1.total_shards ≡ t.total_shards + d.1.total_shards)
      × (r.1.total_nodes + (due r.0).1.total_nodes ≡ t.total_nodes + d.1.total_nodes)

  continue_loop-Pays :
      (c : Text) (info : Value) (ss : List Value) (n i count : ℕ) (t : Totals)
      → Pays (loop_due c info ss n i count) t (continue_loop c info ss n i count t)
  unfolding continue_loop due loop_due count_nodes
  continue_loop-Pays c info ss zero i count t = (refl, omega arith, omega arith)
  continue_loop-Pays c info ss (suc n) i count t = (refl, refl, refl)

  start_loop-Pays :
      (c : Text) (info : Value) (found : Option (List Value)) (t : Totals)
      → Pays (start_due c info found) t (start_loop c info found t)
  unfolding start_loop due start_due
  start_loop-Pays c info none t = (refl, refl, refl)
  start_loop-Pays c info (some ss) t = continue_loop-Pays c info ss (length ss) 0 0 t

  pub resume-Pays : (x : Task) (t : Totals) → Pays (due x) t (resume x t)
  unfolding due resume
  resume-Pays (told c info) t = start_loop-Pays c info (shards_of info) t
  resume-Pays (heard c info ss n i count nodes) t = continue_loop-Pays c info ss n _ _ t
  resume-Pays (asking c) t = (refl, refl, refl)
  resume-Pays (listing c info ss n i count) t = (refl, refl, refl)
  resume-Pays (done r) t = (refl, refl, refl)

  module _ (read_only : IsReadOnly axios) where
    pub fetch_cluster-reads : (c : Text) → (fetch_cluster axios namespace c w).1 ≡ w
    unfolding fetch_cluster
    fetch_cluster-reads c = read_only.reads _ w

    list_nodes-reads : (c s : Text) → (list_nodes axios namespace c s w).1 ≡ w
    unfolding list_nodes
    list_nodes-reads c s = read_only.reads _ w

    count_nodes-next :
        (c : Text) (n i count : ℕ)
        → count_nodes axios namespace c (suc n) i count w
          ≡ count_nodes axios namespace c n
              (suc i)
              (count + count_items (list_nodes axios namespace c (show_ℕ i) w).0)
              w
    unfolding count_nodes
    count_nodes-next c n i count =
        ap
          (count_nodes axios namespace c n (suc i)
            (count + count_items (list_nodes axios namespace c (show_ℕ i) w).0))
          (list_nodes-reads c _)

    pub count_nodes-reads :
        (c : Text) (n i count : ℕ) → (count_nodes axios namespace c n i count w).1 ≡ w
    unfolding count_nodes
    count_nodes-reads c zero i count = refl
    count_nodes-reads c (suc n) i count =
        rw (count_nodes-next c n i count) (count_nodes-reads c n _ _)

    due-serve : (x : Task) → due (serve axios namespace x w).0 ≡ due x
    unfolding due serve loop_due
    due-serve (asking c) = refl
    due-serve (listing c info ss n i count) = rw (count_nodes-next c n i count) refl
    due-serve (done r) = refl
    due-serve (told c info) = refl
    due-serve (heard c info ss n i count nodes) = refl

    pub serve-reads : (x : Task) → (serve axios namespace x w).1 ≡ w
    unfolding serve
    serve-reads (asking c) = fetch_cluster-reads c
    serve-reads (listing c info ss n i count) = list_nodes-reads c _
    serve-reads (done r) = refl
    serve-reads (told c info) = refl
    serve-reads (heard c info ss n i count nodes) = refl

    pub serve-Pays : (x : Task) (t : Totals) → Pays (due x) t ((serve axios namespace x w).0, t)
    serve-Pays x t = rw (due-serve x) (refl, refl, refl)
