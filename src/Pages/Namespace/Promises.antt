-- ===== src/Pages/Namespace/Promises.antt =====
-- webui/src/app/namespaces/[namespace]/page.tsx: `Promise.all` over the clusters. The callbacks of
-- the clusters run by turns: each one runs from an `await` to its next, and the requests of all
-- are answered in any order. Gather makes the same requests one cluster after the other.
pub mod Counting
mod Due
mod Sequential
pub mod Order
pub mod Progress
mod Tests
use kvrocks_controller.Common.{
  All, Bool, List, Option, [], false, length, map, none, some, suc, true, zero, ℕ, ◌++◌, ◌+◌, ◌∷◌,
  ◌≡◌,
}
use kvrocks_controller.Api.Calls.{Request, fetch_cluster, list_nodes}
use kvrocks_controller.Js.Decimal.{show_ℕ}
use kvrocks_controller.Js.Text.{Text}
use kvrocks_controller.Js.Value.{Result, Value, ok, throw, to_text}
use kvrocks_controller.Pages.Effects.{count_items}
use kvrocks_controller.Pages.Namespace.{ClusterData, summarize}
use kvrocks_controller.Pages.Namespace.Gather.{Totals, keep, no_totals, shards_of}

-- The callback of one cluster, between two runs. `asking` and `listing` wait for an answer, `told`
-- and `heard` have it and wait for their turn. A loop has its index and the number of rounds left
-- after this one.
pub data Task : Type 0 where
  asking : Text → Task
  told : Text → Value → Task
  listing : Text → Value → List Value → ℕ → ℕ → ℕ → Task
  heard : Text → Value → List Value → ℕ → ℕ → ℕ → Value → Task
  done : Option ClusterData → Task

-- What the callback returns of the `try` block.
unfoldable pub settled : Result ClusterData → Option ClusterData
settled (ok d) = some d
settled (throw e) = none

-- The loop over the shards, at shard `i` with `n` rounds to go: the next request, or what follows
-- the loop. No `await` stands between the additions to the two totals.
unfoldable pub continue_loop : Text → Value → List Value → ℕ → ℕ → ℕ → Totals → Task × Totals
continue_loop c info ss zero i count t = (
  done (settled (summarize info ss count)),
  record { total_shards = t.total_shards + length ss; total_nodes = t.total_nodes + count },
)
continue_loop c info ss (suc n) i count t = (listing c info ss n i count, t)

-- The test that the answer is a cluster with shards, and the start of the loop.
unfoldable pub start_loop : Text → Value → Option (List Value) → Totals → Task × Totals
start_loop c info none t = (done none, t)
start_loop c info (some ss) t = continue_loop c info ss (length ss) 0 0 t

-- A turn of a callback whose answer has come.
unfoldable pub resume : Task → Totals → Task × Totals
resume (told c info) t = start_loop c info (shards_of info) t
resume (heard c info ss n i count nodes) t =
    continue_loop c info ss n (suc i) (count + count_items nodes) t
resume x t = (x, t)

unfoldable pub is_waiting : Task → Bool
is_waiting (asking c) = true
is_waiting (listing c info ss n i count) = true
is_waiting x = false

unfoldable pub is_answered : Task → Bool
is_answered (told c info) = true
is_answered (heard c info ss n i count nodes) = true
is_answered x = false

unfoldable pub is_done : Task → Bool
is_done (done r) = true
is_done x = false

-- Every promise of the list is settled.
abbrev pub AllDone : List Task → Type 0
AllDone = All (λ x. is_done x ≡ true)

-- The callbacks in the order of the clusters, the counters that they share, and the server.
pub record System (W : Type 0) : Type 0 where
  pub tasks : List Task
  pub totals : Totals
  pub world : W

-- `clusters.map(…)`: every callback runs up to its first request.
unfoldable pub started : {W : Type 0} → List Value → W → System W
started cs w = record { tasks = map (λ c. asking (to_text c)) cs; totals = no_totals; world = w }

unfoldable pub result_of : Task → Option ClusterData
result_of (done r) = r
result_of x = none

-- `keep` over a list: the filter of `data.filter(Boolean)`
unfoldable pub collect : (Task → Option ClusterData) → List Task → List ClusterData
collect f [] = []
collect f (x ∷ xs) = keep (f x) (collect f xs)

abbrev pub valid_data : List Task → List ClusterData
valid_data = collect result_of

module _ {W : Type 0} (axios : Request → W → Result Value × W) (namespace : Text) where
  -- The server answers the request that a callback waits for.
  unfoldable pub serve : Task → W → Task × W
  serve (asking c) w = let (info, w') = fetch_cluster axios namespace c w in (told c info, w')
  serve (listing c info ss n i count) w =
      let (nodes, w') = list_nodes axios namespace c (show_ℕ i) w in
      (heard c info ss n i count nodes, w')
  serve x w = (x, w)

  abbrev pub after_answer : System W → List Task → Task → List Task → System W
  after_answer s before x rest = record {
    tasks = before ++ (serve x s.world).0 ∷ rest;
    totals = s.totals;
    world = (serve x s.world).1;
  }

  abbrev pub after_turn : System W → List Task → Task → List Task → System W
  after_turn s before x rest = record {
    tasks = before ++ (resume x s.totals).0 ∷ rest;
    totals = (resume x s.totals).1;
    world = s.world;
  }

  -- One step of the page: the answer to a request of any callback that waits, or the turn of any
  -- callback that has its answer.
  pub data Step (s : System W) : System W → Type 0 where
    answer :
        (before : List Task) (x : Task) (rest : List Task)
        → s.tasks ≡ before ++ x ∷ rest
        → is_waiting x ≡ true
        → Step s (after_answer s before x rest)
    turn :
        (before : List Task) (x : Task) (rest : List Task)
        → s.tasks ≡ before ++ x ∷ rest
        → is_answered x ≡ true
        → Step s (after_turn s before x rest)

  pub data Reach (s : System W) : System W → Type 0 where
    here : Reach s s
    next : {t u : System W} → Reach s t → Step t u → Reach s u
