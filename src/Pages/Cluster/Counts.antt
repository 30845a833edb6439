-- ===== src/Pages/Cluster/Counts.antt =====
-- webui/src/app/namespaces/[namespace]/clusters/[cluster]/page.tsx: the counts of the page and the
-- numbers of its shards.
use kvrocks_controller.Common.{
  List, [], arith, count_of, length, refl, suc, sum_of, ℕ, ◌+◌, ◌∙◌, ◌∷◌, ◌≡◌,
}
use kvrocks_controller.Js.Text.{codes}
use kvrocks_controller.Js.Value.{Result, Value, get, null, ok, undefined, ◌>>=◌}
use kvrocks_controller.Js.Value.Laws.{>>=-eq-ok}
use kvrocks_controller.Pages.Cluster.{
  Counters, Page, ShardData, count_up, fetched_shard, no_counters, process, process_shards,
  rebuilt_shard, show_shards,
}
use kvrocks_controller.Pages.Effects.{elements}

abbrev pub AgreeWith : Counters → List ShardData → Counters → Type 0
AgreeWith c ds c' =
    (c'.total_nodes ≡ c.total_nodes + sum_of (λ d. d.node_count) ds)
    × (c'.with_slots ≡ c.with_slots + count_of (λ d. d.has_slots) ds)
    × (c'.migrating ≡ c.migrating + count_of (λ d. d.has_migration) ds)

module _ (read : ℕ → Value → Result ShardData) where
  -- The first shard of a run that did not throw, and the run over the others.
  process_shards-cons :
      (i : ℕ) (c : Counters) (v : Value) (vs : List Value) {ds : List ShardData} {c' : Counters}
      → process_shards read i c (v ∷ vs) ≡ ok (ds, c')
      → (d : ShardData) × (es : List ShardData) × (read i v ≡ ok d)
        × (process_shards read (suc i) (count_up d c) vs ≡ ok (es, c'))
        × (ds ≡ d ∷ es)
  unfolding process_shards
  process_shards-cons i c v vs {ds} {c'} h =
      let (d, read_d, h') =
        >>=-eq-ok (read i v)
          (λ d. process_shards read (suc i) (count_up d c) vs >>= λ r. ok (d ∷ r.0, r.1)) h in
      let (r, rest, h'') =
        >>=-eq-ok (process_shards read (suc i) (count_up d c) vs) (λ r. ok (d ∷ r.0, r.1)) h' in
      (d, r.0, read_d, rest ∙ ground arith, ground arith)

  pub process_shards-AgreeWith :
      (i : ℕ) (c : Counters) (vs : List Value) {ds : List ShardData} {c' : Counters}
      → process_shards read i c vs ≡ ok (ds, c')
      → AgreeWith c ds c'
  unfolding sum_of count_of count_up
  process_shards-AgreeWith i c [] h = unfold process_shards in ground arith
  process_shards-AgreeWith i c (v ∷ vs) h =
      let (d, es, read_d, rest, here) = process_shards-cons i c v vs h in
      let ih = process_shards-AgreeWith (suc i) (count_up d c) vs rest in rw here (ground arith)

-- The shards are numbered in their order.
abbrev pub IsNumbered : ℕ → List ShardData → Type 0
IsNumbered i [] = Unit
IsNumbered i (d ∷ ds) = (d.index ≡ i) × IsNumbered (suc i) ds

module _ (read : ℕ → Value → Result ShardData)
    (numbers : (i : ℕ) (v : Value) (d : ShardData) → read i v ≡ ok d → d.index ≡ i) where
  process_shards-IsNumbered :
      (i : ℕ) (c : Counters) (vs : List Value) {ds : List ShardData} {c' : Counters}
      → process_shards read i c vs ≡ ok (ds, c')
      → IsNumbered i ds
  process_shards-IsNumbered i c [] {ds} h = unfold process_shards in empty_lem ds (ground arith)
    where
      empty_lem : (ds : List ShardData) → ds ≡ [] → IsNumbered i ds
      empty_lem ds e = rw e tt
  process_shards-IsNumbered i c (v ∷ vs) h =
      let (d, es, read_d, rest, here) = process_shards-cons read i c v vs h in
      let ih = process_shards-IsNumbered (suc i) (count_up d c) vs rest in
      rw here (numbers i v d read_d, ih)

pub fetched_shard-index :
    (i : ℕ) (v : Value) (d : ShardData) → fetched_shard i v ≡ ok d → d.index ≡ i
unfolding fetched_shard get
fetched_shard-index i undefined d h = cc
fetched_shard-index i null d h = cc
fetched_shard-index i v d h = ground arith

pub rebuilt_shard-index :
    (i : ℕ) (v : Value) (d : ShardData) → rebuilt_shard i v ≡ ok d → d.index ≡ i
unfolding rebuilt_shard get
rebuilt_shard-index i undefined d h = cc
rebuilt_shard-index i null d h = cc
rebuilt_shard-index i v d h = ground arith

-- The page's counts are those of the shards it lists, and the shards are numbered from zero in
-- the controller's order, by which the delete button and the links address them.
pub record IsConsistent (p : Page) : Type 0 where
  pub shards : p.resource_counts.shards ≡ length p.shards_data
  pub nodes : p.resource_counts.nodes ≡ sum_of (λ d. d.node_count) p.shards_data
  pub with_slots : p.resource_counts.with_slots ≡ count_of (λ d. d.has_slots) p.shards_data
  pub migrating : p.resource_counts.migrating ≡ count_of (λ d. d.has_migration) p.shards_data
  pub numbered : IsNumbered 0 p.shards_data

module _ (read : ℕ → Value → Result ShardData)
    (numbers : (i : ℕ) (v : Value) (d : ShardData) → read i v ≡ ok d → d.index ≡ i) where
  pub show_shards-IsConsistent :
      (fetched : Value) (ds : List ShardData) (c : Counters) (p : Page)
      → process read fetched ≡ ok (ds, c)
      → IsConsistent (show_shards (ds, c) p)
  unfolding process show_shards
  show_shards-IsConsistent fetched ds c p h =
      let (vs, listed, done) =
        >>=-eq-ok (elements (codes "map") fetched) (process_shards read 0 no_counters) h in
      let (nodes, with_slots, migrating) = process_shards-AgreeWith read 0 no_counters vs done in
      record {
        shards = refl;
        nodes = nodes ∙ omega arith;
        with_slots = with_slots ∙ omega arith;
        migrating = migrating ∙ omega arith;
        numbered = process_shards-IsNumbered read numbers 0 no_counters vs done;
      }
