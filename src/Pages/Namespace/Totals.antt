-- ===== src/Pages/Namespace/Totals.antt =====
-- webui/src/app/namespaces/[namespace]/page.tsx: the totals that are gathered.
use kvrocks_controller.Common.{
  All, Bool, List, Option, Option-cases, [], arith, false, if◌then◌else◌, inl, inr, length, none,
  refl, some, sum_of, true, ℕ, ◌+◌, ◌∷◌, ◌≡◌,
}
use kvrocks_controller.Api.Calls.{Request, fetch_cluster}
use kvrocks_controller.Common.Int.{negsuc}
use kvrocks_controller.Js.Text.{Text, codes}
use kvrocks_controller.Js.Value.{
  Result, Value, arr, at_least_zero, get, get_opt, is_int, is_nullish, nil, null, ok, or_else,
  to_text, undefined,
}
use kvrocks_controller.Pages.Effects.{has_items, minus_one}
use kvrocks_controller.Pages.Namespace.{
  ClusterData, Page, ShardTest, every_shard, field_at_least_zero, find_shard, first_field,
  holds_slots, is_idle, some_shard, summarize,
}
use kvrocks_controller.Pages.Namespace.Gather.{
  Totals, count_nodes, gather, gather_cluster, gather_shards, keep, shards_of,
}

abbrev pub IsObject : Value → Type 0
IsObject s = is_nullish s ≡ false

pub get-ok : (k : Text) (s : Value) → IsObject s → get k s ≡ ok (get_opt k s)
unfolding get
get-ok k undefined h = cc
get-ok k null h = cc
get-ok k s h = refl

abbrev pub IsTotal : ShardTest → Type 0
IsTotal test = (s : Value) → IsObject s → (b : Bool) × (test s ≡ ok b)

holds_slots-IsTotal : IsTotal holds_slots
unfolding holds_slots
holds_slots-IsTotal s h = (has_items (get_opt (codes "slot_ranges") s), rw (get-ok _ s h))

field_at_least_zero-IsTotal : (k : Text) → IsTotal (field_at_least_zero k)
unfolding field_at_least_zero
field_at_least_zero-IsTotal k s h = (at_least_zero (get_opt k s), rw (get-ok k s h))

is_idle-IsTotal : IsTotal is_idle
unfolding is_idle
is_idle-IsTotal s h = (is_int (negsuc 0) (get_opt (codes "migrating_slot") s), rw (get-ok _ s h))

module _ (test : ShardTest) (total : IsTotal test) where
  some_shard-ok : (ss : List Value) → All IsObject ss → (b : Bool) × (some_shard test ss ≡ ok b)
  unfolding some_shard
  some_shard-ok [] h = (false, refl)
  some_shard-ok (s ∷ ss) (p, h) =
      let (b, here) = total s p in
      let (c, later) = some_shard-ok ss h in
      ((if b then true else c), rw (here, later) (ground arith))

  every_shard-ok : (ss : List Value) → All IsObject ss → (b : Bool) × (every_shard test ss ≡ ok b)
  unfolding every_shard
  every_shard-ok [] h = (true, refl)
  every_shard-ok (s ∷ ss) (p, h) =
      let (b, here) = total s p in
      let (c, later) = every_shard-ok ss h in
      ((if b then c else false), rw (here, later) (ground arith))

  find_shard-ok : (ss : List Value) → All IsObject ss → (v : Value) × (find_shard test ss ≡ ok v)
  unfolding find_shard
  find_shard-ok [] h = (undefined, refl)
  find_shard-ok (s ∷ ss) (p, h) =
      let (b, here) = total s p in
      let (c, later) = find_shard-ok ss h in ((if b then s else c), rw (here, later) (ground arith))

  first_field-ok :
      (k : Text) (fallback : Value) (ss : List Value)
      → All IsObject ss
      → (v : Value) × (first_field test k fallback ss ≡ ok v)
  unfolding first_field
  first_field-ok k fallback ss h =
      let (v, found) = find_shard-ok ss h in (or_else (get_opt k v) fallback, rw found)

-- A cluster whose shards are all objects is kept.
pub summarize-ok :
    (info : Value) (ss : List Value) (n : ℕ)
    → All IsObject ss
    → (d : ClusterData) × (summarize info ss n ≡ ok d)
      × (d.shard_count ≡ length ss)
      × (d.node_count ≡ n)
unfolding summarize
summarize-ok info ss n h =
    let (slots, a) = some_shard-ok holds_slots holds_slots-IsTotal ss h in
    let (migrating, b) =
      some_shard-ok _ (field_at_least_zero-IsTotal (codes "migrating_slot")) ss h in
    let (idle, c) = every_shard-ok is_idle is_idle-IsTotal ss h in
    let (importing, d) = some_shard-ok _ (field_at_least_zero-IsTotal (codes "import_slot")) ss h in
    let (ranges, e) =
      first_field-ok holds_slots holds_slots-IsTotal (codes "slot_ranges") (arr nil) ss h in
    let (slot, f) =
      first_field-ok _ (field_at_least_zero-IsTotal (codes "migrating_slot"))
        (codes "migrating_slot") minus_one ss h in
    let (import_slot, g) =
      first_field-ok _ (field_at_least_zero-IsTotal (codes "import_slot")) (codes "import_slot")
        minus_one ss h in
    let (target, i) =
      first_field-ok _ (field_at_least_zero-IsTotal (codes "target_shard_index"))
        (codes "target_shard_index") minus_one ss h in
    (
      record {
        info = info;
        shards = ss;
        shard_count = length ss;
        node_count = n;
        has_slots = slots;
        has_migration = migrating;
        has_no_migration = idle;
        has_importing = importing;
        slot_ranges = ranges;
        migrating_slot = slot;
        importing_slot = import_slot;
        target_shard_index = target;
      },
      rw (a, b, c, d, e, f, g, i),
      refl,
      refl,
    )

-- Every shard of a cluster that the controller sends is an object.
pub record IsWellFormed {W : Type 0} (axios : Request → W → Result Value × W) (namespace : Text)
    : Type 0 where
  pub shards :
      (cluster : Text) (w : W) (ss : List Value)
      → shards_of (fetch_cluster axios namespace cluster w).0 ≡ some ss
      → All IsObject ss

abbrev pub AddsUp : Totals → List ClusterData → Totals → Type 0
AddsUp t ds t' =
    (t'.total_shards ≡ t.total_shards + sum_of (λ d. d.shard_count) ds)
    × (t'.total_nodes ≡ t.total_nodes + sum_of (λ d. d.node_count) ds)

-- The outcome of gathering one cluster adds to the totals what it keeps.
abbrev Counted : {W : Type 0} → Totals → (Option ClusterData × Totals) × W → Type 0
Counted t r = AddsUp t (keep r.0.0 []) r.0.1

module _ {W : Type 0} (axios : Request → W → Result Value × W) (namespace : Text) where
  gather_shards-ok :
      (cluster : Text) (info : Value) (ss : List Value) (t : Totals) (w : W) (d : ClusterData)
      → summarize info ss (count_nodes axios namespace cluster (length ss) 0 0 w).0 ≡ ok d
      → gather_shards axios namespace cluster info ss t w ≡ (
        (
          some d,
          record {
            total_shards = t.total_shards + length ss;
            total_nodes = t.total_nodes + (count_nodes axios namespace cluster (length ss) 0 0 w).0;
          },
        ),
        (count_nodes axios namespace cluster (length ss) 0 0 w).1,
      )
  unfolding gather_shards
  gather_shards-ok cluster info ss t w d h = rw (h, gather_shards)

  gather_shards-Counted :
      (cluster : Text) (info : Value) (ss : List Value) (t : Totals) (w : W)
      → All IsObject ss
      → Counted t (gather_shards axios namespace cluster info ss t w)
  unfolding keep sum_of
  gather_shards-Counted cluster info ss t w h =
      let (d, made, shards, counted) =
        summarize-ok info ss (count_nodes axios namespace cluster (length ss) 0 0 w).0 h in
      rw (gather_shards-ok cluster info ss t w d made) (omega arith)

  module _ (well : IsWellFormed axios namespace) where
    gather_cluster-Counted :
        (c : Value) (t : Totals) (w : W) → Counted t (gather_cluster axios namespace c t w)
    unfolding gather_cluster keep sum_of
    gather_cluster-Counted c t w =
        elim (Option-cases (shards_of (fetch_cluster axios namespace (to_text c) w).0)) [
          | inl missing ↦ rw (missing, gather_cluster) (omega arith)
          | inr (ss, found) ↦
              rw (found, gather_cluster)
                (gather_shards-Counted (to_text c) _ ss t _ (well.shards (to_text c) w ss found))
        ]

    pub gather-AddsUp :
        (cs : List Value) (t : Totals) (w : W)
        → AddsUp t (gather axios namespace cs t w).0.0 (gather axios namespace cs t w).0.1
    unfolding gather keep sum_of
    gather-AddsUp [] t w = omega arith
    gather-AddsUp (c ∷ cs) t w =
        let r = gather_cluster axios namespace c t w in
        joined r.0.0 (gather axios namespace cs r.0.1 r.1).0.0 (gather_cluster-Counted c t w)
          (gather-AddsUp cs r.0.1 r.1)
      where
        joined :
            (found : Option ClusterData) (ds : List ClusterData) {t' t'' : Totals}
            → AddsUp t (keep found []) t'
            → AddsUp t' ds t''
            → AddsUp t (keep found ds) t''
        joined none ds h k = omega arith
        joined (some d) ds h k = omega arith

-- The counts of the page are those of the clusters that it lists.
pub record IsConsistent (p : Page) : Type 0 where
  pub clusters : p.resource_counts.clusters ≡ length p.cluster_data
  pub shards : p.resource_counts.shards ≡ sum_of (λ d. d.shard_count) p.cluster_data
  pub nodes : p.resource_counts.nodes ≡ sum_of (λ d. d.node_count) p.cluster_data
