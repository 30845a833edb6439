-- ===== src/Pages/Cluster/Deleting.antt =====
-- webui/src/app/namespaces/[namespace]/clusters/[cluster]/page.tsx: the delete button of a shard.
use kvrocks_controller.Common.{
  arith, List, count_of, length, refl, suc, sum_of, [], false, none, true, ℕ, ◌++◌, ◌∷◌, ◌≡◌,
}
use kvrocks_controller.Api.Calls.{Request, delete_shard, list_shards}
use kvrocks_controller.Api.Laws.{
  IsBlankWhen, delete, delete_lem, deletion_request, drop_shard, is_deleted,
}
use kvrocks_controller.Js.Decimal.{show_ℕ}
use kvrocks_controller.Js.Text.{Text}
use kvrocks_controller.Js.Value.{Items, Result, Value, arr, items, ok, to_text}
use kvrocks_controller.Pages.Cluster.{
  Counters, Page, ShardData, count_up, no_counters, process, process_shards, rebuilt_shard,
  show_shards,
}
use kvrocks_controller.Pages.Cluster.Counts.{process_shards-AgreeWith}
use kvrocks_controller.Pages.Effects.{elements}
use kvrocks_controller.Pages.Cluster.Handlers.{
  alert, delete_failed, finish_deleting, handle_delete_shard, rebuild_shards,
}

-- The shards that are left are read, one by one, from the place `i` on.
abbrev pub AllRead : ℕ → List Value → List ShardData → Type 0
AllRead i [] [] = Unit
AllRead i (v ∷ vs) (d ∷ ds) = (rebuilt_shard i v ≡ ok d) × AllRead (suc i) vs ds
AllRead i _ _ = ⊥

process_shards-AllRead :
    (i : ℕ) (c : Counters) (vs : List Value) (ds : List ShardData)
    → AllRead i vs ds
    → (c' : Counters) × (process_shards rebuilt_shard i c vs ≡ ok (ds, c'))
unfolding process_shards
process_shards-AllRead i c [] [] h = (c, refl)
process_shards-AllRead i c [] (d ∷ ds) h = absurd h
process_shards-AllRead i c (v ∷ vs) [] h = absurd h
process_shards-AllRead i c (v ∷ vs) (d ∷ ds) (e, h) =
    let (c', k) = process_shards-AllRead (suc i) (count_up d c) vs ds h in (c', rw (e, k) refl)

-- The page that lists some shards, with the counts of those.
abbrev pub listing : List ShardData → Page → Page
listing ds p = record p {
  shards_data = ds;
  resource_counts = record {
    shards = length ds;
    nodes = sum_of (λ d. d.node_count) ds;
    with_slots = count_of (λ d. d.has_slots) ds;
    migrating = count_of (λ d. d.has_migration) ds;
  };
}

rebuild_shards-AllRead :
    (vs : Items) (ds : List ShardData) (p : Page)
    → AllRead 0 (items vs) ds
    → rebuild_shards (arr vs) p ≡ listing ds p
unfolding rebuild_shards process elements show_shards
rebuild_shards-AllRead vs ds p read =
    let (c, done) = process_shards-AllRead 0 no_counters (items vs) ds read in
    let counts = process_shards-AgreeWith rebuilt_shard 0 no_counters (items vs) done in
    let nodes : c.total_nodes ≡ sum_of (λ d. d.node_count) ds = omega (arith, counts.0) in
    let slots : c.with_slots ≡ count_of (λ d. d.has_slots) ds = omega (arith, counts.1) in
    let moving : c.migrating ≡ count_of (λ d. d.has_migration) ds = omega (arith, counts.2) in
    rw (rebuild_shards, process, elements, done, nodes, slots, moving) refl

module _ {W : Type 0} (axios : Request → W → Result Value × W) (namespace cluster : Text) where
  -- The controller's answer to the deletion of a shard by its index.
  abbrev pub answer : ℕ → W → Result Value × W
  answer i = axios (deletion_request (drop_shard namespace cluster (show_ℕ i)))

  delete_shard_lem :
      (i : ℕ) (w : W)
      → IsBlankWhen
          (is_deleted (answer i w).0)
          (delete_shard axios namespace cluster (show_ℕ i) w).0
        × ((delete_shard axios namespace cluster (show_ℕ i) w).1 ≡ (answer i w).1)
  delete_shard_lem i w =
      unfold delete in delete_lem axios (drop_shard namespace cluster (show_ℕ i)) w

  -- A confirmed deletion of a shard that the controller refuses is its only request; the shards
  -- and counts stay, one alert is added, and no shard is marked as being deleted.
  pub handle_delete_shard_refused :
      (i : ℕ) (p : Page) (w : W)
      → is_deleted (answer i w).0 ≡ false
      → (why : Text) × (handle_delete_shard axios namespace cluster true i p w ≡ (
        record p { deleting_shard_index = none; alerts = p.alerts ++ delete_failed why ∷ [] },
        (answer i w).1,
      ))
  unfolding handle_delete_shard finish_deleting alert
  handle_delete_shard_refused i p w bad =
      let (message, sent) = delete_shard_lem i w in
      (
        to_text (delete_shard axios namespace cluster (show_ℕ i) w).0,
        rw (message.0, message.1, bad, sent),
      )

  -- A confirmed deletion of a shard that the controller accepts is followed by one reading of the
  -- shards. Where that gives an array whose shards can all be read, the page lists what is read of
  -- them, in their order, and its counts are those of what it lists: the shards, the sum of their
  -- nodes, those with slots and those that migrate. No shard is marked as being deleted any more, and
  -- nothing else changes.
  pub handle_delete_shard_accepted :
      (i : ℕ) (p : Page) (w : W) (vs : Items) (ds : List ShardData)
      → is_deleted (answer i w).0 ≡ true
      → (list_shards axios namespace cluster (answer i w).1).0 ≡ arr vs
      → AllRead 0 (items vs) ds
      → handle_delete_shard axios namespace cluster true i p w ≡ (
        record (listing ds p) { deleting_shard_index = none },
        (list_shards axios namespace cluster (answer i w).1).1,
      )
  unfolding handle_delete_shard finish_deleting
  handle_delete_shard_accepted i p w vs ds good listed read =
      let (message, sent) = delete_shard_lem i w in
      rw (message.0, message.1, good, sent, listed, rebuild_shards-AllRead vs ds _ read)
