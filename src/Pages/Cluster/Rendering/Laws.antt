-- ===== src/Pages/Cluster/Rendering/Laws.antt =====
-- webui/src/app/namespaces/[namespace]/clusters/[cluster]/page.tsx: what the page shows, against what
-- its handlers and the migration dialog do.
use kvrocks_controller.Common.{
  Bool, List, [], ap, arith, false, filter, if◌then◌else◌, inl, inr, length, ltb, map, not, refl,
  sym, true, ℕ, ◌++◌, ◌+◌, ◌↔◌, ◌∙◌, ◌∷◌, ◌≡◌, ◌≢◌, ◌≤◌,
}
use kvrocks_controller.Dialogs.Migration.View.{Shard, available_target_shards}
use kvrocks_controller.Js.Decimal.{show_ℕ}
use kvrocks_controller.Js.Sort.Laws.{length-sort}
use kvrocks_controller.Js.Text.{Text, codes, includes, is_empty, starts_with}
use kvrocks_controller.Pages.Cluster.{
  FilterOption, Page, ShardData, any_shard, no_migration, no_slots, slots_only, with_importing,
  with_migration,
}
use kvrocks_controller.Pages.Cluster.Rendering.{Action, clear_search, create_shard, open_migration}
use kvrocks_controller.Pages.Cluster.Rendering.Header.{header_view, migrate_disabled, search_view}
use kvrocks_controller.Pages.Cluster.Rendering.Options.{filter_count}
use kvrocks_controller.Pages.Cluster.View.{
  compare_shards, filtered_and_sorted_shards, is_listed, matches_search, passes_filter,
}
use kvrocks_controller.Ui.{Offers, Shown, button}
use kvrocks_controller.Ui.Laws.{Offers-append, Offers-right}
use kvrocks_controller.Ui.Parts.{show_if, texts_of}

filter-same :
    {A : Type 0} (p q : A → Bool) (xs : List A) → ((x : A) → p x ≡ q x) → filter p xs ≡ filter q xs
unfolding filter
filter-same p q [] same_test = refl
filter-same p q (x ∷ xs) same_test = rw (same_test x, filter-same p q xs same_test) refl

filter-all : {A : Type 0} (xs : List A) → filter (λ x. true) xs ≡ xs
unfolding filter
filter-all [] = refl
filter-all (x ∷ xs) = ap (λ ys. x ∷ ys) (filter-all xs)

includes-empty : (s : Text) → includes s [] ≡ true
unfolding includes starts_with
includes-empty [] = refl
includes-empty (c ∷ s) = refl

length-passes_filter :
    (o : FilterOption) (ds : List ShardData)
    → length (filter (passes_filter o) ds) ≡ filter_count ds o
unfolding passes_filter filter_count
length-passes_filter any_shard ds = ap length (filter-all ds)
length-passes_filter with_migration ds = refl
length-passes_filter no_migration ds = refl
length-passes_filter slots_only ds = refl
length-passes_filter no_slots ds = refl
length-passes_filter with_importing ds = refl

-- The number in the chip of a filter is the number of shards that the cluster page lists once this
-- filter is chosen and nothing is searched for, in any order, if the lower case of the empty text
-- is empty.
pub filter_count_lem :
    (lower : Text → Text)
    → lower [] ≡ []
    → (o : FilterOption) (p : Page)
    → length (filtered_and_sorted_shards lower (record p { filter_option = o; search_term = [] }))
      ≡ filter_count p.shards_data o
unfolding filtered_and_sorted_shards is_listed matches_search
filter_count_lem lower empty_lower o p =
    length-sort (compare_shards p.sort_option) _
    ∙ ap length (filter-same _ (passes_filter o) p.shards_data (λ d. listed_by d))
    ∙ length-passes_filter o p.shards_data
  where
    listed_by :
        (d : ShardData)
        → (if not (includes (lower (codes "shard " ++ show_ℕ (d.index + 1))) (lower []))
            then false
            else passes_filter o d)
          ≡ passes_filter o d
    listed_by d =
        rw (empty_lower, includes-empty (lower (codes "shard " ++ show_ℕ (d.index + 1)))) refl

-- The shards that the page hands to the migration dialog.
unfoldable pub dialog_shard : ShardData → Shard
dialog_shard d = record {
  index = d.index;
  slot_ranges = texts_of d.slot_ranges;
  node_count = d.node_count;
  has_slots = d.has_slots;
  has_migration = d.has_migration;
  has_importing = d.has_importing;
}

length-available :
    (ds : List ShardData)
    → length (available_target_shards (map dialog_shard ds)) ≡ length (filter (λ d. d.has_slots) ds)
unfolding available_target_shards filter dialog_shard
length-available [] = refl
length-available (d ∷ ds) = ground (arith, length-available ds)

search_view-clear_search : (p : Page) (a : Action) → Offers (search_view p) a → a ≡ clear_search
unfolding search_view show_if
search_view-clear_search p a h = split (not (is_empty p.search_term)) h
  where
    split :
        (b : Bool)
        → Offers (if b then button (codes "✕") false clear_search ∷ [] else []) a
        → a ≡ clear_search
    split true (inl e) = sym e
    split true (inr h) = absurd h
    split false h = absurd h

-- The button that opens the migration dialog can be used exactly when the dialog has at least two
-- shards with slots to choose from.
pub migrate_button_iff :
    (cluster : Text) (p : Page)
    → Offers (header_view cluster p) open_migration
      ↔ (2 ≤ length (available_target_shards (map dialog_shard p.shards_data)))
unfolding header_view migrate_disabled
migrate_button_iff cluster p = rw (length-available p.shards_data) (forward, backward)
  where
    slots : ℕ
    slots = length (filter (λ d. d.has_slots) p.shards_data)

    buttons : List (Shown Action)
    buttons =
        button (codes "Create Shard") false create_shard
        ∷ button (codes "Migrate Slot") (ltb slots 2) open_migration
        ∷ []

    enough :
        (b : Bool)
        → ltb slots 2 ≡ b
        → Offers (button (codes "Migrate Slot") b open_migration ∷ []) open_migration
        → 2 ≤ slots
    enough true e h = absurd h
    enough false e h = ground arith

    forward : Offers (header_view cluster p) open_migration → 2 ≤ slots
    forward h = elim (Offers-append (search_view p) buttons open_migration h) [
      | inl s ↦ absurd (differ (search_view-clear_search p open_migration s))
      | inr (inl e) ↦ cc
      | inr (inr h') ↦ enough _ refl h'
    ]
      where
        differ : open_migration ≢ clear_search
        differ = cc

    offered :
        (b : Bool)
        → b ≡ false
        → Offers (button (codes "Migrate Slot") b open_migration ∷ []) open_migration
    offered true e = cc
    offered false e = inl refl

    backward : 2 ≤ slots → Offers (header_view cluster p) open_migration
    backward h =
        Offers-right (search_view p) buttons open_migration
          (let few : ltb slots 2 ≡ false = ground arith in inr (offered _ few))
