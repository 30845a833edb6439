-- ===== src/Pages/Namespace/Rendering/Laws.antt =====
-- webui/src/app/namespaces/[namespace]/page.tsx: what a row says of a cluster's migration.
use kvrocks_controller.Common.{
  All, Bool-cases, List, [], ap, arith, false, inl, inr, refl, ℕ, ◌∷◌, ◌≡◌, ◌⊎◌,
}
use kvrocks_controller.Js.Text.{codes}
use kvrocks_controller.Js.Value.{
  Value, at_least_zero, coerce, get_opt, is_nullish, null, ok, or_else, str, undefined,
}
use kvrocks_controller.Js.Value.Laws.{
  at_least_zero-null, at_least_zero-range_text, at_least_zero-undefined, range_text,
}
use kvrocks_controller.Pages.Effects.{minus_one}
use kvrocks_controller.Pages.Namespace.{
  ClusterData, field_at_least_zero, find_shard, first_field, some_shard, summarize,
}
use kvrocks_controller.Pages.Namespace.Flags.{IsMigratingRange, SlotIs, migrating_test}
use kvrocks_controller.Pages.Namespace.Rendering.Rows.{state_row}
use kvrocks_controller.Pages.Namespace.Totals.{get-ok}
use kvrocks_controller.Ui.{text}
use kvrocks_controller.Ui.Parts.{show_if}

-- A shard as the controller sends it that moves no slot or a range of two ends: null or the text
-- of the range as its migrating slot, and no importing slot.
abbrev pub IsSent : Value → Type 0
IsSent s = (SlotIs null s ⊎ IsMigratingRange s) × (get_opt (codes "import_slot") s ≡ undefined)

-- The shard that `find` takes, if any, has null as its migrating slot.
find_shard-falsy :
    (ss : List Value)
    → All IsSent ss
    → (v : Value) × (find_shard (field_at_least_zero (codes "migrating_slot")) ss ≡ ok v)
      × (or_else (get_opt (codes "migrating_slot") v) minus_one ≡ minus_one)
unfolding find_shard get_opt
find_shard-falsy [] h = (undefined, refl, refl)
find_shard-falsy (s ∷ ss) ((inl idle, none_), hs) =
    (s, rw (migrating_test null s idle, at_least_zero-null) refl, rw idle.1 refl)
find_shard-falsy (s ∷ ss) ((inr (a, b, moving), none_), hs) =
    let (v, found, falsy) = find_shard-falsy ss hs in
    (
      v,
      rw (migrating_test (str (range_text a b)) s moving, at_least_zero-range_text a b) found,
      falsy,
    )

is_object : (s : Value) → SlotIs null s ⊎ IsMigratingRange s → is_nullish s ≡ false
is_object s (inl idle) = idle.0
is_object s (inr (a, b, moving)) = moving.0

importing_test :
    (s : Value)
    → is_nullish s ≡ false
    → get_opt (codes "import_slot") s ≡ undefined
    → field_at_least_zero (codes "import_slot") s ≡ ok false
unfolding field_at_least_zero
importing_test s object_ none_ =
    rw (get-ok (codes "import_slot") s object_, none_, at_least_zero-undefined) refl

some_shard-importing :
    (ss : List Value)
    → All IsSent ss
    → some_shard (field_at_least_zero (codes "import_slot")) ss ≡ ok false
unfolding some_shard
some_shard-importing [] h = refl
some_shard-importing (s ∷ ss) ((p, none_), hs) =
    rw (importing_test s (is_object s p) none_) (some_shard-importing ss hs)

summarize-flags :
    (info : Value) (ss : List Value) (n : ℕ) {d : ClusterData}
    → summarize info ss n ≡ ok d
    → (some_shard (field_at_least_zero (codes "import_slot")) ss ≡ ok d.has_importing)
      × (first_field
            (field_at_least_zero (codes "migrating_slot"))
            (codes "migrating_slot")
            minus_one
            ss
          ≡ ok d.migrating_slot)
unfolding summarize
summarize-flags info ss n h = ground arith

kept_flags :
    (info : Value) (ss : List Value) (n : ℕ) {d : ClusterData}
    → All IsSent ss
    → summarize info ss n ≡ ok d
    → (d.has_importing ≡ false) × (d.migrating_slot ≡ minus_one)
unfolding first_field
kept_flags info ss n {d} h made =
    let (importing, migrating) = summarize-flags info ss n made in
    let (v, found, falsy) = find_shard-falsy ss h in
    (cc (importing, some_shard-importing ss h), cc (migrating, first_slot v found falsy))
  where
    first_slot :
        (v : Value)
        → find_shard (field_at_least_zero (codes "migrating_slot")) ss ≡ ok v
        → or_else (get_opt (codes "migrating_slot") v) minus_one ≡ minus_one
        → first_field
            (field_at_least_zero (codes "migrating_slot"))
            (codes "migrating_slot")
            minus_one
            ss
          ≡ ok minus_one
    first_slot v found falsy = rw (found, first_field) (ap ok falsy)

-- The page of a namespace marks a kept cluster as stable, and as nothing else, whenever each of its
-- shards moves nothing or a range of two ends, so also while its shards migrate: the controller
-- sends null or the text of the range, and no importing slot.
pub moving_cluster_stable :
    (info : Value) (ss : List Value) (n : ℕ) {d : ClusterData}
    → All IsSent ss
    → summarize info ss n ≡ ok d
    → state_row d ≡ text (codes "Stable") ∷ []
unfolding state_row show_if at_least_zero coerce
moving_cluster_stable info ss n {d} h made =
    let (importing, slot) = kept_flags info ss n h made in
    elim (Bool-cases d.has_migration) [
      | inl flagged ↦ rw (flagged, importing, slot) refl
      | inr missed ↦ rw (missed, importing) refl
    ]
