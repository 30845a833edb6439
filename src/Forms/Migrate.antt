-- ===== src/Forms/Migrate.antt =====
-- webui/src/app/ui/formCreation.tsx: the form that migrates a slot.
use kvrocks_controller.Common.{
  Bool, List, Option, [], false, get_elem?, if◌then◌else◌, inl, inr, length, none, some, suc, true,
  ℕ, ◌&&◌, ◌++◌, ◌||◌, ◌∷◌, ◌⊎◌,
}
use kvrocks_controller.Api.Calls.{Request, list_shards, migrate_slot}
use kvrocks_controller.Common.Int.{eqb_ℤ, leb_ℤ, ltb_ℤ, pos, pos_part, ℤ, ◌-ℤ◌}
use kvrocks_controller.Forms.Data.{
  FormData, Outcome, message, reloaded, text_field, validate_form_data,
}
use kvrocks_controller.Js.Decimal.{show_ℕ, show_ℤ}
use kvrocks_controller.Js.Number.{Num, int, nan, num_le, parse_int, to_number}
use kvrocks_controller.Js.Text.{Text, codes, includes, includes_unit, is_empty, same, split}
use kvrocks_controller.Js.Value.{
  Result, Value, arr, error, get, is_int, items, ok, str, throw, undefined, ◌>>=◌,
}

-- `slot >= start && slot <= end`
abbrev pub in_bounds : Num → Num → Num → Bool
in_bounds slot start stop = num_le start slot && num_le slot stop

unfoldable pub in_parts : Num → List Text → Bool
in_parts slot (first ∷ second ∷ _) = in_bounds slot (to_number first) (to_number second)
in_parts slot _ = false

-- Whether a range of a shard holds the slot; a range that is no text has no `includes`.
unfoldable pub range_holds : Num → Value → Result Bool
range_holds slot (str r) = ok (
    if includes_unit b'-' r
    then in_parts slot (split b'-' r)
    else in_bounds slot (to_number r) (to_number r))
range_holds slot v = throw (error (codes "range.includes is not a function"))

unfoldable pub ranges_hold : Num → List Value → Result Bool
ranges_hold slot [] = ok false
ranges_hold slot (r ∷ rs) = do
  here ← range_holds slot r
  let rest = ranges_hold slot rs
  if here then ok true else rest

unfoldable pub listed : Value → List Value
listed (arr vs) = items vs
listed v = []

-- The ranges of a shard; none where they are no array.
unfoldable pub shard_ranges : Value → Result (List Value)
shard_ranges s = do ranges ← get (codes "slot_ranges") s; ok (listed ranges)

-- The index of the first shard that holds the slot, counted from `i`.
unfoldable pub source_shard : Num → ℕ → List Value → Result (Option ℕ)
source_shard slot i [] = ok none
source_shard slot i (s ∷ ss) = do
  ranges ← shard_ranges s
  here ← ranges_hold slot ranges
  let rest = source_shard slot (suc i) ss
  if here then ok (some i) else rest

-- The shard at an index that the source has checked against `shards.length`.
unfoldable pub shard_at : List Value → ℕ → Value
shard_at ss i = elim (get_elem? ss i) [ none ↦ undefined | some s ↦ s ]

unfoldable pub check_import : ℤ → ℤ → List Value → Result (Option Text)
check_import target slot ss = do
  importing ← get (codes "import_slot") (shard_at ss (pos_part target))
  ok (
      if is_int slot importing
      then some (
          codes "Slot "
          ++ (show_ℤ slot
              ++ (codes " is already being imported to shard " ++ (show_ℤ target ++ codes "."))))
      else none)

-- The checks between the shards of the request; `some` is the message that refuses it.
unfoldable pub check_source : ℤ → ℤ → List Value → Option ℕ → Result (Option Text)
check_source target slot ss none = ok (
    some (
      codes "Slot "
      ++ (show_ℤ slot ++ codes " is not currently assigned to any shard and cannot be migrated.")))
check_source target slot ss (some source) =
    if eqb_ℤ (pos source) target
    then ok (
        some (
          codes "Cannot migrate slot "
          ++ (show_ℤ slot
              ++ (codes " to the same shard ("
                  ++ (show_ℤ target
                      ++ (codes "). The slot is already in shard "
                          ++ (show_ℕ source ++ codes ".")))))))
    else do
      migrating ← get (codes "migrating_slot") (shard_at ss source)
      let imported = check_import target slot ss
      (if is_int slot migrating
          then ok (
              some (
                codes "Slot "
                ++ (show_ℤ slot
                    ++ (codes " is already being migrated from shard "
                        ++ (show_ℕ source ++ codes ".")))))
          else imported)

unfoldable pub check_migration : ℤ → ℤ → Value → Result (Option Text)
check_migration target slot (arr vs) =
    if leb_ℤ (pos (length (items vs))) target
    then ok (
        some (
          codes "Target shard index "
          ++ (show_ℤ target
              ++ (codes " does not exist. Available shards: 0-"
                  ++ (show_ℤ (pos (length (items vs)) -ℤ pos 1) ++ codes ".")))))
    else do
      source ← source_shard (int slot) 0 (items vs)
      check_source target slot (items vs) source
check_migration target slot v =
    ok (some (codes "Failed to fetch shard information. Please check if the cluster exists."))

-- The message that the form makes of the controller's.
unfoldable pub explain : Text → Text
explain response =
    if includes response (codes "source and target shard is same")
    then codes
        "Migration failed: The source and target shards are the same. Please select a different target shard."
    else if includes response (codes "the entry does not exist")
    then codes "Migration failed: The specified cluster, shard, or slot does not exist."
    else if includes response (codes "already existed")
    then codes "Migration failed: The slot is already being migrated or exists in the target shard."
    else codes "Migration failed: " ++ response

-- A response that is no text has no `includes`.
unfoldable pub conclude_migration : Value → Result Outcome
conclude_migration (str t) = ok (if is_empty t then reloaded else message (str (explain t)))
conclude_migration v = throw (error (codes "response.includes is not a function"))

-- The numbers of the form, or the message that refuses them.
unfoldable pub migration_numbers : Num → Num → Text ⊎ (ℤ × ℤ)
migration_numbers target slot = elim target [
  | nan ↦ inl (codes "Target shard index must be a valid non-negative number.")
  | int t ↦
      if ltb_ℤ t (pos 0)
      then inl (codes "Target shard index must be a valid non-negative number.")
      else elim slot [
        | nan ↦ inl (codes "Slot must be a valid number between 0 and 16383.")
        | int s ↦
            if ltb_ℤ s (pos 0) || ltb_ℤ (pos 16383) s
            then inl (codes "Slot must be a valid number between 0 and 16383.")
            else inr (t, s)
      ]
]

-- A check that throws is logged, and the migration goes on.
unfoldable pub refusal : Result (Option Text) → Option Text
refusal (ok r) = r
refusal (throw t) = none

module _ {W : Type 0} (axios : Request → W → Result Value × W) (namespace cluster : Text) where
  unfoldable pub submit_migration : FormData → W → Result Outcome × W
  submit_migration fs w =
      elim (validate_form_data fs (codes "target" ∷ codes "slot" ∷ codes "slot_only" ∷ [])) [
        | some problem ↦ (ok (message (str problem)), w)
        | none ↦
            elim (migration_numbers (parse_int (text_field (codes "target") fs))
              (parse_int (text_field (codes "slot") fs))) [
                | inl problem ↦ (ok (message (str problem)), w)
                | inr (target, slot) ↦
                    let (shards, w') = list_shards axios namespace cluster w in
                    let (response, w'') =
                      migrate_slot axios namespace cluster (int target) (show_ℤ slot)
                        (same (text_field (codes "slot_only") fs) (codes "true")) w' in
                    elim (refusal (check_migration target slot shards)) [
                      | some problem ↦ (ok (message (str problem)), w')
                      | none ↦ (conclude_migration response, w'')
                    ]
              ]
      ]
