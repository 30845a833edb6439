-- ===== src/Dialogs/Migration/Handlers.antt =====
-- webui/src/app/ui/migrationDialog.tsx: what the handlers of the dialog do.
use kvrocks_controller.Common.{
  Bool, Bool-cases, List, Option-cases, [], arith, false, inl, inr, none, not, refl, some, true,
  ◌++◌, ◌||◌, ◌∷◌, ◌≡◌, ◌≢◌,
}
use kvrocks_controller.Api.Calls.{Request, migrate_slot}
use kvrocks_controller.Api.Laws.{create, create_lem, creation_request, is_created, new_migration}
use kvrocks_controller.Common.Int.{eq_of_parts, eqb_ℤ, negsuc, ℤ}
use kvrocks_controller.Dialogs.Callbacks.{close, success}
use kvrocks_controller.Dialogs.Migration.{
  Dialog, call_back, finish_migration, handle_close, handle_migration, initial, refused, reset_form,
  sending, start_migration, validate_range, validate_single, validate_slot_input,
}
use kvrocks_controller.Js.Number.{int}
use kvrocks_controller.Js.Text.{Text, codes, is_empty, split, trim}
use kvrocks_controller.Js.Value.{Result, Value, str, truthy}

-- A migration can be sent: a target is selected and the slot is accepted.
pub record IsReady (d : Dialog) : Type 0 where
  pub selected : d.target_shard_index ≢ negsuc 0
  pub accepted : validate_slot_input d.slot_number ≡ none

accepted-not_blank : (t : Text) → validate_slot_input t ≡ none → is_empty (trim t) ≡ false
unfolding validate_slot_input
accepted-not_blank t h = ground arith

eqb_ℤ-false : (a b : ℤ) → a ≢ b → eqb_ℤ a b ≡ false
eqb_ℤ-false a b h = ground (arith, eq_of_parts a b)

start_migration_lem :
    (d : Dialog)
    → IsReady d
    → start_migration d ≡ sending (record d { loading = true; error_shown = str [] })
unfolding start_migration
start_migration_lem d r = rw (
  eqb_ℤ-false d.target_shard_index (negsuc 0) r.selected,
  accepted-not_blank d.slot_number r.accepted,
  r.accepted,
)

range_rejection_truthy :
    (ts : List Text) (m : Text) → validate_range ts ≡ some m → truthy (str m) ≡ true
unfolding validate_range
range_rejection_truthy (a ∷ b ∷ []) m h = ground arith
range_rejection_truthy _ m h = ground arith

rejection_truthy : (t m : Text) → validate_slot_input t ≡ some m → truthy (str m) ≡ true
unfolding validate_slot_input validate_single
rejection_truthy t m h = ground (arith, range_rejection_truthy (split b'-' t) m)

abbrev unselected : Text
unselected = codes "Please select a target shard and enter a slot number or range"

abbrev no_selection : Dialog → Bool
no_selection d = eqb_ℤ d.target_shard_index (negsuc 0) || is_empty (trim d.slot_number)

selected_of : (d : Dialog) → no_selection d ≡ false → d.target_shard_index ≢ negsuc 0
selected_of d h = ground arith

-- A dialog that is not ready does not start, and gets a message that is not blank.
start_migration_refused :
    (d : Dialog)
    → ¬ IsReady d
    → (message : Value) × (truthy message ≡ true)
      × (start_migration d ≡ refused (record d { error_shown = message }))
unfolding start_migration
start_migration_refused d r = elim (Bool-cases (no_selection d)) [
  | inl missing ↦ (str unselected, refl, rw missing)
  | inr given ↦ elim (Option-cases (validate_slot_input d.slot_number)) [
    | inr (message, rejected) ↦
        (str message, rejection_truthy d.slot_number message rejected, rw (given, rejected))
    | inl accepted ↦ absurd (r (record { selected = selected_of d given; accepted = accepted }))
  ]
]

module _ {W : Type 0} (axios : Request → W → Result Value × W) (namespace cluster : Text) where
  -- The controller's answer to the request that the dialog sends.
  abbrev pub answer : Dialog → W → Result Value × W
  answer d = axios (
      creation_request (
        new_migration namespace cluster (int d.target_shard_index) (trim d.slot_number)
          d.slot_only))

  abbrev reply : Dialog → W → Value × W
  reply d =
      migrate_slot axios namespace cluster (int d.target_shard_index) (trim d.slot_number)
        d.slot_only

  migrate_slot_lem :
      (d : Dialog) (w : W)
      → (truthy (reply d w).0 ≡ not (is_created (answer d w).0)) × ((reply d w).1 ≡ (answer d w).1)
  migrate_slot_lem d w =
      let (blank, sent) =
        create_lem axios
          (new_migration namespace cluster (int d.target_shard_index) (trim d.slot_number)
            d.slot_only)
          w in
      unfold create in (blank.1, sent)

  -- A ready migration dialog sends its request. If the answer carries data, the form is as at
  -- first, not loading, with the success and the close callbacks made in this order.
  pub handle_migration_success :
      (d : Dialog) (w : W)
      → IsReady d
      → is_created (answer d w).0 ≡ true
      → handle_migration axios namespace cluster d w ≡ (
        record initial { callbacks = (d.callbacks ++ success ∷ []) ++ close ∷ [] },
        (answer d w).1,
      )
  unfolding handle_migration finish_migration reset_form call_back
  handle_migration_success d w r good =
      let (verdict, sent) = migrate_slot_lem d w in
      rw (start_migration_lem d r, handle_migration) (rw (verdict, good, sent))

  -- A ready migration dialog sends its request. If the answer is an exception or carries no data,
  -- the dialog keeps its fields and callbacks, is not loading, and shows a message that is not
  -- blank.
  pub handle_migration_failure :
      (d : Dialog) (w : W)
      → IsReady d
      → is_created (answer d w).0 ≡ false
      → (message : Value) × (truthy message ≡ true)
        × (handle_migration axios namespace cluster d w
            ≡ (record d { loading = false; error_shown = message }, (answer d w).1))
  unfolding handle_migration finish_migration
  handle_migration_failure d w r bad =
      let (verdict, sent) = migrate_slot_lem d w in
      (
        (reply d w).0,
        rw (verdict, bad),
        rw (start_migration_lem d r, handle_migration) (rw (verdict, bad, sent)),
      )

  -- A migration dialog with no target or with an input that is not accepted sends nothing and
  -- only gets a message that is not blank.
  pub handle_migration_refused :
      (d : Dialog) (w : W)
      → ¬ IsReady d
      → (message : Value) × (truthy message ≡ true)
        × (handle_migration axios namespace cluster d w ≡ (record d { error_shown = message }, w))
  unfolding handle_migration
  handle_migration_refused d w r =
      let (message, shown, started) = start_migration_refused d r in
      (message, shown, rw (started, handle_migration))

-- While a request is awaited the dialog cannot be closed.
pub handle_close_while_sending : (d e : Dialog) → start_migration d ≡ sending e → handle_close e ≡ e
unfolding start_migration handle_close
handle_close_while_sending d e h = ground arith
