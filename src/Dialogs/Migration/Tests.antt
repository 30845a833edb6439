-- ===== src/Dialogs/Migration/Tests.antt =====
-- Runs of the migration dialog, and the theorems about it at concrete dialogs.
use kvrocks_controller.Common.{
  List, [], ap, arith, false, filter, inl, inr, none, refl, some, true, ℕ, ◌++◌, ◌↔◌, ◌∷◌, ◌≡◌, ◌≢◌,
  ◌≤◌,
}
use kvrocks_controller.Api.Laws.{is_created}
use kvrocks_controller.Api.Samples.{answering, refusing}
use kvrocks_controller.Common.Int.{pos}
use kvrocks_controller.Dialogs.Callbacks.{close, success}
use kvrocks_controller.Dialogs.Migration.{
  initial, Dialog, Started, handle_migration, refused, sending, start_migration,
  validate_slot_input,
}
use kvrocks_controller.Dialogs.Migration.Choosing.{HoldsSlots, migration_to_available}
use kvrocks_controller.Dialogs.Migration.Handlers.{
  IsReady, answer, handle_migration_failure, handle_migration_refused, handle_migration_success,
}
use kvrocks_controller.Dialogs.Migration.Validation.{
  validate_slot_input-range_text, validate_slot_input-show_ℕ,
}
use kvrocks_controller.Dialogs.Migration.View.{
  Reach, Shard, act, actions_view, available_target_shards, choose_target, dialog_view, is_none,
  later, mark_if, opened, press_start, selection_view, set_target, slot_view, start_disabled,
  target_choice, target_choices, title_view, typed, user,
}
use kvrocks_controller.Js.Decimal.{show_ℕ}
use kvrocks_controller.Js.Number.{int, num_ℕ}
use kvrocks_controller.Js.Number.Laws.{parse_int-show_ℕ}
use kvrocks_controller.Js.Text.{codes, trim}
use kvrocks_controller.Js.Value.{Value, get_opt, own_field, str, truthy}
use kvrocks_controller.Js.Value.Laws.{range_text}
use kvrocks_controller.Ui.{Offers}

abbrev ready_dialog : Dialog
ready_dialog = record initial { target_shard_index = pos 1; slot_number = show_ℕ 100 }

ready_dialog-IsReady : IsReady ready_dialog
ready_dialog-IsReady = record {
  selected = cc;
  accepted = (validate_slot_input-show_ℕ 100).1 (omega arith);
}

initial-not-IsReady : ¬ IsReady initial
initial-not-IsReady r = r.selected refl

answering-created : is_created (answer answering (codes "ns") (codes "c") ready_dialog 0).0 ≡ true
unfolding is_created get_opt own_field
answering-created = refl

refusing-created : is_created (answer refusing (codes "ns") (codes "c") ready_dialog 0).0 ≡ false
unfolding is_created
refusing-created = refl

blank_input : validate_slot_input (codes "  ") ≡ some (codes "Please enter a slot number or range")
unfolding validate_slot_input trim
blank_input = refl

handle_migration_success_example :
    handle_migration answering (codes "ns") (codes "c") ready_dialog 0 ≡ (
      record initial { callbacks = ([] ++ success ∷ []) ++ close ∷ [] },
      (answer answering (codes "ns") (codes "c") ready_dialog 0).1,
    )
handle_migration_success_example =
    handle_migration_success answering (codes "ns") (codes "c") ready_dialog 0 ready_dialog-IsReady
      answering-created

handle_migration_failure_example :
    (m : Value) × (truthy m ≡ true)
    × (handle_migration refusing (codes "ns") (codes "c") ready_dialog 0 ≡ (
      record ready_dialog { loading = false; error_shown = m },
      (answer refusing (codes "ns") (codes "c") ready_dialog 0).1,
    ))
handle_migration_failure_example =
    handle_migration_failure refusing (codes "ns") (codes "c") ready_dialog 0 ready_dialog-IsReady
      refusing-created

handle_migration_refused_example :
    (m : Value) × (truthy m ≡ true)
    × (handle_migration answering (codes "ns") (codes "c") initial 0
        ≡ (record initial { error_shown = m }, 0))
handle_migration_refused_example =
    handle_migration_refused answering (codes "ns") (codes "c") initial 0 initial-not-IsReady

validate_slot_input-range_text_example :
    (validate_slot_input (range_text 100 200) ≡ none) ↔ ((100 ≤ 200) × (200 ≤ 16383))
validate_slot_input-range_text_example = validate_slot_input-range_text 100 200

validate_slot_input-show_ℕ_example : (validate_slot_input (show_ℕ 16384) ≡ none) ↔ (16384 ≤ 16383)
validate_slot_input-show_ℕ_example = validate_slot_input-show_ℕ 16384

a-ne-x : ◌≢◌ {A = ℕ} b'a' b'x'
a-ne-x = omega arith

a-ne-X : ◌≢◌ {A = ℕ} b'a' b'X'
a-ne-X = omega arith

abbrev sample_shards : List Shard
sample_shards =
    record {
      index = 3;
      slot_ranges = codes "0-9" ∷ [];
      node_count = 2;
      has_slots = true;
      has_migration = false;
      has_importing = true;
    }
    ∷ []

abbrev target_dialog : Dialog
target_dialog = act (choose_target (num_ℕ 3)) initial

-- The shard is chosen, and then the slot typed.
target_dialog-reached : Reach sample_shards (record target_dialog { slot_number = codes "7" })
unfolding dialog_view title_view slot_view selection_view available_target_shards filter
    target_choices target_choice
target_dialog-reached =
    later
      (later opened
        (user (choose_target (num_ℕ 3)) (inr (inl (ap choose_target (parse_int-show_ℕ 3))))))
      (typed (codes "7"))

target_dialog-Offers :
    Offers
      (dialog_view true sample_shards (record target_dialog { slot_number = codes "7" }))
      press_start
unfolding dialog_view title_view slot_view selection_view available_target_shards filter
    target_choices target_choice mark_if actions_view start_disabled is_none act set_target trim
target_dialog-Offers = inr (inr (inr (inl refl)))

migration_to_available_example :
    let d = record target_dialog { slot_number = codes "7" } in
    (d.loading ≡ false)
    × HoldsSlots (int d.target_shard_index) sample_shards
    × (start_migration d ≡ elim (validate_slot_input d.slot_number) as (λ _. Started) [
      | some why ↦ refused (record d { error_shown = str why })
      | none ↦ sending (record d { loading = true; error_shown = str [] })
    ])
migration_to_available_example =
    migration_to_available sample_shards target_dialog-reached target_dialog-Offers
