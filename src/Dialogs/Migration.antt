-- ===== src/Dialogs/Migration.antt =====
-- webui/src/app/ui/migrationDialog.tsx: the state of the dialog and its handlers. A handler that
-- awaits the controller is one function: the component's state before the request is `Started`.
pub mod Validation
pub mod Handlers
pub mod View
pub mod Controls
pub mod Choosing
mod Tests
use kvrocks_controller.Common.{
  Bool, List, Option, [], false, if◌then◌else◌, none, not, some, true, ◌++◌, ◌||◌, ◌∷◌,
}
use kvrocks_controller.Api.Calls.{Request, migrate_slot}
use kvrocks_controller.Common.Int.{eqb_ℤ, negsuc, pos, ℤ}
use kvrocks_controller.Dialogs.Callbacks.{Callback, close, success}
use kvrocks_controller.Js.Number.{Num, int, is_nan, num_lt, num_ℕ, parse_int}
use kvrocks_controller.Js.Text.{Text, codes, includes_unit, is_empty, join, split, trim}
use kvrocks_controller.Js.Value.{Result, Value, str, truthy}

pub record Dialog : Type 0 where
  pub target_shard_index : ℤ
  pub slot_number : Text
  pub slot_only : Bool
  pub loading : Bool
  pub error_shown : Value
  -- the calls of `onSuccess` and `onClose`, in their order
  pub callbacks : List Callback

abbrev pub initial : Dialog
initial = record {
  target_shard_index = negsuc 0;
  slot_number = [];
  slot_only = false;
  loading = false;
  error_shown = str [];
  callbacks = [];
}

-- `{ isValid: true }` is `none`, and `{ isValid: false, error }` is `some error`.
abbrev pub Verdict : Type 0
Verdict = Option Text

abbrev pub max_slot : ℤ
max_slot = pos 16383

unfoldable pub out_of_range : Num → Num → Bool
out_of_range start end =
    num_lt start (num_ℕ 0)
    || num_lt (int max_slot) end
    || num_lt (int max_slot) start
    || num_lt end (num_ℕ 0)

unfoldable pub validate_range : List Text → Verdict
validate_range (first ∷ last ∷ []) =
    let start = parse_int (trim first) in
    let end = parse_int (trim last) in
    if is_nan start || is_nan end
    then some (codes "Both start and end of range must be valid numbers")
    else if out_of_range start end
    then some (codes "Slot numbers must be between 0 and 16383")
    else if num_lt end start
    then some (codes "Start slot must be less than or equal to end slot")
    else none
validate_range _ = some (codes "Invalid range format. Use format: start-end (e.g., 100-200)")

unfoldable pub validate_single : Text → Verdict
validate_single input =
    let slot = parse_int (trim input) in
    if is_nan slot || num_lt slot (num_ℕ 0) || num_lt (int max_slot) slot
    then some (codes "Slot number must be between 0 and 16383")
    else none

unfoldable pub validate_slot_input : Text → Verdict
validate_slot_input input =
    if is_empty (trim input)
    then some (codes "Please enter a slot number or range")
    else if includes_unit b'-' input
    then validate_range (split b'-' input)
    else validate_single input

unfoldable pub reset_form : Dialog → Dialog
reset_form d = record d {
  target_shard_index = negsuc 0;
  slot_number = [];
  slot_only = false;
  error_shown = str [];
}

unfoldable pub call_back : Callback → Dialog → Dialog
call_back c d = record d { callbacks = d.callbacks ++ c ∷ [] }

unfoldable pub handle_close : Dialog → Dialog
handle_close d = if not d.loading then reset_form (call_back close d) else d

-- The part of `handleMigration` before the request: a message, or the state that awaits.
pub data Started : Type 0 where
  refused : Dialog → Started
  sending : Dialog → Started

unfoldable pub start_migration : Dialog → Started
start_migration d =
    if eqb_ℤ d.target_shard_index (negsuc 0) || is_empty (trim d.slot_number)
    then refused (record d {
      error_shown = str (codes "Please select a target shard and enter a slot number or range");
    })
    else elim (validate_slot_input d.slot_number) [
      | some message ↦ refused (record d { error_shown = str message })
      | none ↦ sending (record d { loading = true; error_shown = str [] })
    ]

-- The part after it. `migrateSlot` returns a message on every exception, so that the `catch`
-- around the request is never entered.
unfoldable pub finish_migration : Value → Dialog → Dialog
finish_migration result d =
    let shown =
      if truthy result
      then record d { error_shown = result }
      else reset_form (call_back close (call_back success d)) in
    record shown { loading = false }

module _ {W : Type 0} (axios : Request → W → Result Value × W) (namespace cluster : Text) where
  unfoldable pub handle_migration : Dialog → W → Dialog × W
  handle_migration d w = elim (start_migration d) [
    | refused e ↦ (e, w)
    | sending e ↦
        let (result, w') =
          migrate_slot axios namespace cluster (int e.target_shard_index) (trim e.slot_number)
            e.slot_only w in
        (finish_migration result e, w')
  ]

-- `getSlotRangeDisplay`
unfoldable pub get_slot_range_display : List Text → Text
get_slot_range_display [] = codes "No slots"
get_slot_range_display (r ∷ rs) = join (codes ", ") (r ∷ rs)
