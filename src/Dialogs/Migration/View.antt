-- ===== src/Dialogs/Migration/View.antt =====
-- webui/src/app/ui/migrationDialog.tsx: what the dialog shows, and the controls that it offers.
-- Placeholders are left out.
use kvrocks_controller.Common.{
  Bool, List, [], false, filter, if◌then◌else◌, not, true, ℕ, ◌++◌, ◌||◌, ◌∷◌, ◌≡◌,
}
use kvrocks_controller.Common.Int.{eqb_ℤ, negsuc}
use kvrocks_controller.Dialogs.Migration.{
  Dialog, Started, finish_migration, get_slot_range_display, handle_close, initial, refused,
  sending, start_migration,
}
use kvrocks_controller.Js.Decimal.{show_ℕ, show_ℤ}
use kvrocks_controller.Js.Number.{Num, int, nan, parse_int}
use kvrocks_controller.Js.Text.{Text, codes, is_empty, same, trim}
use kvrocks_controller.Js.Value.{Value, str, truthy}
use kvrocks_controller.Ui.{Offers, Shown, alert, button, chip, choice, icon, text, text_field}

pub record Shard : Type 0 where
  pub index : ℕ
  pub slot_ranges : List Text
  pub node_count : ℕ
  pub has_slots : Bool
  pub has_migration : Bool
  pub has_importing : Bool

pub data Action : Type 0 where
  press_cancel : Action
  press_start : Action
  choose_target : Num → Action
  set_slot_only : Bool → Action
  dismiss_error : Action

unfoldable pub available_target_shards : List Shard → List Shard
available_target_shards shards = filter (λ s. s.has_slots) shards

unfoldable pub title_view : List (Shown Action)
title_view =
    icon (codes "MoveUpIcon")
    ∷ text (codes "Migrate Slot")
    ∷ text (codes "Move a slot to a different shard")
    ∷ []

unfoldable pub slot_view : Dialog → List (Shown Action)
slot_view d =
    text_field (codes "Slot or Slot Range") d.slot_number false
    ∷ text (
        codes
          "Enter a single slot (123) or slot range (100-200). Slots must be between 0 and 16383")
    ∷ choice (codes "Slot-only migration") d.slot_only (set_slot_only (not d.slot_only))
    ∷ text (codes "Migrate only the slot without data")
    ∷ []

unfoldable pub mark_if : Bool → Text → List (Shown Action)
mark_if b label = if b then chip label ∷ [] else []

-- The value of a choice is the text of the shard's index, which `onChange` parses.
unfoldable pub target_choice : Dialog → Shard → List (Shown Action)
target_choice d s =
    choice (show_ℕ s.index) (same (show_ℤ d.target_shard_index) (show_ℕ s.index))
      (choose_target (parse_int (show_ℕ s.index)))
    ∷ icon (codes "StorageIcon")
    ∷ text (codes "Shard " ++ show_ℕ s.index)
    ∷ text (codes "Slots: " ++ get_slot_range_display s.slot_ranges)
    ∷ text (codes "Nodes: " ++ show_ℕ s.node_count)
    ∷ chip (show_ℕ s.node_count ++ codes " nodes")
    ∷ (mark_if s.has_migration (codes "Migrating") ++ mark_if s.has_importing (codes "Importing"))

-- `availableTargetShards.map(…)`
unfoldable pub target_choices : Dialog → List Shard → List (Shown Action)
target_choices d [] = []
target_choices d (s ∷ ss) = target_choice d s ++ target_choices d ss

-- `availableTargetShards.length > 0 ? (…) : (…)`
unfoldable pub selection_view : Dialog → List Shard → List (Shown Action)
selection_view d [] =
    alert (codes "warning") (
      str (
        codes
          "No target shards available for migration. At least one shard with slots is required."))
    ∷ []
selection_view d (s ∷ ss) = text (codes "Select Target Shard") ∷ target_choices d (s ∷ ss)

unfoldable pub is_none : List Shard → Bool
is_none [] = true
is_none (s ∷ ss) = false

-- The `disabled` of the button that starts the migration.
unfoldable pub start_disabled : Dialog → List Shard → Bool
start_disabled d targets =
    d.loading
    || is_none targets
    || eqb_ℤ d.target_shard_index (negsuc 0)
    || is_empty (trim d.slot_number)

unfoldable pub actions_view : Dialog → List Shard → List (Shown Action)
actions_view d targets =
    button (codes "Cancel") d.loading press_cancel
    ∷ icon (if d.loading then codes "CircularProgress" else codes "MoveUpIcon")
    ∷ button (if d.loading then codes "Processing..." else codes "Start Migration")
        (start_disabled d targets) press_start
    ∷ []

-- The snackbar with the error stands beside the dialog; `!!error` opens it.
unfoldable pub error_view : Dialog → List (Shown Action)
error_view d =
    if truthy d.error_shown
    then alert (codes "error") d.error_shown ∷ button (codes "Close") false dismiss_error ∷ []
    else []

-- The dialog for the shards of a cluster, if it is open.
unfoldable pub dialog_view : Bool → List Shard → Dialog → List (Shown Action)
dialog_view is_open shards d =
    (if is_open
      then title_view
        ++ slot_view d
        ++ selection_view d (available_target_shards shards)
        ++ actions_view d (available_target_shards shards)
      else [])
    ++ error_view d

-- `setTargetShardIndex`; the values of the choices are numbers.
unfoldable pub set_target : Num → Dialog → Dialog
set_target nan d = d
set_target (int z) d = record d { target_shard_index = z }

unfoldable pub begun : Started → Dialog
begun (refused d) = d
begun (sending d) = d

-- What a control does. `press_start` is the part of `handleMigration` before its `await`.
unfoldable pub act : Action → Dialog → Dialog
act press_cancel d = handle_close d
act press_start d = begun (start_migration d)
act (choose_target n) d = set_target n d
act (set_slot_only b) d = record d { slot_only = b }
act dismiss_error d = record d { error_shown = str [] }

-- The steps of the open dialog: the user uses a control, types into the input or closes the dialog
-- by its backdrop, or the answer of the server comes while the request is awaited.
pub data Step (shards : List Shard) (d : Dialog) : Dialog → Type 0 where
  user : (a : Action) → Offers (dialog_view true shards d) a → Step shards d (act a d)
  typed : (t : Text) → Step shards d (record d { slot_number = t })
  backdrop : Step shards d (handle_close d)
  answered : (result : Value) → d.loading ≡ true → Step shards d (finish_migration result d)

pub data Reach (shards : List Shard) : Dialog → Type 0 where
  opened : Reach shards initial
  later : {d e : Dialog} → Reach shards d → Step shards d e → Reach shards e
