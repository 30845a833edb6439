-- ===== src/Forms/Dialog.antt =====
-- webui/src/app/ui/formDialog.tsx: the dialog that holds a form. `onSubmit` is a parameter of
-- `handle_submit`: it may change the server's state, and returns a message, nothing or an exception.
use kvrocks_controller.Common.{Bool, List, [], false, if◌then◌else◌, true, ◌++◌, ◌∷◌}
use kvrocks_controller.Forms.Data.{FormData}
use kvrocks_controller.Js.Text.{Text, codes, same}
use kvrocks_controller.Js.Value.{Result, Value, ok, str, throw, truthy}

pub record FormDialog : Type 0 where
  pub show_dialog : Bool
  pub error_message : Value
  pub array_values : List (Text × List Text)
  pub submitting : Bool

unfoldable pub open_dialog : FormDialog → FormDialog
open_dialog d = record d { show_dialog = true }

unfoldable pub close_dialog : FormDialog → FormDialog
close_dialog d = record d { show_dialog = false }

-- `{ ...values, [name]: value }`: a key that is there keeps its place
unfoldable pub put_values : Text → List Text → List (Text × List Text) → List (Text × List Text)
put_values name value [] = (name, value) ∷ []
put_values name value ((k, v) ∷ vs) =
    if same k name then (k, value) ∷ vs else (k, v) ∷ put_values name value vs

unfoldable pub handle_array_change : Text → List Text → FormDialog → FormDialog
handle_array_change name value d = record d { array_values = put_values name value d.array_values }

-- `formData.append(name, JSON.stringify(arrayValues[name]))` for each name
unfoldable pub array_entries : (List Text → Text) → List (Text × List Text) → FormData
array_entries stringify [] = []
array_entries stringify ((k, v) ∷ vs) = (k, stringify v) ∷ array_entries stringify vs

unfoldable pub settle : Result Value → FormDialog → FormDialog
settle (ok v) d = if truthy v then record d { error_message = v } else close_dialog d
settle (throw t) d = record d { error_message = str (codes "An unexpected error occurred") }

module _ {W : Type 0} (stringify : List Text → Text)
    (on_submit : FormData → W → Result Value × W) where
  -- `entries` are those of the form's own inputs.
  unfoldable pub handle_submit : FormData → FormDialog → W → FormDialog × W
  handle_submit entries d w =
      let started = record d { submitting = true } in
      let (result, w') = on_submit (entries ++ array_entries stringify d.array_values) w in
      (record (settle result started) { submitting = false }, w')
