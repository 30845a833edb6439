-- ===== src/Forms/Submitting.antt =====
-- webui/src/app/ui/formDialog.tsx: what the dialog does with the outcome of its form.
use kvrocks_controller.Common.{Bool, arith, false, not, refl, true, ◌&&◌, ◌||◌, ◌≡◌}
use kvrocks_controller.Forms.Dialog.{FormDialog, close_dialog, settle}
use kvrocks_controller.Js.Text.{Text}
use kvrocks_controller.Js.Value.{Result, Value, ok, throw, truthy}

-- A form is done when its submission returns nothing to say.
unfoldable pub is_done : Result Value → Bool
is_done (ok v) = not (truthy v)
is_done (throw t) = false

settled :
    (r : Result Value) (d : FormDialog)
    → let s = settle r (record d { submitting = true }) in
      (s.array_values ≡ d.array_values)
      × (s.show_dialog ≡ not (is_done r) && d.show_dialog)
      × (truthy s.error_message || is_done r ≡ true)
unfolding settle close_dialog is_done
settled (ok v) d = ground arith
settled (throw t) d = (refl, refl, refl)
