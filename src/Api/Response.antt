-- ===== src/Api/Response.antt =====
-- webui/src/app/lib/api.ts: how a response or an exception becomes the caller's message.
-- A `catch` hands `handleError` what was thrown; the two response handlers hand it a parsed body.
use kvrocks_controller.Common.{[], if◌then◌else◌, not, ◌||◌}
use kvrocks_controller.Js.Text.{codes}
use kvrocks_controller.Js.Value.{
  Thrown, Value, axios_error, error, get_opt, is_nullish, is_object, is_text, or_else, str,
}

pub data Caught : Type 0 where
  thrown : Thrown → Caught
  response_body : Value → Caught

-- `error?.error?.message`
abbrev pub nested_message : Value → Value
nested_message v = get_opt (codes "message") (get_opt (codes "error") v)

unfoldable pub error_message : Caught → Value
unfolding get_opt
error_message (thrown (axios_error response message)) =
    or_else (nested_message response) (str message)
error_message (thrown (error message)) = str message
error_message (response_body v) =
    if is_object v then or_else (nested_message v) (get_opt (codes "message") v) else str []

unfoldable pub handle_error : Caught → Value
unfolding error_message
handle_error e = or_else (error_message e) (str (codes "Unknown error"))

unfoldable pub handle_create_response : Value → Value
unfolding get_opt handle_error
handle_create_response v =
    if not (is_nullish (get_opt (codes "data") v)) then str [] else handle_error (response_body v)

unfoldable pub handle_delete_response : Value → Value
unfolding get_opt handle_error
handle_delete_response v =
    if is_nullish v
      || is_nullish (get_opt (codes "data") v)
      || is_text (codes "ok") (get_opt (codes "data") v)
    then str []
    else handle_error (response_body v)
