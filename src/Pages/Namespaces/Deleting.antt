-- ===== src/Pages/Namespaces/Deleting.antt =====
-- webui/src/app/namespaces/page.tsx: deleting a namespace.
use kvrocks_controller.Common.{filter, none, not, true, ◌≡◌}
use kvrocks_controller.Api.Laws.{
  IsBlankWhen, delete, delete_lem, deletion_request, drop_namespace, is_deleted,
}
use kvrocks_controller.Api.Calls.{Request, delete_namespace}
use kvrocks_controller.Common.Int.{pos, ◌-ℤ◌}
use kvrocks_controller.Js.Text.{Text, same}
use kvrocks_controller.Js.Value.{Result, Value}
use kvrocks_controller.Pages.Namespaces.{Page, drop_row, handle_delete_namespace}

-- A confirmed deletion of a namespace makes one request, for that namespace, and leaves the page the
-- same whatever the server answers, also where it refuses or cannot be reached: the rows of that name
-- are gone, one is taken from the number of namespaces, no row stays marked as being deleted, and
-- nothing else changes. The message of the call, which is blank exactly where the answer has no data
-- or the data "ok", is dropped.
pub handle_delete_namespace_blind :
    {W : Type 0} (axios : Request → W → Result Value × W) (name : Text) (p : Page) (w : W)
    → let reply = axios (deletion_request (drop_namespace name)) w in
      (handle_delete_namespace axios true name p w ≡ (
        record p {
          namespaces_data = filter (λ d. not (same d.name name)) p.namespaces_data;
          resource_counts = record p.resource_counts {
            namespaces = p.resource_counts.namespaces -ℤ pos 1;
          };
          deleting_namespace = none;
        },
        reply.1,
      ))
      × IsBlankWhen (is_deleted reply.0) (delete_namespace axios name w).0
unfolding handle_delete_namespace drop_row delete
handle_delete_namespace_blind axios name p w =
    let (blank, sent) = delete_lem axios (drop_namespace name) w in (rw sent, blank)
