-- ===== src/Pages/Shard/Deleting.antt =====
-- webui/src/app/namespaces/[namespace]/clusters/[cluster]/shards/[shard]/page.tsx: the delete button
-- of a node.
use kvrocks_controller.Common.{[], false, none, true, ℕ, ◌++◌, ◌∷◌, ◌≡◌}
use kvrocks_controller.Api.Calls.{Request, delete_node, fetch_shard}
use kvrocks_controller.Api.Laws.{
  IsBlankWhen, delete, delete_lem, deletion_request, drop_node, is_deleted,
}
use kvrocks_controller.Js.Text.{Text, codes}
use kvrocks_controller.Js.Value.{Result, Value, get_opt, to_text}
use kvrocks_controller.Pages.Shard.{Page, delete_failed, finish_deleting, handle_delete_node}

module _ {W : Type 0} (axios : Request → W → Result Value × W)
    (namespace cluster shard : Text) where
  -- The controller's answer to the deletion of a node by its id.
  abbrev answer : Value → W → Result Value × W
  answer node =
      axios
        (deletion_request (drop_node namespace cluster shard (to_text (get_opt (codes "id") node))))

  delete_node_lem :
      (node : Value) (w : W)
      → IsBlankWhen
          (is_deleted (answer node w).0)
          (delete_node axios namespace cluster shard (to_text (get_opt (codes "id") node)) w).0
        × ((delete_node axios namespace cluster shard (to_text (get_opt (codes "id") node)) w).1
            ≡ (answer node w).1)
  delete_node_lem node w =
      unfold delete in
      delete_lem axios (drop_node namespace cluster shard (to_text (get_opt (codes "id") node))) w

  -- A confirmed deletion asks the controller to delete the node of the row by its id, whatever the
  -- row's place. Where the controller refuses, it is the only request, the nodes stay and one alert
  -- is added; else the page shows what one reading of the shard gives. In both cases no row stays
  -- marked as being deleted, and the page is not loading.
  handle_delete_node_lem :
      (i : ℕ) (node : Value) (p : Page) (w : W)
      → (is_deleted (answer node w).0 ≡ false
          → (why : Text) × (handle_delete_node axios namespace cluster shard true i node p w ≡ (
            record p {
              deleting_node_index = none;
              loading = false;
              alerts = p.alerts ++ delete_failed why ∷ [];
            },
            (answer node w).1,
          )))
        × (is_deleted (answer node w).0 ≡ true
            → handle_delete_node axios namespace cluster shard true i node p w ≡ (
              record p {
                deleting_node_index = none;
                loading = false;
                nodes_data = (fetch_shard axios namespace cluster shard (answer node w).1).0;
              },
              (fetch_shard axios namespace cluster shard (answer node w).1).1,
            ))
  unfolding handle_delete_node finish_deleting
  handle_delete_node_lem i node p w =
      let (blank, sent) = delete_node_lem node w in
      (
        λ bad. (
          to_text
              (delete_node axios namespace cluster shard (to_text (get_opt (codes "id") node)) w).0,
          rw (blank.1, bad, sent),
        ),
        λ good. rw (blank.1, good, sent),
      )
