-- ===== src/Pages/Node/Tests.antt =====
-- webui/src/app/namespaces/[namespace]/clusters/[cluster]/shards/[shard]/nodes/[node]/page.tsx at
-- two nodes that differ in their passwords.
use kvrocks_controller.Common.{[], false, map, none, refl, ◌∷◌, ◌≡◌}
use kvrocks_controller.Js.Text.{Text, codes}
use kvrocks_controller.Js.Value.{
  Items, Value, arr, from_list, get_opt, no_fields, obj, own_field, str, to_text, with_field,
}
use kvrocks_controller.Pages.Node.{Page}
use kvrocks_controller.Pages.Node.Laws.{Agree, password_hidden}
use kvrocks_controller.Pages.Node.View.{node_view}
use kvrocks_controller.Ui.Parts.{look}

abbrev node_with : Text → Value
node_with password = obj (
    with_field (codes "id") (str (codes "a1")) (
      with_field (codes "role") (str (codes "master"))
        (with_field (codes "password") (str password) no_fields)))

abbrev two_nodes : Items
two_nodes = from_list (node_with (codes "secret") ∷ node_with (codes "other") ∷ [])

abbrev shown_page : Page
shown_page = record {
  node_data = arr two_nodes;
  loading = false;
  copied = none;
  routes = [];
  clipboard = [];
  timers = 1;
}

same_but_password : Agree (node_with (codes "secret")) (node_with (codes "other"))
unfolding get_opt own_field
same_but_password = record {
  id = refl;
  addr = refl;
  role = refl;
  created_at = refl;
  password = refl;
  other_password = refl;
}

password_hidden_example :
    map look (
      node_view to_text
        (codes "ns")
        (codes "c")
        (codes "0")
        (codes "1")
        shown_page
        (node_with (codes "secret")))
    ≡ map look (
        node_view to_text
          (codes "ns")
          (codes "c")
          (codes "0")
          (codes "1")
          shown_page
          (node_with (codes "other")))
password_hidden_example =
    password_hidden to_text (codes "ns") (codes "c") (codes "0") (codes "1") shown_page
      (node_with (codes "secret")) (node_with (codes "other")) same_but_password
