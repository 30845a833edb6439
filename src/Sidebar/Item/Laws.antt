-- ===== src/Sidebar/Item/Laws.antt =====
-- webui/src/app/ui/sidebarItem.tsx: what deleting an item sends, and what becomes of it.
use mathlib.Core.List.{append_assoc}
use kvrocks_controller.Common.{
  Bool, List, [], ap, false, if◌then◌else◌, not, refl, true, ◌++◌, ◌+◌, ◌∷◌, ◌≡◌,
}
use kvrocks_controller.Api.Calls.{Request}
use kvrocks_controller.Api.Laws.{
  Deletion, IsBlankWhen, delete, delete_lem, deletion_request, drop_cluster, drop_namespace,
  drop_node, drop_shard, is_deleted,
}
use kvrocks_controller.Js.Text.{Text, codes, join}
use kvrocks_controller.Sidebar.{cluster_link, namespace_link, shard_link}
use kvrocks_controller.Js.Value.{Result, Value, truthy}
use kvrocks_controller.Sidebar.Item.{
  Item, ItemProps, close_menu, cluster_item, confirm_delete, delete_item, namespace_item, node_item,
  parent_link, settle_delete, shard_index, shard_item,
}

-- The deletion that an item stands for.
unfoldable pub deletion_of : ItemProps → Deletion
deletion_of (namespace_item t) = drop_namespace t
deletion_of (cluster_item t ns) = drop_cluster ns t
deletion_of (shard_item t ns cluster) = drop_shard ns cluster (shard_index t)
deletion_of (node_item t ns cluster shard id) = drop_node ns cluster shard id

-- The parts of the path of the page that shows what holds an item.
abbrev pub holder : ItemProps → List Text
holder (namespace_item t) = codes "namespaces" ∷ []
holder (cluster_item t ns) = codes "namespaces" ∷ ns ∷ []
holder (shard_item t ns cluster) = codes "namespaces" ∷ ns ∷ codes "clusters" ∷ cluster ∷ []
holder (node_item t ns cluster shard id) =
    codes "namespaces" ∷ ns ∷ codes "clusters" ∷ cluster ∷ codes "shards" ∷ shard ∷ []

abbrev pub page_of : List Text → Text
page_of parts = join (codes "/") ([] ∷ parts)

-- The entry after an answer: it leads to the parent's page if the answer is good, and shows a
-- message if it is not; in either case its menu is closed and the page is asked for once more.
pub record Settled (link : Text) (good : Bool) (s after_delete : Item) : Type 0 where
  pub routes : after_delete.routes ≡ s.routes ++ (if good then link ∷ [] else [])
  pub shows : truthy after_delete.error_message ≡ not good
  pub menu : after_delete.show_menu ≡ false
  pub refreshes : after_delete.refreshes ≡ s.refreshes + 1

append-nil : (ts : List Text) → ts ++ [] ≡ ts
append-nil [] = refl
append-nil (t ∷ ts) = ap (λ us. t ∷ us) (append-nil ts)

settle_delete-Settled :
    (link : Text) (good : Bool) (response : Value) (s : Item)
    → IsBlankWhen good response
    → Settled link good s (settle_delete link response s)
unfolding settle_delete close_menu
settle_delete-Settled link true response s (blank, falsy) = record {
  routes = rw blank;
  shows = falsy;
  menu = refl;
  refreshes = refl;
}
settle_delete-Settled link false response s (blank, falsy) = record {
  routes = rw (blank, append-nil s.routes);
  shows = falsy;
  menu = refl;
  refreshes = refl;
}

parent_link-page_of : (props : ItemProps) → parent_link props ≡ page_of (holder props)
unfolding parent_link namespace_link cluster_link shard_link join
parent_link-page_of (namespace_item t) = refl
parent_link-page_of (cluster_item t ns) = refl
parent_link-page_of (shard_item t ns cluster) = simp append_assoc refl
parent_link-page_of (node_item t ns cluster shard id) = simp append_assoc refl

module _ {W : Type 0} (axios : Request → W → Result Value × W) where
  delete_item-delete :
      (props : ItemProps) (w : W) → delete_item axios props w ≡ delete axios (deletion_of props) w
  unfolding delete_item delete deletion_of
  delete_item-delete (namespace_item t) w = refl
  delete_item-delete (cluster_item t ns) w = refl
  delete_item-delete (shard_item t ns cluster) w = refl
  delete_item-delete (node_item t ns cluster shard id) w = refl

  -- Confirming the deletion of an item sends its one request. On a good answer the item leads to
  -- the page of what held it: /namespaces, for a cluster that of its namespace, for a shard that of
  -- its cluster, and for a node that of its shard. On any other answer or an exception it leads nowhere and shows a
  -- message. In either case its menu closes and the page is asked for once more.
  pub confirm_delete_lem :
      (props : ItemProps) (s : Item) (w : W)
      → let reply = axios (deletion_request (deletion_of props)) w in
        Settled (page_of (holder props)) (is_deleted reply.0) s (confirm_delete axios props s w).0
        × ((confirm_delete axios props s w).1 ≡ reply.1)
  unfolding confirm_delete
  confirm_delete_lem props s w =
      let (blank, sent) = delete_lem axios (deletion_of props) w in
      rw (delete_item-delete props w, ← parent_link-page_of props)
        (settle_delete-Settled (parent_link props) _ _ s blank, sent)
