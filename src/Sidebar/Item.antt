-- ===== src/Sidebar/Item.antt =====
-- webui/src/app/ui/sidebarItem.tsx: an entry of a sidebar, with its menu and its deletion.
pub mod Laws
pub mod Labels
use kvrocks_controller.Common.{
  Bool, List, [], false, get_elem?, if◌then◌else◌, none, not, some, true, ℕ, ◌++◌, ◌+◌, ◌∷◌,
}
use kvrocks_controller.Api.Calls.{
  Request, delete_cluster, delete_namespace, delete_node, delete_shard,
}
use kvrocks_controller.Api.Response.{error_message}
use kvrocks_controller.Common.Int.{pos, ◌+ℤ◌}
use kvrocks_controller.Js.Number.{Num, int, nan, num_sub, num_ℕ, parse_int, show_num}
use kvrocks_controller.Js.Text.{Text, codes, includes, same, split}
use kvrocks_controller.Js.Value.{Result, Value, is_text}
use kvrocks_controller.Sidebar.{cluster_link, namespace_link, shard_link}

pub data ItemProps : Type 0 where
  namespace_item : Text → ItemProps
  cluster_item : Text → Text → ItemProps
  shard_item : Text → Text → Text → ItemProps
  node_item : Text → Text → Text → Text → Text → ItemProps

-- The `item` of the props, which the entry shows.
unfoldable pub item_text : ItemProps → Text
item_text (namespace_item t) = t
item_text (cluster_item t ns) = t
item_text (shard_item t ns cluster) = t
item_text (node_item t ns cluster shard id) = t

pub record Item : Type 0 where
  pub hover : Bool
  pub show_menu : Bool
  pub show_delete_confirm : Bool
  pub error_message : Value
  -- the paths of `router.push`, and the calls of `router.refresh`
  pub routes : List Text
  pub refreshes : ℕ

unfoldable pub open_menu : Item → Item
open_menu s = record s { show_menu = true }

unfoldable pub close_menu : Item → Item
close_menu s = record s { show_menu = false; hover = false }

unfoldable pub mouse_leave : Item → Item
mouse_leave s = if not s.show_menu then record s { hover = false } else s

unfoldable pub open_delete_confirm_dialog : Item → Item
open_delete_confirm_dialog s = close_menu (record s { show_delete_confirm = true })

unfoldable pub close_delete_confirm_dialog : Item → Item
close_delete_confirm_dialog s = record s { show_delete_confirm = false }

-- `parts[i]` in a template literal or a call that takes a text
unfoldable pub part_text : ℕ → List Text → Text
part_text i parts = elim (get_elem? parts i) [ none ↦ codes "undefined" | some t ↦ t ]

-- `(parseInt(item.split("\t")[1]) - 1).toString()`
unfoldable pub shard_index : Text → Text
shard_index t = show_num (num_sub (parse_int (part_text 1 (split 9 t))) (num_ℕ 1))

-- `pathname.split("/").pop() || ""`
unfoldable pub last_segment : List Text → Text
last_segment [] = []
last_segment (t ∷ []) = t
last_segment (t ∷ u ∷ ts) = last_segment (u ∷ ts)

-- `"Shard\t" + (parseInt(activeItem) + 1)`
abbrev next_num : Num → Num
next_num nan = nan
next_num (int z) = int (z +ℤ pos 1)

abbrev counted_from_one : Text → Text → Text
counted_from_one what t = what ++ 9 ∷ show_num (next_num (parse_int t))

unfoldable pub active_item : ItemProps → Text → Text
active_item (shard_item t ns cluster) pathname =
    counted_from_one (codes "Shard") (last_segment (split b'/' pathname))
active_item (node_item t ns cluster shard id) pathname =
    counted_from_one (codes "Node") (last_segment (split b'/' pathname))
active_item _ pathname = last_segment (split b'/' pathname)

unfoldable pub is_active : ItemProps → Text → Bool
is_active props pathname = same (item_text props) (active_item props pathname)

unfoldable pub display_name : Text → Text
display_name t =
    if includes t (9 ∷ []) then part_text 0 (split 9 t) ++ b' ' ∷ part_text 1 (split 9 t) else t

-- Where a deletion leads to: the page of what held the item.
unfoldable pub parent_link : ItemProps → Text
parent_link (namespace_item t) = codes "/namespaces"
parent_link (cluster_item t ns) = namespace_link ns
parent_link (shard_item t ns cluster) = cluster_link ns cluster
parent_link (node_item t ns cluster shard id) = shard_link ns cluster shard

-- What `confirmDelete` does with the response, the same in each of its branches.
unfoldable pub settle_delete : Text → Value → Item → Item
settle_delete link response s =
    let moved = if is_text [] response then record s { routes = s.routes ++ link ∷ [] } else s in
    close_menu (record moved { error_message = response; refreshes = s.refreshes + 1 })

module _ {W : Type 0} (axios : Request → W → Result Value × W) where
  unfoldable pub delete_item : ItemProps → W → Value × W
  delete_item (namespace_item t) = delete_namespace axios t
  delete_item (cluster_item t ns) = delete_cluster axios ns t
  delete_item (shard_item t ns cluster) = delete_shard axios ns cluster (shard_index t)
  delete_item (node_item t ns cluster shard id) = delete_node axios ns cluster shard id

  unfoldable pub confirm_delete : ItemProps → Item → W → Item × W
  confirm_delete props s w =
      let (response, w') = delete_item props w in (settle_delete (parent_link props) response s, w')
