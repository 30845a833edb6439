-- ===== src/Sidebar/Tests.antt =====
-- Runs of the sidebars and their items.
use kvrocks_controller.Common.{[], arith, get_elem?, refl, some, true, ℕ, ◌++◌, ◌↔◌, ◌∷◌, ◌≡◌}
use kvrocks_controller.Api.Laws.{deletion_request, drop_shard, is_deleted}
use kvrocks_controller.Api.Samples.{idle_shard, refusing}
use kvrocks_controller.Common.Int.{◌-ℤ◌}
use kvrocks_controller.Js.Decimal.{show_ℕ, show_ℤ}
use kvrocks_controller.Js.Number.{parse_int, show_num}
use kvrocks_controller.Js.Text.{Text, codes, cons_first, split, trim_start}
use kvrocks_controller.Js.Value.{ok, str}
use kvrocks_controller.Sidebar.{Sidebar, new_sidebar, set_shards, shard_link}
use kvrocks_controller.Sidebar.Item.{
  Item, ItemProps, confirm_delete, is_active, part_text, shard_index, shard_item,
}
use kvrocks_controller.Sidebar.Item.Labels.{shard_entry_lem}
use kvrocks_controller.Sidebar.Item.Laws.{Settled, confirm_delete_lem, deletion_of, page_of}

abbrev sample_item : Item
sample_item = record {
  hover = true;
  show_menu = true;
  show_delete_confirm = true;
  error_message = str [];
  routes = [];
  refreshes = 0;
}

abbrev fresh_sidebar : Sidebar ℕ
fresh_sidebar = new_sidebar 0

abbrev narrow_sidebar : Sidebar ℕ
narrow_sidebar = record (new_sidebar 0) { is_mobile = true }

third_shard : shard_index (codes "Shard" ++ 9 ∷ codes "3") ≡ codes "2"
unfolding shard_index part_text split cons_first parse_int trim_start show_num show_ℤ show_ℕ ◌-ℤ◌
third_shard = refl

shard_entry_lem_example :
    (t : Text) × (get_elem? (set_shards (ok (idle_shard ∷ [])) (new_sidebar [])).entries 0 ≡ some t)
    × (deletion_of (shard_item t (codes "ns") (codes "c"))
        ≡ drop_shard (codes "ns") (codes "c") (show_ℕ 0))
    × ((is_active
            (shard_item t (codes "ns") (codes "c"))
            (shard_link (codes "ns") (codes "c") (show_ℕ 4))
          ≡ true)
        ↔ ◌≡◌ {A = ℕ} 0 4)
shard_entry_lem_example =
    shard_entry_lem (idle_shard ∷ []) (new_sidebar []) (codes "ns") (codes "c") 0 4 (omega arith)

abbrev sample_shard_item : ItemProps
sample_shard_item = shard_item (codes "Shard" ++ 9 ∷ codes "3") (codes "ns") (codes "c")

confirm_delete_lem_example :
    let reply = refusing (deletion_request (deletion_of sample_shard_item)) 0 in
    Settled
      (page_of (codes "namespaces" ∷ codes "ns" ∷ codes "clusters" ∷ codes "c" ∷ []))
      (is_deleted reply.0)
      sample_item
      (confirm_delete refusing sample_shard_item sample_item 0).0
    × ((confirm_delete refusing sample_shard_item sample_item 0).1 ≡ reply.1)
confirm_delete_lem_example = confirm_delete_lem refusing sample_shard_item sample_item 0
