-- ===== src/Pages/Node/Laws.antt =====
-- webui/src/app/namespaces/[namespace]/clusters/[cluster]/shards/[shard]/nodes/[node]/page.tsx: which
-- node the page shows, and what it does not show.
use kvrocks_controller.Common.{
  arith, false, get_elem?, map, none, refl, some, true, ℕ, ◌+◌, ◌<◌, ◌==◌, ◌≡◌,
}
use kvrocks_controller.Common.Int.{suc_ℤ}
use kvrocks_controller.Js.Decimal.{show_ℕ, show_ℤ}
use kvrocks_controller.Js.Number.{num_ℕ}
use kvrocks_controller.Js.Number.Laws.{parse_int-show_ℕ}
use kvrocks_controller.Js.Text.{Text, codes}
use kvrocks_controller.Js.Text.Laws.{same_refl}
use kvrocks_controller.Js.Value.{Items, Value, arr, get_opt, items, truthy}
use kvrocks_controller.Pages.Node.{Page, copy_to_clipboard, current_node, item_at, time_out}
use kvrocks_controller.Pages.Node.View.{
  address_view, copy_button, heading_view, is_copied, next_number, node_view, password_view,
  role_view, shard_view,
}
use kvrocks_controller.Ui.Parts.{look, show_if}

-- Two nodes that agree on what the page shows of them, and both have a password.
pub record Agree (v w : Value) : Type 0 where
  pub id : get_opt (codes "id") v ≡ get_opt (codes "id") w
  pub addr : get_opt (codes "addr") v ≡ get_opt (codes "addr") w
  pub role : get_opt (codes "role") v ≡ get_opt (codes "role") w
  pub created_at : get_opt (codes "created_at") v ≡ get_opt (codes "created_at") w
  pub password : truthy (get_opt (codes "password") v) ≡ true
  pub other_password : truthy (get_opt (codes "password") w) ≡ true

module _ (locale_date : Value → Text) where
  -- The page of a node does not show its password: for two nodes that differ in nothing but their
  -- passwords, neither of them empty, it shows the same texts, marks and controls.
  pub password_hidden :
      (namespace cluster shard node : Text) (p : Page) (v w : Value)
      → Agree v w
      → map look (node_view locale_date namespace cluster shard node p v)
        ≡ map look (node_view locale_date namespace cluster shard node p w)
  unfolding node_view heading_view address_view role_view password_view shard_view copy_button
      show_if look
  password_hidden namespace cluster shard node p v w h =
      rw (h.id, h.addr, h.role, h.created_at, h.password, h.other_password) refl

-- The page that the link of the `i`-th node leads to shows the `i`-th node of the shard, and the
-- number `i + 1` in its heading.
current_node-show_ℕ :
    (vs : Items) (i : ℕ) (v : Value) (p : Page)
    → p.node_data ≡ arr vs
    → get_elem? (items vs) i ≡ some v
    → (current_node (show_ℕ i) p ≡ v) × (next_number (show_ℕ i) ≡ show_ℕ (i + 1))
unfolding current_node next_number item_at show_ℤ
current_node-show_ℕ vs i v p loaded found = (
  rw (parse_int-show_ℕ i, loaded, item_at, num_ℕ, found) refl,
  rw (next_number, parse_int-show_ℕ i, num_ℕ, suc_ℤ i) refl,
)

-- A copy is marked at once. Where the timer of an earlier copy still runs, that timer takes the mark
-- of the later copy, whose own timer still runs then.
stale_timer :
    (value : Value) (kind : Text) (p : Page)
    → 0 < p.timers
    → let copied = copy_to_clipboard value kind p in
      (is_copied copied kind ≡ true)
      × ((time_out copied).copied ≡ none)
      × (0 < (time_out copied).timers)
unfolding time_out copy_to_clipboard is_copied
stale_timer value kind p running = rw (succ_not_zero p.timers) (same_refl kind, refl, omega arith)
  where
    succ_not_zero : (n : ℕ) → (n + 1 == 0) ≡ false
    succ_not_zero n = ground arith
