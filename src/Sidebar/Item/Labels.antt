-- ===== src/Sidebar/Item/Labels.antt =====
-- webui/src/app/ui/sidebarItem.tsx: how an item reads the label of a shard.
use kvrocks_controller.Common.{
  List, [], ap, arith, get_elem?, length, refl, some, suc, sym, true, zero, ℕ, ◌++◌, ◌+◌, ◌<◌, ◌↔◌,
  ◌∙◌, ◌∷◌, ◌≡◌,
}
use kvrocks_controller.Api.Calls.{slash}
use kvrocks_controller.Api.Laws.{drop_shard}
use kvrocks_controller.Common.Int.{pos, suc_ℤ, ◌-ℤ◌}
use kvrocks_controller.Js.Decimal.{show_ℕ, show_ℤ}
use kvrocks_controller.Js.Decimal.Laws.{
  digits-Lacks, digits_value, digits_value-show_ℕ, show_ℕ-digits,
}
use kvrocks_controller.Js.Number.{show_num}
use kvrocks_controller.Js.Number.Laws.{parse_int-show_ℕ}
use kvrocks_controller.Js.Text.{Text, codes, split}
use kvrocks_controller.Js.Text.Laws.{same_iff, split-append, split-append_all, split_of_Lacks}
use kvrocks_controller.Js.Value.{Value, ok}
use kvrocks_controller.Sidebar.{Sidebar, cluster_link, labels, set_shards, shard_label, shard_link}
use kvrocks_controller.Sidebar.Item.{
  active_item, is_active, item_text, last_segment, part_text, shard_index, shard_item,
}
use kvrocks_controller.Sidebar.Item.Laws.{deletion_of}

last_segment-append : (ts : List Text) (t : Text) → last_segment (ts ++ t ∷ []) ≡ t
unfolding last_segment
last_segment-append [] t = refl
last_segment-append (u ∷ []) t = refl
last_segment-append (u ∷ v ∷ ts) t = last_segment-append (v ∷ ts) t

last_segment-show_ℕ :
    (prefix : Text) (n : ℕ) → last_segment (split b'/' (slash prefix (show_ℕ n))) ≡ show_ℕ n
last_segment-show_ℕ prefix n =
    rw
      (
        split-append_all b'/' prefix (show_ℕ n),
        split_of_Lacks b'/' (show_ℕ n)
            (digits-Lacks b'/' (show_ℕ n) (omega arith) (show_ℕ-digits n)),
      )
      (last_segment-append (split b'/' prefix) (show_ℕ n))

show_ℕ_injective : (m n : ℕ) → show_ℕ m ≡ show_ℕ n → m ≡ n
show_ℕ_injective m n e = sym (digits_value-show_ℕ m) ∙ ap (digits_value 0) e ∙ digits_value-show_ℕ n

shard_label_injective : (m n : ℕ) → shard_label m ≡ shard_label n → m ≡ n
shard_label_injective m n e =
    let printed : show_ℕ (m + 1) ≡ show_ℕ (n + 1) = cc in
    omega (arith, show_ℕ_injective (m + 1) (n + 1) printed)

split-shard_label : (n : ℕ) → split 9 (shard_label n) ≡ codes "Shard" ∷ show_ℕ (n + 1) ∷ []
split-shard_label n =
    split-append 9 (codes "Shard") (show_ℕ (n + 1)) (refl, (refl, (refl, (refl, (refl, tt)))))
    ∙ ap (λ ts. codes "Shard" ∷ ts)
        (split_of_Lacks 9 (show_ℕ (n + 1))
          (digits-Lacks 9 (show_ℕ (n + 1)) (omega arith) (show_ℕ-digits (n + 1))))

pred_ℤ : (n : ℕ) → pos (n + 1) -ℤ pos 1 ≡ pos n
unfolding ◌-ℤ◌
pred_ℤ n = ground arith

shard_index-shard_label : (n : ℕ) → shard_index (shard_label n) ≡ show_ℕ n
unfolding shard_index part_text show_num show_ℤ
shard_index-shard_label n = rw (split-shard_label n, parse_int-show_ℕ (n + 1), pred_ℤ n)

active_item-shard_link :
    (t ns cluster : Text) (j : ℕ)
    → active_item (shard_item t ns cluster) (shard_link ns cluster (show_ℕ j)) ≡ shard_label j
unfolding active_item shard_link show_num show_ℤ
active_item-shard_link t ns cluster j = rw (
  last_segment-show_ℕ (slash (cluster_link ns cluster) (codes "shards")) j,
  parse_int-show_ℕ j,
  suc_ℤ j,
)

labels-get_elem? :
    (label : ℕ → Text) (k i : ℕ) (vs : List Value)
    → i < length vs
    → get_elem? (labels label k vs) i ≡ some (label (k + i))
unfolding labels
labels-get_elem? label k i [] h = absurd (omega (arith, h))
labels-get_elem? label k zero (v ∷ vs) h = ap (λ n. some (label n)) (omega arith)
labels-get_elem? label k (suc i) (v ∷ vs) h =
    labels-get_elem? label (suc k) i vs (omega (arith, h)) ∙ ap (λ n. some (label n)) (omega arith)

is_active-shard_link :
    (ns cluster : Text) (i j : ℕ)
    → (is_active (shard_item (shard_label i) ns cluster) (shard_link ns cluster (show_ℕ j)) ≡ true)
      ↔ (i ≡ j)
unfolding is_active item_text
is_active-shard_link ns cluster i j = rw (active_item-shard_link (shard_label i) ns cluster j) (
  λ e. shard_label_injective i j ((same_iff (shard_label i) (shard_label j)).0 e),
  λ e. (same_iff (shard_label i) (shard_label j)).1 (ap shard_label e),
)

-- The entry at each position of the shard sidebar stands for the shard of that index: its deletion
-- asks for that shard, and it is marked as active on the page of that shard and of no other.
pub shard_entry_lem :
    (vs : List Value) (s : Sidebar (List Text)) (ns cluster : Text) (i j : ℕ)
    → i < length vs
    → (t : Text) × (get_elem? (set_shards (ok vs) s).entries i ≡ some t)
      × (deletion_of (shard_item t ns cluster) ≡ drop_shard ns cluster (show_ℕ i))
      × ((is_active (shard_item t ns cluster) (shard_link ns cluster (show_ℕ j)) ≡ true) ↔ (i ≡ j))
unfolding set_shards deletion_of
shard_entry_lem vs s ns cluster i j h = (
  shard_label i,
  labels-get_elem? shard_label 0 i vs h ∙ ap (λ n. some (shard_label n)) (omega arith),
  ap (drop_shard ns cluster) (shard_index-shard_label i),
  is_active-shard_link ns cluster i j,
)
