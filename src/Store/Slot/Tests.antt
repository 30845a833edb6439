-- ===== src/Store/Slot/Tests.antt =====
-- store/slot.go: runs, with an insertion sort in place of `sort.Slice`.
use kvrocks_controller.Common.{
  All, All-map, Bool, List, [], any, arith, count_of, if◌then◌else◌, not, refl, sym, ℕ, ◌&&◌, ◌↔◌,
  ◌∙◌, ◌∷◌, ◌≡◌, ◌≤◌,
}
use kvrocks_controller.Common.Int.{pos}
use kvrocks_controller.Js.Decimal.{digit?}
use kvrocks_controller.Js.Number.{Num, int}
use kvrocks_controller.Js.Sort.{after, sort}
use kvrocks_controller.Js.Sort.Laws.{IsOrder, IsSorted, sort-IsSorted, sort-perm}
use kvrocks_controller.Js.Text.{Text, codes}
use kvrocks_controller.Store.Slot.{
  IsAscending, IsSliceSort, SlotRange, add_slot_to_slot_ranges, can_merge, checked, contains, cut,
  cut_all, failed, has_overlap, is_outside, merge_from, merge_slot_ranges, merge_sorted,
  not_a_number, ranges_contain, ranges_overlap, remove_slot_from_slot_ranges, slot_out_of_range,
  slot_range_text, start_larger, starts_before, too_many_ranges,
}
use kvrocks_controller.Store.Slot.History.{
  Change, IsSound, abstract_change, abstract_history, add, history, history_of_same_set,
  history_refines_sets, no_slots, remove,
}
use kvrocks_controller.Store.Slot.Parse.{
  atoi, drop, fitting, index_byte, parse_bounds, parse_parts, parse_single, parse_slot_range,
  read_digits, unsigned,
}
use kvrocks_controller.Store.Slot.Removing.{remove_slot_from_slot_ranges_lem}
use kvrocks_controller.Store.Slot.Sets.{IsNormal}
use kvrocks_controller.Store.Slot.Texts.{parse_slot_range-slot_range_text, parse_slot_range_sound}

abbrev by_less : (SlotRange → SlotRange → Bool) → SlotRange → SlotRange → Num
by_less less a b = if less b a then int (pos 1) else int (pos 0)

sort_slice : (SlotRange → SlotRange → Bool) → List SlotRange → List SlotRange
sort_slice less = sort (by_less less)

after-starts_before : (a b : SlotRange) → after (by_less starts_before) a b ≡ starts_before b a
unfolding after starts_before
after-starts_before a b = ground arith

starts_before-IsOrder : IsOrder (by_less starts_before)
unfolding after starts_before
starts_before-IsOrder = record {
  asymmetric = λ x y h. ground arith;
  transitive = λ x y z h k. ground arith;
}

IsSorted-IsAscending : (rs : List SlotRange) → IsSorted (by_less starts_before) rs → IsAscending rs
IsSorted-IsAscending [] h = tt
IsSorted-IsAscending (r ∷ rs) (p, h) =
    (All-map _ _ (λ q e. sym (after-starts_before r q) ∙ e) rs p, IsSorted-IsAscending rs h)

sort_slice-IsSliceSort : IsSliceSort sort_slice
unfolding sort_slice
sort_slice-IsSliceSort = record {
  same_elements = sort-perm (by_less starts_before);
  ascending = λ rs. IsSorted-IsAscending _ (sort-IsSorted _ starts_before-IsOrder rs);
}

abbrev range : ℕ → ℕ → SlotRange
range a b = record { start = a; stop = b }

abbrev three_ranges : List SlotRange
three_ranges = range 20 30 ∷ range 0 5 ∷ range 40 50 ∷ []

added : add_slot_to_slot_ranges sort_slice three_ranges (range 6 25) ≡ range 0 30 ∷ range 40 50 ∷ []
unfolding add_slot_to_slot_ranges sort_slice sort after starts_before merge_sorted merge_from
    can_merge merge_slot_ranges
added = refl

removed :
    remove_slot_from_slot_ranges sort_slice three_ranges (range 3 40) ≡ range 0 2 ∷ range 41 50 ∷ []
unfolding remove_slot_from_slot_ranges sort_slice sort after starts_before ranges_overlap
    has_overlap cut_all cut any
removed = refl

remove_slot_from_slot_ranges_lem_example :
    ranges_contain (remove_slot_from_slot_ranges sort_slice three_ranges (range 3 40)) 4
    ≡ (ranges_contain three_ranges 4 && not (contains (range 3 40) 4))
remove_slot_from_slot_ranges_lem_example =
    remove_slot_from_slot_ranges_lem sort_slice sort_slice-IsSliceSort three_ranges (range 3 40) 4

abbrev by_parts : List Change
by_parts = add (range 0 5) ∷ add (range 3 9) ∷ remove (range 7 20) ∷ []

abbrev at_once : List Change
at_once = remove (range 1 2) ∷ add (range 0 6) ∷ []

by_parts-IsSound : All IsSound by_parts
by_parts-IsSound = omega arith

at_once-IsSound : All IsSound at_once
at_once-IsSound = omega arith

same_sets : (x : ℕ) → abstract_history by_parts no_slots x ≡ abstract_history at_once no_slots x
unfolding abstract_history abstract_change contains
same_sets x = ground arith

history_refines_sets_example :
    IsNormal (history sort_slice by_parts [])
    × ((x : ℕ)
        → ranges_contain (history sort_slice by_parts []) x ≡ abstract_history by_parts no_slots x)
history_refines_sets_example =
    history_refines_sets sort_slice sort_slice-IsSliceSort by_parts by_parts-IsSound

history_of_same_set_example : history sort_slice by_parts [] ≡ history sort_slice at_once []
history_of_same_set_example =
    history_of_same_set sort_slice sort_slice-IsSliceSort by_parts at_once by_parts-IsSound
      at_once-IsSound same_sets

parse_slot_range-slot_range_text_example :
    (parse_slot_range (slot_range_text (range 3 9)) ≡ checked (range 3 9)) ↔ ((3 ≤ 9) × (9 ≤ 16383))
parse_slot_range-slot_range_text_example = parse_slot_range-slot_range_text (range 3 9)

abbrev signed_text : Text
signed_text = codes "+5-007"

signed_text-parsed : parse_slot_range signed_text ≡ checked (range 5 7)
unfolding parse_slot_range count_of index_byte parse_parts drop atoi unsigned read_digits fitting
    parse_bounds is_outside digit?
signed_text-parsed = refl

refused_texts :
    (parse_slot_range (codes "3-5-7") ≡ failed too_many_ranges)
    × (parse_slot_range (codes "-5") ≡ failed not_a_number)
    × (parse_slot_range (codes "9-3") ≡ failed start_larger)
    × (parse_slot_range (codes "16384") ≡ failed slot_out_of_range)
unfolding parse_slot_range count_of index_byte parse_parts drop atoi unsigned read_digits fitting
    parse_bounds parse_single is_outside digit?
refused_texts = (refl, refl, refl, refl)

parse_slot_range_sound_example :
    (5 ≤ 7) × (7 ≤ 16383) × (parse_slot_range (slot_range_text (range 5 7)) ≡ checked (range 5 7))
parse_slot_range_sound_example = parse_slot_range_sound signed_text (range 5 7) signed_text-parsed
