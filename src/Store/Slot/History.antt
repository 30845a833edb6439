-- ===== src/Store/Slot/History.antt =====
-- store/slot.go: lists of ranges that are built by additions and removals, against sets of slots.
use kvrocks_controller.Common.{
  All, Bool, List, [], any, false, not, refl, sym, ℕ, ◌&&◌, ◌||◌, ◌∙◌, ◌∷◌, ◌≡◌,
}
use kvrocks_controller.Store.Slot.{
  IsSliceSort, SlotRange, add_slot_to_slot_ranges, contains, ranges_contain,
  remove_slot_from_slot_ranges,
}
use kvrocks_controller.Store.Slot.Adding.{add_slot_to_slot_ranges_lem}
use kvrocks_controller.Store.Slot.Removing.{
  remove_slot_from_slot_ranges-IsNormal, remove_slot_from_slot_ranges_lem,
}
use kvrocks_controller.Store.Slot.Sets.{IsNormal, IsNormal-IsRange, IsRange}
use kvrocks_controller.Store.Slot.Unique.{IsNormal-unique}

-- A call of `AddSlotToSlotRanges` or of `RemoveSlotFromSlotRanges` on the list so far.
pub data Change : Type 0 where
  add : SlotRange → Change
  remove : SlotRange → Change

abbrev pub IsSound : Change → Type 0
IsSound (add r) = IsRange r
IsSound (remove r) = IsRange r

-- The abstract set: a test of slots.
abbrev pub SlotSet : Type 0
SlotSet = ℕ → Bool

unfoldable pub abstract_change : Change → SlotSet → SlotSet
abstract_change (add r) set x = set x || contains r x
abstract_change (remove r) set x = set x && not (contains r x)

unfoldable pub abstract_history : List Change → SlotSet → SlotSet
abstract_history [] set = set
abstract_history (c ∷ cs) set = abstract_history cs (abstract_change c set)

abbrev pub no_slots : SlotSet
no_slots x = false

-- A list represents a set: it is canonical and holds the set's slots.
abbrev pub Represents : List SlotRange → SlotSet → Type 0
Represents rs set = IsNormal rs × ((x : ℕ) → ranges_contain rs x ≡ set x)

module _ (sort_slice : (SlotRange → SlotRange → Bool) → List SlotRange → List SlotRange) where
  unfoldable pub change : Change → List SlotRange → List SlotRange
  change (add r) rs = add_slot_to_slot_ranges sort_slice rs r
  change (remove r) rs = remove_slot_from_slot_ranges sort_slice rs r

  unfoldable pub history : List Change → List SlotRange → List SlotRange
  history [] rs = rs
  history (c ∷ cs) rs = history cs (change c rs)

  module _ (sorts : IsSliceSort sort_slice) where
    change-Represents :
        (c : Change) (rs : List SlotRange) (set : SlotSet)
        → IsSound c
        → Represents rs set
        → Represents (change c rs) (abstract_change c set)
    unfolding change abstract_change
    change-Represents (add r) rs set p (h, e) =
        let (held, normal) =
          add_slot_to_slot_ranges_lem sort_slice sorts rs r (IsNormal-IsRange rs h) p in
        (normal, λ x. rw (held x, e x) refl)
    change-Represents (remove r) rs set p (h, e) = (
      remove_slot_from_slot_ranges-IsNormal sort_slice sorts rs r h p,
      λ x. rw (remove_slot_from_slot_ranges_lem sort_slice sorts rs r x, e x) refl,
    )

    history-Represents :
        (cs : List Change) (rs : List SlotRange) (set : SlotSet)
        → All IsSound cs
        → Represents rs set
        → Represents (history cs rs) (abstract_history cs set)
    unfolding history abstract_history
    history-Represents [] rs set p h = h
    history-Represents (c ∷ cs) rs set (p, ps) h =
        history-Represents cs _ _ ps (change-Represents c rs set p h)

    -- The lists of ranges refine sets of slots: after any sequence of additions and removals of
    -- ranges that are not empty, starting with the empty list, the list is canonical and holds
    -- exactly the slots of the set that the same unions and differences give, if Go's `sort.Slice`
    -- sorts.
    pub history_refines_sets :
        (cs : List Change)
        → All IsSound cs
        → IsNormal (history cs [])
          × ((x : ℕ) → ranges_contain (history cs []) x ≡ abstract_history cs no_slots x)
    unfolding ranges_contain any
    history_refines_sets cs p = history-Represents cs [] no_slots p (tt, λ x. refl)

    -- The order and the grouping of the calls do not matter: two sequences of additions and
    -- removals of ranges that are not empty, which amount to the same set of slots, give the same
    -- list from the empty one, if Go's `sort.Slice` sorts.
    pub history_of_same_set :
        (cs ds : List Change)
        → All IsSound cs
        → All IsSound ds
        → ((x : ℕ) → abstract_history cs no_slots x ≡ abstract_history ds no_slots x)
        → history cs [] ≡ history ds []
    history_of_same_set cs ds p q same_set =
        let (normal, held) = history_refines_sets cs p in
        let (normal', held') = history_refines_sets ds q in
        IsNormal-unique _ _ normal normal' (λ x. held x ∙ same_set x ∙ sym (held' x))
