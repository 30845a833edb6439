-- ===== src/Ui.antt =====
-- What a component of the interface renders: the texts, marks and controls of its JSX, in the
-- order of the document. Containers, styles, sizes and colours are left out. `A` is the type of
-- the component's actions, one for each handler that a control calls.
pub mod Parts
pub mod Laws
use kvrocks_controller.Common.{Bool, List, [], false, ◌∷◌, ◌≡◌, ◌⊎◌}
use kvrocks_controller.Js.Text.{Text}
use kvrocks_controller.Js.Value.{Value}

pub data Shown (A : Type 0) : Type 0 where
  -- a text between tags
  text : Text → Shown A
  -- `{value}`: a value of the server as React prints it
  child : Value → Shown A
  -- an icon or another component without text, by the component's name
  icon : Text → Shown A
  -- the `label` of a chip
  chip : Text → Shown A
  -- an alert by its severity and its message
  alert : Text → Value → Shown A
  -- a button by its text or title, whether it is disabled, and its `onClick`
  button : Text → Bool → A → Shown A
  -- a choice by its `value`, whether it is chosen, and its `onChange`
  choice : Text → Bool → A → Shown A
  -- an input by its label, its value and whether it is disabled; `onChange` is in the handlers
  text_field : Text → Text → Bool → Shown A
  -- a link by its `href`
  link : Text → Shown A

-- A control that the user can use: a button that is not disabled, or a choice.
abbrev pub Offers : {A : Type 0} → List (Shown A) → A → Type 0
Offers [] a = ⊥
Offers (button name false b ∷ vs) a = (b ≡ a) ⊎ Offers vs a
Offers (choice value is_chosen b ∷ vs) a = (b ≡ a) ⊎ Offers vs a
Offers (_ ∷ vs) a = Offers vs a
