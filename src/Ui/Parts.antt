-- ===== src/Ui/Parts.antt =====
-- Pieces that the views of the pages share.
use kvrocks_controller.Common.{Bool, List, [], false, if◌then◌else◌, map, ℕ, ◌++◌, ◌==◌, ◌∷◌}
use kvrocks_controller.Common.Int.{pos, ◌+ℤ◌}
use kvrocks_controller.Js.Decimal.{show_ℕ}
use kvrocks_controller.Js.Number.{int, nan}
use kvrocks_controller.Js.Text.{Text, codes, same}
use kvrocks_controller.Js.Value.{Value, arr, bool, items, null, num, str, to_text, undefined}
use kvrocks_controller.Ui.{Shown, alert, button, child, chip, choice, icon, link, text, text_field}

unfoldable pub show_if : {A : Type 0} → Bool → List (Shown A) → List (Shown A)
show_if b vs = if b then vs else []

-- A number as a child or in a template.
abbrev pub shown_ℕ : {A : Type 0} → ℕ → Shown A
shown_ℕ n = text (show_ℕ n)

-- `n !== 1 ? "s" : ""`
unfoldable pub plural : ℕ → Text
plural n = if n == 1 then [] else codes "s"

-- The texts of an array of texts.
unfoldable pub texts_of : Value → List Text
texts_of (arr vs) = map to_text (items vs)
texts_of v = []

-- `v + 1`: a sum where `v` is no text and no object.
unfoldable pub plus_one : Value → Value
plus_one (num (int z)) = num (int (z +ℤ pos 1))
plus_one (num nan) = num nan
plus_one undefined = num nan
plus_one null = num (int (pos 1))
plus_one (bool b) = num (int (pos (if b then 2 else 1)))
plus_one v = str (to_text v ++ codes "1")

-- One choice of a group, by its value; the is_chosen one has a mark.
unfoldable pub marked_choice : {A : Type 0} → Text → Text → A → List (Shown A)
marked_choice group value does =
    let is_chosen = same group value in
    (choice value is_chosen does ∷ []) ++ show_if is_chosen (icon (codes "CheckIcon") ∷ [])

-- A counter of a page: its icon, its number and its name.
unfoldable pub counter_view : {A : Type 0} → Text → ℕ → Text → List (Shown A)
counter_view mark n label = icon mark ∷ shown_ℕ n ∷ text label ∷ []

-- The state of a page without rows: `title`, `description` and the button of `EmptyState`.
unfoldable pub empty_state : {A : Type 0} → Text → Text → Text → Text → A → List (Shown A)
empty_state mark title description label does =
    icon mark ∷ text title ∷ text description ∷ button label false does ∷ []

-- What the user sees of a view: all of it but what the controls do.
unfoldable pub look : {A : Type 0} → Shown A → Shown Unit
look (text t) = text t
look (child v) = child v
look (icon t) = icon t
look (chip t) = chip t
look (alert s v) = alert s v
look (button t b a) = button t b tt
look (choice t b a) = choice t b tt
look (text_field l v b) = text_field l v b
look (link t) = link t
