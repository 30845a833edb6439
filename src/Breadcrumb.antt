-- ===== src/Breadcrumb.antt =====
-- webui/src/app/ui/breadcrumb.tsx: the items that the breadcrumb makes of a path.
-- `toUpperCase` is the parameter `upper`, and `!isNaN(Number(…))` is `is_number`.
pub mod Laws
mod Tests
use kvrocks_controller.Common.{
  Bool, List, Option, [], false, filter, get_elem?, if◌then◌else◌, length, none, not, some, suc,
  take, zero, ℕ, ◌&&◌, ◌++◌, ◌+◌, ◌==◌, ◌∷◌,
}
use kvrocks_controller.Common.Int.{pos, ◌+ℤ◌}
use kvrocks_controller.Js.Number.{Num, int, nan, parse_int, show_num}
use kvrocks_controller.Js.Text.{Text, codes, is_empty, join, same, split}
use kvrocks_controller.Sidebar.Item.{display_name}

pub data Icon : Type 0 where
  folder storage dns device : Icon

pub record BreadcrumbItem : Type 0 where
  pub name : Text
  pub display_name : Text
  pub url : Text
  pub icon : Option Icon
  pub is_numeric : Bool
  pub is_last : Bool

-- `pathname.split("/").filter(Boolean)`
unfoldable pub path_segments : Text → List Text
path_segments pathname = filter (λ s. not (is_empty s)) (split b'/' pathname)

-- `` `/${segments.join("/")}` ``
unfoldable pub path_of : List Text → Text
path_of segments = b'/' ∷ join (codes "/") segments

-- `pathSegments[index - 1] === what`
unfoldable pub follows : Text → ℕ → List Text → Bool
follows what zero segments = false
follows what (suc i) segments = elim (get_elem? segments i) [ none ↦ false | some s ↦ same s what ]

abbrev next_num : Num → Num
next_num nan = nan
next_num (int z) = int (z +ℤ pos 1)

-- `${parseInt(segment) + 1}`
unfoldable pub one_more : Text → Text
one_more segment = show_num (next_num (parse_int segment))

unfoldable pub numeric_name : ℕ → List Text → Text → Text
numeric_name i segments segment =
    if follows (codes "shards") i segments
    then codes "Shard " ++ one_more segment
    else if follows (codes "nodes") i segments
    then codes "Node " ++ one_more segment
    else codes "ID: " ++ segment

module _ (upper : Text → Text) (is_number : Text → Bool) where
  unfoldable pub capitalized : Text → Text
  capitalized [] = upper []
  capitalized (c ∷ s) = upper (c ∷ []) ++ s

  unfoldable pub named : ℕ → List Text → Text → Text × Option Icon
  named i segments segment =
      if (i == 0) && same segment (codes "namespaces")
      then (codes "Namespaces", some folder)
      else if same segment (codes "clusters")
      then (codes "Clusters", some storage)
      else if same segment (codes "shards")
      then (codes "Shards", some dns)
      else if same segment (codes "nodes")
      then (codes "Nodes", some device)
      else if is_number segment
      then (numeric_name i segments segment, none)
      else (capitalized segment, none)

  unfoldable pub item_at : ℕ → List Text → Text → BreadcrumbItem
  item_at i segments segment = record {
    name = segment;
    display_name = (named i segments segment).0;
    url = path_of (take (i + 1) segments);
    icon = (named i segments segment).1;
    is_numeric = is_number segment;
    is_last = i + 1 == length segments;
  }

  -- The loop over the segments that are left, from `i` on.
  unfoldable pub items_from : ℕ → List Text → List Text → List BreadcrumbItem
  items_from i segments [] = []
  items_from i segments (s ∷ rest) = item_at i segments s ∷ items_from (suc i) segments rest

  unfoldable pub generate_breadcrumbs : Text → List BreadcrumbItem
  generate_breadcrumbs pathname =
      let segments = path_segments pathname in items_from 0 segments segments
