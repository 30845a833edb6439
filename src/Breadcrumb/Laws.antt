-- ===== src/Breadcrumb/Laws.antt =====
-- webui/src/app/ui/breadcrumb.tsx: the names and links of the items.
use kvrocks_controller.Common.{
  All, Bool, List, [], ap, arith, false, filter, get_elem?, length, map, not, refl, some, suc, sym,
  take, zero, ℕ, ◌+◌, ◌==◌, ◌∙◌, ◌∷◌, ◌≡◌,
}
use kvrocks_controller.Breadcrumb.{
  BreadcrumbItem, generate_breadcrumbs, item_at, items_from, path_of, path_segments,
}
use kvrocks_controller.Js.Text.{Text, codes, is_empty, join, split}
use kvrocks_controller.Js.Text.Laws.{Lacks, split-append, split_of_Lacks}

-- A segment of a path: not empty, and without a slash.
abbrev pub IsSegment : Text → Type 0
IsSegment s = (is_empty s ≡ false) × Lacks b'/' s

split-join :
    (s : Text) (ss : List Text)
    → All IsSegment (s ∷ ss)
    → split b'/' (join (codes "/") (s ∷ ss)) ≡ s ∷ ss
unfolding join
split-join s [] h = split_of_Lacks b'/' s h.0.1
split-join s (t ∷ ss) h =
    split-append b'/' s (join (codes "/") (t ∷ ss)) h.0.1 ∙ ap (λ ts. s ∷ ts) (split-join t ss h.1)

filter_segments : (ss : List Text) → All IsSegment ss → filter (λ s. not (is_empty s)) ss ≡ ss
unfolding filter
filter_segments [] h = refl
filter_segments (s ∷ ss) (p, h) = rw (p.0, filter_segments ss h)

path_segments-path_of : (ss : List Text) → All IsSegment ss → path_segments (path_of ss) ≡ ss
unfolding path_segments path_of
path_segments-path_of [] h = unfold filter split join in refl
path_segments-path_of (s ∷ ss) h =
    ap (filter (λ t. not (is_empty t)))
      (split-append b'/' [] (join (codes "/") (s ∷ ss)) tt ∙ ap (λ ts. [] ∷ ts) (split-join s ss h))
    ∙ unfold filter in filter_segments (s ∷ ss) h

All-take : (n : ℕ) (ss : List Text) → All IsSegment ss → All IsSegment (take n ss)
All-take zero ss h = tt
All-take (suc n) [] h = tt
All-take (suc n) (s ∷ ss) (p, h) = (p, All-take n ss h)

module _ (upper : Text → Text) (is_number : Text → Bool) where
  names-items_from :
      (i : ℕ) (segments rest : List Text)
      → map (λ c. c.name) (items_from upper is_number i segments rest) ≡ rest
  unfolding items_from item_at
  names-items_from i segments [] = refl
  names-items_from i segments (s ∷ rest) =
      ap (λ ts. s ∷ ts) (names-items_from (suc i) segments rest)

  generate-path_of :
      (ss : List Text)
      → All IsSegment ss
      → generate_breadcrumbs upper is_number (path_of ss) ≡ items_from upper is_number 0 ss ss
  unfolding generate_breadcrumbs
  generate-path_of ss h = rw (path_segments-path_of ss h)

  names-generate :
      (ss : List Text)
      → All IsSegment ss
      → map (λ c. c.name) (generate_breadcrumbs upper is_number (path_of ss)) ≡ ss
  names-generate ss h = rw (generate-path_of ss h) (names-items_from 0 ss ss)

  names_at :
      (ss : List Text) (k : ℕ) (s : Text)
      → All IsSegment ss
      → (map
            (λ d. d.name)
            (generate_breadcrumbs upper is_number (item_at upper is_number (0 + k) ss s).url)
          ≡ take (k + 1) ss)
        × ((item_at upper is_number (0 + k) ss s).is_last ≡ (k + 1 == length ss))
  unfolding item_at
  names_at ss k s h = (
    names-generate (take (0 + k + 1) ss) (All-take (0 + k + 1) ss h)
        ∙ ap (λ n. take (n + 1) ss) (omega arith),
    ap (λ n. n + 1 == length ss) (omega arith),
  )

  item-items_from :
      (i k : ℕ) (segments rest : List Text) (c : BreadcrumbItem)
      → get_elem? (items_from upper is_number i segments rest) k ≡ some c
      → (s : Text) × (c ≡ item_at upper is_number (i + k) segments s)
  unfolding items_from
  item-items_from i k segments [] c e = absurd (cc)
  item-items_from i zero segments (s ∷ rest) c e =
      let here : item_at upper is_number i segments s ≡ c = cc in
      (s, sym here ∙ ap (λ n. item_at upper is_number n segments s) (omega arith))
  item-items_from i (suc k) segments (s ∷ rest) c e =
      let (t, there) = item-items_from (suc i) k segments rest c e in
      (t, there ∙ ap (λ n. item_at upper is_number n segments t) (omega arith))

  -- On a path of segments without slashes, the breadcrumb has one item for each segment, named by
  -- it. The link of the item at a place leads to a page whose breadcrumb names the segments up to
  -- that item, and the item is the last one exactly if its place is the last.
  pub generate_breadcrumbs_lem :
      (ss : List Text) (k : ℕ) (c : BreadcrumbItem)
      → All IsSegment ss
      → get_elem? (generate_breadcrumbs upper is_number (path_of ss)) k ≡ some c
      → (map (λ d. d.name) (generate_breadcrumbs upper is_number (path_of ss)) ≡ ss)
        × (map (λ d. d.name) (generate_breadcrumbs upper is_number c.url) ≡ take (k + 1) ss)
        × (c.is_last ≡ (k + 1 == length ss))
  generate_breadcrumbs_lem ss k c h e =
      let listed = sym (ap (λ cs. get_elem? cs k) (generate-path_of ss h)) ∙ e in
      let (s, found) = item-items_from 0 k ss ss c listed in
      let (above, last) = names_at ss k s h in (names-generate ss h, rw found above, rw found last)
