-- ===== src/Breadcrumb/Tests.antt =====
-- Runs of the breadcrumb.
use kvrocks_controller.Common.{
  All, Bool, List, [], filter, get_elem?, length, map, not, refl, some, take, ◌==◌, ◌∷◌, ◌≡◌,
}
use kvrocks_controller.Breadcrumb.{
  follows, generate_breadcrumbs, item_at, items_from, numeric_name, one_more, path_of,
  path_segments,
}
use kvrocks_controller.Breadcrumb.Laws.{IsSegment, generate_breadcrumbs_lem}
use kvrocks_controller.Common.Int.{◌+ℤ◌}
use kvrocks_controller.Js.Decimal.{show_ℕ, show_ℤ}
use kvrocks_controller.Js.Number.{is_nan, parse_int, show_num, to_number}
use kvrocks_controller.Js.Text.{Text, codes, cons_first, join, split, trim_start}

abbrev is_number_text : Text → Bool
is_number_text t = not (is_nan (to_number t))

abbrev sample_path : List Text
sample_path = codes "namespaces" ∷ codes "ns" ∷ codes "shards" ∷ codes "2" ∷ []

shard_name : numeric_name 3 sample_path (codes "2") ≡ codes "Shard 3"
unfolding numeric_name follows one_more parse_int trim_start show_num show_ℤ show_ℕ ◌+ℤ◌
shard_name = refl

second_item :
    get_elem? (generate_breadcrumbs (λ t. t) is_number_text (path_of sample_path)) 1
    ≡ some (item_at (λ t. t) is_number_text 1 sample_path (codes "ns"))
unfolding generate_breadcrumbs path_segments path_of items_from filter split cons_first join
second_item = refl

sample_path-segments : All IsSegment sample_path
sample_path-segments = (
  (refl, (refl, (refl, (refl, (refl, (refl, (refl, (refl, (refl, (refl, (refl, tt))))))))))),
  (
    (refl, (refl, (refl, tt))),
    ((refl, (refl, (refl, (refl, (refl, (refl, (refl, tt))))))), ((refl, (refl, tt)), tt)),
  ),
)

generate_breadcrumbs_lem_example :
    (map (λ d. d.name) (generate_breadcrumbs (λ t. t) is_number_text (path_of sample_path))
      ≡ sample_path)
    × (map
          (λ d. d.name)
          (generate_breadcrumbs
            (λ t. t)
            is_number_text
            (item_at (λ t. t) is_number_text 1 sample_path (codes "ns")).url)
        ≡ take 2 sample_path)
    × ((item_at (λ t. t) is_number_text 1 sample_path (codes "ns")).is_last
        ≡ (2 == length sample_path))
generate_breadcrumbs_lem_example =
    generate_breadcrumbs_lem (λ t. t) is_number_text sample_path 1
      (item_at (λ t. t) is_number_text 1 sample_path (codes "ns")) sample_path-segments second_item
