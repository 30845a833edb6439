-- ===== src/Pages/Namespaces/Tests.antt =====
-- Runs of the page of all namespaces.
use kvrocks_controller.Common.{false, [], ◌∷◌, filter, none, refl, sum_of, true, ◌≡◌}
use kvrocks_controller.Api.Laws.{IsBlankWhen, deletion_request, drop_namespace, is_deleted}
use kvrocks_controller.Api.Calls.{
  delete_namespace, fetch_clusters, fetch_namespaces, list_nodes, list_shards,
}
use kvrocks_controller.Api.Samples.{answering, refusing}
use kvrocks_controller.Common.Int.{pos, ◌-ℤ◌}
use kvrocks_controller.Js.Text.{codes, code_points, add_unit}
use kvrocks_controller.Js.Value.{ok, str, get, get_opt, own_field}
use kvrocks_controller.Pages.Effects.{length_of, count_items}
use kvrocks_controller.Pages.Namespaces.{
  Page, add_nodes, add_shards, count_clusters, count_nodes, enter_namespace, fetch_data,
  finish_loading, gather, gather_namespaces, handle_delete_namespace, iterate, name_desc, new_row,
  push_row, show_namespaces, with_clusters,
}
use kvrocks_controller.Pages.Namespaces.Deleting.{handle_delete_namespace_blind}
use kvrocks_controller.Pages.Namespaces.Rows.{is_string}
use kvrocks_controller.Pages.Namespaces.Totals.{IsConsistent, fetch_data_keeps_counts}

abbrev empty_page : Page
empty_page = record {
  namespaces_data = [];
  resource_counts = record { namespaces = pos 0; clusters = 0; shards = 0; nodes = 0 };
  loading = true;
  deleting_namespace = none;
  search_term = [];
  filter_option = with_clusters;
  sort_option = name_desc;
}

empty_page-IsConsistent : IsConsistent empty_page
unfolding sum_of
empty_page-IsConsistent = record { namespaces = refl; clusters = refl; shards = refl; nodes = refl }

loaded_counts :
    (fetch_data answering empty_page 0).0.resource_counts
    ≡ record { namespaces = pos 1; clusters = 1; shards = 1; nodes = 1 }
unfolding fetch_data fetch_namespaces gather iterate gather_namespaces fetch_clusters count_clusters
    list_shards count_nodes list_nodes count_items length_of enter_namespace add_shards add_nodes
    push_row new_row finish_loading show_namespaces get get_opt own_field
loaded_counts = refl

-- A pair of surrogates is one name.
surrogates :
    iterate (str (55357 ∷ 56832 ∷ 65 ∷ [])) ≡ ok (str (55357 ∷ 56832 ∷ []) ∷ str (65 ∷ []) ∷ [])
unfolding iterate code_points add_unit
surrogates = refl

answering-list : is_string (fetch_namespaces answering 0).0 ≡ false
unfolding fetch_namespaces get get_opt own_field
answering-list = refl

fetch_data_keeps_counts_example : IsConsistent (fetch_data answering empty_page 0).0
fetch_data_keeps_counts_example =
    fetch_data_keeps_counts answering empty_page 0 answering-list empty_page-IsConsistent

abbrev one_row : Page
one_row = record empty_page {
  namespaces_data =
      record { name = codes "ns"; cluster_count = 1; shard_count = 1; node_count = 1 } ∷ [];
  resource_counts = record { namespaces = pos 1; clusters = 1; shards = 1; nodes = 1 };
}

handle_delete_namespace_blind_example :
    let reply = refusing (deletion_request (drop_namespace (codes "ns"))) 0 in
    (handle_delete_namespace refusing true (codes "ns") one_row 0 ≡ (
      record one_row {
        namespaces_data = [];
        resource_counts = record {
          namespaces = pos 1 -ℤ pos 1;
          clusters = 1;
          shards = 1;
          nodes = 1;
        };
      },
      reply.1,
    ))
    × IsBlankWhen (is_deleted reply.0) (delete_namespace refusing (codes "ns") 0).0
unfolding filter
handle_delete_namespace_blind_example =
    handle_delete_namespace_blind refusing (codes "ns") one_row 0
