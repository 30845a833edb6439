-- ===== src/Api/Tests.antt =====
-- Runs of the API client, and the theorems about it at concrete requests.
use kvrocks_controller.Common.{[], refl, ◌≡◌}
use kvrocks_controller.Api.Calls.{
  clusters_url, create_namespace, delete_shard, fetch_clusters, fetch_namespaces, getting,
  list_nodes, list_shards, namespaces_url, nodes_url, shards_url,
}
use kvrocks_controller.Api.Laws.{
  IsBlankWhen, create, create_lem, creation_request, delete, delete_lem, deletion_request,
  drop_cluster, is_created, is_deleted, new_namespace,
}
use kvrocks_controller.Api.Reads.{IsRead, list_calls_lem}
use kvrocks_controller.Api.Response.{error_message, handle_delete_response, handle_error}
use kvrocks_controller.Api.Samples.{answering, refusing, silent}
use kvrocks_controller.Api.Urls.{delete-same_requests}
use kvrocks_controller.Js.Text.{codes}
use kvrocks_controller.Js.Value.{null, ok, get_opt, own_field, str}

create_refused : (create_namespace refusing (codes "ns") 0) ≡ (str (codes "refused"), 1)
unfolding create_namespace handle_error error_message get_opt own_field
create_refused = refl

deletion_answered : (delete_shard silent (codes "ns") (codes "c") (codes "0") 4) ≡ (str [], 5)
unfolding delete_shard handle_delete_response get_opt own_field
deletion_answered = refl

create_lem_example :
    IsBlankWhen
      (is_created (refusing (creation_request (new_namespace (codes "ns"))) 0).0)
      (create refusing (new_namespace (codes "ns")) 0).0
    × ((create refusing (new_namespace (codes "ns")) 0).1
        ≡ (refusing (creation_request (new_namespace (codes "ns"))) 0).1)
create_lem_example = create_lem refusing (new_namespace (codes "ns")) 0

delete_lem_example :
    IsBlankWhen
      (is_deleted (silent (deletion_request (drop_cluster (codes "ns") (codes "c"))) 0).0)
      (delete silent (drop_cluster (codes "ns") (codes "c")) 0).0
    × ((delete silent (drop_cluster (codes "ns") (codes "c")) 0).1
        ≡ (silent (deletion_request (drop_cluster (codes "ns") (codes "c"))) 0).1)
delete_lem_example = delete_lem silent (drop_cluster (codes "ns") (codes "c")) 0

list_calls_lem_example :
    IsRead
      (codes "namespaces")
      (answering (getting namespaces_url) 0)
      (fetch_namespaces answering 0)
    × IsRead
        (codes "clusters")
        (answering (getting (clusters_url (codes "ns"))) 0)
        (fetch_clusters answering (codes "ns") 0)
    × IsRead
        (codes "shards")
        (answering (getting (shards_url (codes "ns") (codes "c"))) 0)
        (list_shards answering (codes "ns") (codes "c") 0)
    × IsRead
        (codes "nodes")
        (answering (getting (nodes_url (codes "ns") (codes "c") (codes "0"))) 0)
        (list_nodes answering (codes "ns") (codes "c") (codes "0") 0)
list_calls_lem_example = list_calls_lem answering (codes "ns") (codes "c") (codes "0") 0

delete-same_requests_example :
    drop_cluster (codes "ns") (codes "c") ≡ drop_cluster (codes "ns") (codes "c")
delete-same_requests_example =
    delete-same_requests (λ r. ok null) (drop_cluster (codes "ns") (codes "c"))
      (drop_cluster (codes "ns") (codes "c")) ((refl, (refl, tt)), (refl, tt))
      ((refl, (refl, tt)), (refl, tt)) refl
