-- ===== src/Api/Calls.antt =====
-- webui/src/app/lib/api.ts: the exported functions. axios and the server behind it are the
-- parameter `axios`, which takes a request and the server's state to the parsed body, or to what
-- axios throws, and to the server's next state.
use kvrocks_controller.Common.{Bool, List, Option, [], if◌then◌else◌, map, none, some, ◌++◌, ◌∷◌}
use kvrocks_controller.Api.Response.{
  handle_create_response, handle_delete_response, handle_error, response_body, thrown,
}
use kvrocks_controller.Js.Number.{Num}
use kvrocks_controller.Js.Text.{Text, codes, is_empty}
use kvrocks_controller.Js.Value.{
  Fields, Result, Thrown, Value, arr, bool, from_list, get, get_opt, nil, no_fields, num, obj, ok,
  or_else, str, throw, truthy, undefined, with_field, ◌>>=◌,
}

pub data Method : Type 0 where
  get_method post_method delete_method : Method

pub record Request : Type 0 where
  pub method : Method
  pub url : Text
  pub payload : Value

-- The result of `failoverShard`; a field that it leaves out is `undefined`.
pub record FailoverReply : Type 0 where
  pub new_master_id : Value
  pub failure : Value

abbrev pub api_host : Text
api_host = codes "/api/v1"

abbrev pub object_fields : List (Text × Value) → Fields
object_fields [] = no_fields
object_fields ((k, v) ∷ fs) = with_field k v (object_fields fs)

abbrev pub object : List (Text × Value) → Value
object fs = obj (object_fields fs)

abbrev pub texts : List Text → Value
texts ts = arr (from_list (map str ts))

-- `${prefix}/${t}`
abbrev pub slash : Text → Text → Text
slash prefix t = prefix ++ b'/' ∷ t

unfoldable pub namespaces_url : Text
namespaces_url = slash api_host (codes "namespaces")

unfoldable pub namespace_url : Text → Text
unfolding namespaces_url
namespace_url ns = slash namespaces_url ns

unfoldable pub clusters_url : Text → Text
unfolding namespace_url
clusters_url ns = slash (namespace_url ns) (codes "clusters")

unfoldable pub cluster_url : Text → Text → Text
unfolding clusters_url
cluster_url ns c = slash (clusters_url ns) c

unfoldable pub shards_url : Text → Text → Text
unfolding cluster_url
shards_url ns c = slash (cluster_url ns c) (codes "shards")

unfoldable pub shard_url : Text → Text → Text → Text
unfolding shards_url
shard_url ns c s = slash (shards_url ns c) s

unfoldable pub nodes_url : Text → Text → Text → Text
unfolding shard_url
nodes_url ns c s = slash (shard_url ns c s) (codes "nodes")

unfoldable pub node_url : Text → Text → Text → Text → Text
unfolding nodes_url
node_url ns c s n = slash (nodes_url ns c s) n

abbrev pub getting : Text → Request
getting u = record { method = get_method; url = u; payload = undefined }

abbrev pub posting : Text → Value → Request
posting u v = record { method = post_method; url = u; payload = v }

abbrev pub deleting : Text → Request
deleting u = record { method = delete_method; url = u; payload = undefined }

-- `try { … } catch (e) { … }`
abbrev pub try_catch {ℓ} : {A : Type ℓ} → Result A → (Thrown → A) → A
try_catch (ok a) handler = a
try_catch (throw t) handler = handler t

unfoldable pub failover_reply : Value → FailoverReply
failover_reply v =
    let promoted = get_opt (codes "new_master_id") (get_opt (codes "data") v) in
    if truthy promoted
    then record { new_master_id = promoted; failure = undefined }
    else record { new_master_id = undefined; failure = handle_error (response_body v) }

-- An absent or empty preferred node is left out of the request.
unfoldable pub preferred_body : Option Text → Value
preferred_body none = obj no_fields
preferred_body (some id) =
    if is_empty id then obj no_fields else object ((codes "preferred_node_id", str id) ∷ [])

module _ {W : Type 0} (axios : Request → W → Result Value × W) where
  -- One request, and what the rest of the `try` block and its `catch` make of the answer.
  abbrev pub call : {A : Type 0} → Request → (Value → Result A) → (Thrown → A) → W → A × W
  call r proceed handler w = let (out, w') = axios r w in (try_catch (out >>= proceed) handler, w')

  -- `responseData.data.<key> || []`, and `[]` on any exception
  abbrev list_call : Request → Text → W → Value × W
  list_call r key =
      call r (λ v. do d ← get (codes "data") v; l ← get key d; ok (or_else l (arr nil)))
        (λ _. arr nil)

  -- `responseData.data.<key>`, and `{}` on any exception
  abbrev object_call : Request → Text → W → Value × W
  object_call r key = call r (λ v. do d ← get (codes "data") v; get key d) (λ _. obj no_fields)

  abbrev create_call : Request → W → Value × W
  create_call r = call r (λ v. ok (handle_create_response v)) (λ t. handle_error (thrown t))

  abbrev delete_call : Request → W → Value × W
  delete_call r = call r (λ v. ok (handle_delete_response v)) (λ t. handle_error (thrown t))

  unfoldable pub fetch_namespaces : W → Value × W
  unfolding get namespaces_url
  fetch_namespaces = list_call (getting namespaces_url) (codes "namespaces")

  unfoldable pub create_namespace : Text → W → Value × W
  unfolding handle_create_response handle_error namespaces_url
  create_namespace name =
      create_call (posting namespaces_url (object ((codes "namespace", str name) ∷ [])))

  unfoldable pub delete_namespace : Text → W → Value × W
  unfolding handle_delete_response handle_error namespace_url
  delete_namespace name = delete_call (deleting (namespace_url name))

  unfoldable pub create_cluster : Text → List Text → Num → Text → Text → W → Value × W
  unfolding handle_create_response handle_error clusters_url
  create_cluster name nodes replicas password namespace = create_call (
      posting (clusters_url namespace) (
        object (
          (codes "name", str name)
          ∷ (codes "nodes", texts nodes)
          ∷ (codes "replicas", num replicas)
          ∷ (codes "password", str password)
          ∷ [])))

  unfoldable pub fetch_clusters : Text → W → Value × W
  unfolding get clusters_url
  fetch_clusters namespace = list_call (getting (clusters_url namespace)) (codes "clusters")

  unfoldable pub fetch_cluster : Text → Text → W → Value × W
  unfolding get cluster_url
  fetch_cluster namespace cluster =
      object_call (getting (cluster_url namespace cluster)) (codes "cluster")

  unfoldable pub delete_cluster : Text → Text → W → Value × W
  unfolding handle_delete_response handle_error cluster_url
  delete_cluster namespace cluster = delete_call (deleting (cluster_url namespace cluster))

  unfoldable pub import_cluster : Text → Text → List Text → Text → W → Value × W
  unfolding handle_create_response handle_error cluster_url
  import_cluster namespace cluster nodes password = create_call (
      posting (slash (cluster_url namespace cluster) (codes "import"))
        (object ((codes "nodes", texts nodes) ∷ (codes "password", str password) ∷ [])))

  unfoldable pub migrate_slot : Text → Text → Num → Text → Bool → W → Value × W
  unfolding handle_create_response handle_error cluster_url
  migrate_slot namespace cluster target slot slot_only = create_call (
      posting (slash (cluster_url namespace cluster) (codes "migrate")) (
        object (
          (codes "target", num target)
          ∷ (codes "slot", str slot)
          ∷ (codes "slot_only", bool slot_only)
          ∷ [])))

  unfoldable pub create_shard : Text → Text → List Text → Text → W → Value × W
  unfolding handle_create_response handle_error shards_url
  create_shard namespace cluster nodes password = create_call (
      posting (shards_url namespace cluster)
        (object ((codes "nodes", texts nodes) ∷ (codes "password", str password) ∷ [])))

  unfoldable pub fetch_shard : Text → Text → Text → W → Value × W
  unfolding get shard_url
  fetch_shard namespace cluster shard =
      object_call (getting (shard_url namespace cluster shard)) (codes "shard")

  unfoldable pub list_shards : Text → Text → W → Value × W
  unfolding get shards_url
  list_shards namespace cluster =
      list_call (getting (shards_url namespace cluster)) (codes "shards")

  unfoldable pub delete_shard : Text → Text → Text → W → Value × W
  unfolding handle_delete_response handle_error shard_url
  delete_shard namespace cluster shard = delete_call (deleting (shard_url namespace cluster shard))

  unfoldable pub create_node : Text → Text → Text → Text → Text → Text → W → Value × W
  unfolding handle_create_response handle_error nodes_url
  create_node namespace cluster shard addr role password = create_call (
      posting (nodes_url namespace cluster shard) (
        object (
          (codes "addr", str addr)
          ∷ (codes "role", str role)
          ∷ (codes "password", str password)
          ∷ [])))

  unfoldable pub list_nodes : Text → Text → Text → W → Value × W
  unfolding get nodes_url
  list_nodes namespace cluster shard =
      list_call (getting (nodes_url namespace cluster shard)) (codes "nodes")

  unfoldable pub delete_node : Text → Text → Text → Text → W → Value × W
  unfolding handle_delete_response handle_error node_url
  delete_node namespace cluster shard node_id =
      delete_call (deleting (node_url namespace cluster shard node_id))

  unfoldable pub failover_shard : Text → Text → Text → Option Text → W → FailoverReply × W
  failover_shard namespace cluster shard preferred =
      call
        (posting (slash (shard_url namespace cluster shard) (codes "failover"))
          (preferred_body preferred))
        (λ v. ok (failover_reply v))
        (λ t. record { new_master_id = undefined; failure = handle_error (thrown t) })
