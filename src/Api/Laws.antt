-- ===== src/Api/Laws.antt =====
-- webui/src/app/lib/api.ts: the messages of the calls, and the requests that they send.
use kvrocks_controller.Common.{
  Bool, Bool-cases, List, [], arith, false, inl, inr, not, refl, true, ◌||◌, ◌∷◌, ◌≡◌,
}
use kvrocks_controller.Api.Calls.{
  Request, cluster_url, clusters_url, create_cluster, create_namespace, create_node, create_shard,
  delete_cluster, delete_namespace, delete_node, delete_shard, deleting, import_cluster,
  migrate_slot, namespace_url, namespaces_url, node_url, nodes_url, object, posting, shard_url,
  shards_url, slash, texts, try_catch,
}
use kvrocks_controller.Api.Response.{
  Caught, error_message, handle_create_response, handle_delete_response, handle_error,
  response_body, thrown,
}
use kvrocks_controller.Js.Number.{Num}
use kvrocks_controller.Js.Text.{Text, codes}
use kvrocks_controller.Js.Value.{
  Result, Thrown, Value, bool, get_opt, is_nullish, is_text, null, num, ok, str, throw, truthy,
  undefined, ◌>>=◌,
}

-- `handleError` never gives a blank message, whatever it is given.
pub handle_error-truthy : (e : Caught) → truthy (handle_error e) ≡ true
unfolding handle_error
handle_error-truthy e = elim (Bool-cases (truthy (error_message e))) [
  | inl given ↦ rw (given, handle_error) given
  | inr blank ↦ rw (blank, handle_error)
]

is_text_of_truthy : (v : Value) → truthy v ≡ true → is_text [] v ≡ false
is_text_of_truthy (str (c ∷ s)) h = refl
is_text_of_truthy (str []) h = cc
is_text_of_truthy undefined h = refl
is_text_of_truthy _ h = refl

-- The calls that create something, with the request that each is to send.
pub data Creation : Type 0 where
  new_namespace : Text → Creation
  new_cluster : Text → List Text → Num → Text → Text → Creation
  import_into : Text → Text → List Text → Text → Creation
  new_migration : Text → Text → Num → Text → Bool → Creation
  new_shard : Text → Text → List Text → Text → Creation
  new_node : Text → Text → Text → Text → Text → Text → Creation

unfoldable pub creation_request : Creation → Request
creation_request (new_namespace name) =
    posting namespaces_url (object ((codes "namespace", str name) ∷ []))
creation_request (new_cluster name nodes replicas password ns) = posting (clusters_url ns) (
    object (
      (codes "name", str name)
      ∷ (codes "nodes", texts nodes)
      ∷ (codes "replicas", num replicas)
      ∷ (codes "password", str password)
      ∷ []))
creation_request (import_into ns c nodes password) =
    posting (slash (cluster_url ns c) (codes "import"))
      (object ((codes "nodes", texts nodes) ∷ (codes "password", str password) ∷ []))
creation_request (new_migration ns c target slot slot_only) =
    posting (slash (cluster_url ns c) (codes "migrate")) (
      object (
        (codes "target", num target)
        ∷ (codes "slot", str slot)
        ∷ (codes "slot_only", bool slot_only)
        ∷ []))
creation_request (new_shard ns c nodes password) =
    posting (shards_url ns c)
      (object ((codes "nodes", texts nodes) ∷ (codes "password", str password) ∷ []))
creation_request (new_node ns c s addr role password) = posting (nodes_url ns c s) (
    object
      ((codes "addr", str addr) ∷ (codes "role", str role) ∷ (codes "password", str password) ∷ []))

pub data Deletion : Type 0 where
  drop_namespace : Text → Deletion
  drop_cluster : Text → Text → Deletion
  drop_shard : Text → Text → Text → Deletion
  drop_node : Text → Text → Text → Text → Deletion

unfoldable pub deletion_request : Deletion → Request
deletion_request (drop_namespace ns) = deleting (namespace_url ns)
deletion_request (drop_cluster ns c) = deleting (cluster_url ns c)
deletion_request (drop_shard ns c s) = deleting (shard_url ns c s)
deletion_request (drop_node ns c s n) = deleting (node_url ns c s n)

-- The answers that mean success: a body with data; for a deletion also a body without, or "ok".
unfoldable pub is_created : Result Value → Bool
is_created (throw t) = false
is_created (ok v) = not (is_nullish (get_opt (codes "data") v))

unfoldable pub is_deleted : Result Value → Bool
is_deleted (throw t) = false
is_deleted (ok v) =
    is_nullish (get_opt (codes "data") v) || is_text (codes "ok") (get_opt (codes "data") v)

-- A message that is blank exactly when the answer is good, by both tests that callers make:
-- `response === ""` and `if (response)`.
abbrev pub IsBlankWhen : Bool → Value → Type 0
IsBlankWhen good message = (is_text [] message ≡ good) × (truthy message ≡ not good)

handle_create_response_lem :
    (v : Value) → IsBlankWhen (is_created (ok v)) (handle_create_response v)
unfolding handle_create_response is_created
handle_create_response_lem v = ground (
  arith,
  handle_error-truthy (response_body v),
  is_text_of_truthy (handle_error (response_body v)),
)

handle_delete_response_lem :
    (v : Value) → IsBlankWhen (is_deleted (ok v)) (handle_delete_response v)
unfolding handle_delete_response is_deleted get_opt
handle_delete_response_lem undefined = (refl, refl)
handle_delete_response_lem null = (refl, refl)
handle_delete_response_lem v = ground (
  arith,
  handle_error-truthy (response_body v),
  is_text_of_truthy (handle_error (response_body v)),
)

handle_thrown_lem : (t : Thrown) → IsBlankWhen false (handle_error (thrown t))
handle_thrown_lem t = (
  is_text_of_truthy (handle_error (thrown t)) (handle_error-truthy (thrown t)),
  handle_error-truthy (thrown t),
)

module _ {W : Type 0} (axios : Request → W → Result Value × W) where
  unfoldable pub create : Creation → W → Value × W
  create (new_namespace name) = create_namespace axios name
  create (new_cluster name nodes replicas password ns) =
      create_cluster axios name nodes replicas password ns
  create (import_into ns c nodes password) = import_cluster axios ns c nodes password
  create (new_migration ns c target slot slot_only) = migrate_slot axios ns c target slot slot_only
  create (new_shard ns c nodes password) = create_shard axios ns c nodes password
  create (new_node ns c s addr role password) = create_node axios ns c s addr role password

  unfoldable pub delete : Deletion → W → Value × W
  delete (drop_namespace ns) = delete_namespace axios ns
  delete (drop_cluster ns c) = delete_cluster axios ns c
  delete (drop_shard ns c s) = delete_shard axios ns c s
  delete (drop_node ns c s n) = delete_node axios ns c s n

  create_answer_lem :
      (r : Result Value)
      → IsBlankWhen
          (is_created r)
          (try_catch (r >>= λ v. ok (handle_create_response v)) (λ t. handle_error (thrown t)))
  unfolding is_created
  create_answer_lem (ok v) = unfold is_created in handle_create_response_lem v
  create_answer_lem (throw t) = handle_thrown_lem t

  -- Every call that creates something sends its one request, and its message is blank exactly
  -- when the answer carries data; on an exception or any other answer it is not blank.
  pub create_lem :
      (c : Creation) (w : W)
      → IsBlankWhen (is_created (axios (creation_request c) w).0) (create c w).0
        × ((create c w).1 ≡ (axios (creation_request c) w).1)
  unfolding create creation_request create_namespace create_cluster import_cluster migrate_slot
      create_shard create_node
  create_lem (new_namespace name) w = (create_answer_lem _, refl)
  create_lem (new_cluster name nodes replicas password ns) w = (create_answer_lem _, refl)
  create_lem (import_into ns c nodes password) w = (create_answer_lem _, refl)
  create_lem (new_migration ns c target slot slot_only) w = (create_answer_lem _, refl)
  create_lem (new_shard ns c nodes password) w = (create_answer_lem _, refl)
  create_lem (new_node ns c s addr role password) w = (create_answer_lem _, refl)

  delete_answer_lem :
      (r : Result Value)
      → IsBlankWhen
          (is_deleted r)
          (try_catch (r >>= λ v. ok (handle_delete_response v)) (λ t. handle_error (thrown t)))
  unfolding is_deleted
  delete_answer_lem (ok v) = unfold is_deleted in handle_delete_response_lem v
  delete_answer_lem (throw t) = handle_thrown_lem t

  -- Every call that deletes something sends its one request, and its message is blank exactly
  -- when the answer has no data or the data "ok"; on any other answer or an exception it is not.
  pub delete_lem :
      (d : Deletion) (w : W)
      → IsBlankWhen (is_deleted (axios (deletion_request d) w).0) (delete d w).0
        × ((delete d w).1 ≡ (axios (deletion_request d) w).1)
  unfolding delete deletion_request delete_namespace delete_cluster delete_shard delete_node
  delete_lem (drop_namespace ns) w = (delete_answer_lem _, refl)
  delete_lem (drop_cluster ns c) w = (delete_answer_lem _, refl)
  delete_lem (drop_shard ns c s) w = (delete_answer_lem _, refl)
  delete_lem (drop_node ns c s n) w = (delete_answer_lem _, refl)
