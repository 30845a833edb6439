-- ===== src/Api/Samples.antt =====
-- Servers for the runs of the tests: each counts the requests that it gets.
use kvrocks_controller.Common.{[], ℕ, ◌+◌, ◌∷◌}
use kvrocks_controller.Api.Calls.{Request, object, texts}
use kvrocks_controller.Common.Int.{negsuc}
use kvrocks_controller.Js.Number.{int, num_ℕ}
use kvrocks_controller.Js.Text.{codes}
use kvrocks_controller.Js.Value.{
  Result, Value, arr, axios_error, cons, nil, null, num, ok, str, throw,
}

abbrev pub Server : Type 0
Server = Request → ℕ → Result Value × ℕ

abbrev pub body : Value → Value
body v = object ((codes "data", v) ∷ [])

abbrev pub sample_node : Value
sample_node = object (
    (codes "id", str (codes "n1"))
    ∷ (codes "role", str (codes "master"))
    ∷ (codes "created_at", num (num_ℕ 5))
    ∷ [])

abbrev pub sample_replica : Value
sample_replica = object ((codes "id", str (codes "n2")) ∷ (codes "role", str (codes "slave")) ∷ [])

-- A shard as the controller prints it, with a migrating slot and a receiver.
abbrev pub shard_with : Value → Value → Value
shard_with migrating target = object (
    (codes "nodes", arr (cons sample_node (cons sample_replica nil)))
    ∷ (codes "slot_ranges", texts (codes "0-2" ∷ codes "7" ∷ []))
    ∷ (codes "migrating_slot", migrating)
    ∷ (codes "target_shard_index", target)
    ∷ [])

abbrev pub idle_shard : Value
idle_shard = shard_with null (num (int (negsuc 0)))

abbrev pub sample_data : Value
sample_data = object (
    (codes "namespaces", texts (codes "ns" ∷ []))
    ∷ (codes "clusters", texts (codes "c" ∷ []))
    ∷ (codes "shards", arr (cons idle_shard nil))
    ∷ (codes "nodes", arr (cons sample_node nil))
    ∷ (
      codes "cluster",
      object ((codes "name", str (codes "c")) ∷ (codes "shards", arr (cons idle_shard nil)) ∷ []),
    )
    ∷ (codes "shard", idle_shard)
    ∷ (codes "new_master_id", str (codes "n2"))
    ∷ [])

abbrev pub answering : Server
answering r n = (ok (body sample_data), n + 1)

abbrev pub silent : Server
silent r n = (ok null, n + 1)

abbrev pub refusing : Server
refusing r n = (
  throw (
      axios_error
        (object ((codes "error", object ((codes "message", str (codes "refused")) ∷ [])) ∷ []))
        (codes "Request failed")),
  n + 1,
)
