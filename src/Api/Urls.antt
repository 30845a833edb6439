-- ===== src/Api/Urls.antt =====
-- webui/src/app/lib/api.ts: the URLs that the deletions address.
use kvrocks_controller.Common.{List, [], ap, refl, ◌++◌, ◌∷◌, ◌≡◌}
use kvrocks_controller.Js.Value.{Result, Value}
use kvrocks_controller.Api.Calls.{
  Request, cluster_url, clusters_url, namespace_url, node_url, nodes_url, shard_url, shards_url,
  slash,
}
use kvrocks_controller.Api.Laws.{
  Deletion, delete, delete_lem, deletion_request, drop_cluster, drop_namespace, drop_node,
  drop_shard,
}
use kvrocks_controller.Js.Text.{Text, codes, split}
use kvrocks_controller.Js.Text.Laws.{Lacks, split-append_all, split_of_Lacks}

split-slash : (p t : Text) → split b'/' (slash p t) ≡ split b'/' p ++ split b'/' t
split-slash p t = split-append_all b'/' p t

-- A name that can stand as one part of a path.
abbrev pub IsPart : Text → Type 0
IsPart t = Lacks b'/' t

abbrev pub HasParts : Deletion → Type 0
HasParts (drop_namespace ns) = IsPart ns
HasParts (drop_cluster ns c) = IsPart ns × IsPart c
HasParts (drop_shard ns c s) = IsPart ns × IsPart c × IsPart s
HasParts (drop_node ns c s n) = IsPart ns × IsPart c × IsPart s × IsPart n

parts : Deletion → List Text
parts (drop_namespace ns) = ns ∷ []
parts (drop_cluster ns c) = ns ∷ codes "clusters" ∷ c ∷ []
parts (drop_shard ns c s) = ns ∷ codes "clusters" ∷ c ∷ codes "shards" ∷ s ∷ []
parts (drop_node ns c s n) = ns ∷ codes "clusters" ∷ c ∷ codes "shards" ∷ s ∷ codes "nodes" ∷ n ∷ []

abbrev root_parts : List Text
root_parts = [] ∷ codes "api" ∷ codes "v1" ∷ codes "namespaces" ∷ []

split-deletion_request :
    (d : Deletion) → HasParts d → split b'/' (deletion_request d).url ≡ root_parts ++ parts d
unfolding deletion_request parts namespace_url clusters_url cluster_url shards_url shard_url
    nodes_url node_url
split-deletion_request (drop_namespace ns) p =
    simp (split-slash, split_of_Lacks b'/' ns p) (unfold split in refl)
split-deletion_request (drop_cluster ns c) (p, q) =
    simp (split-slash, split_of_Lacks b'/' ns p, split_of_Lacks b'/' c q) (unfold split in refl)
split-deletion_request (drop_shard ns c s) (p, q, r) =
    simp (split-slash, split_of_Lacks b'/' ns p, split_of_Lacks b'/' c q, split_of_Lacks b'/' s r)
      (unfold split in refl)
split-deletion_request (drop_node ns c s n) (p, q, r, t) =
    simp
      (
        split-slash,
        split_of_Lacks b'/' ns p,
        split_of_Lacks b'/' c q,
        split_of_Lacks b'/' s r,
        split_of_Lacks b'/' n t,
      )
      (unfold split in refl)

parts-injective : (d e : Deletion) → parts d ≡ parts e → d ≡ e
unfolding parts
parts-injective (drop_namespace _) (drop_namespace _) h = cc
parts-injective (drop_cluster _ _) (drop_cluster _ _) h = cc
parts-injective (drop_shard _ _ _) (drop_shard _ _ _) h = cc
parts-injective (drop_node _ _ _ _) (drop_node _ _ _ _) h = cc
parts-injective _ _ h = cc

-- A server that notes the requests it gets, and answers as `answer` says.
abbrev pub noting : (Request → Result Value) → Request → List Request → Result Value × List Request
noting answer r log = (answer r, log ++ r ∷ [])

-- Two deletion calls whose names hold no slash send the same requests, as texts, only if they are
-- the same call with the same names, whatever the server answers.
pub delete-same_requests :
    (answer : Request → Result Value) (d e : Deletion)
    → HasParts d
    → HasParts e
    → (delete (noting answer) d []).1 ≡ (delete (noting answer) e []).1
    → d ≡ e
delete-same_requests answer d e p q h =
    parts-injective d e
      (cc (split-deletion_request d p, split-deletion_request e q, ap (λ r. split b'/' r.url) sent))
  where
    requests : deletion_request d ∷ [] ≡ deletion_request e ∷ []
    requests = cc ((delete_lem (noting answer) d []).1, (delete_lem (noting answer) e []).1, h)

    sent : deletion_request d ≡ deletion_request e
    sent = cc requests
