-- ===== src/Api/Reads.antt =====
-- webui/src/app/lib/api.ts: what the calls that read something return.
use kvrocks_controller.Common.{if◌then◌else◌, Bool-cases, [], inl, inr, refl, true, ◌∷◌, ◌≡◌}
use kvrocks_controller.Api.Calls.{
  Request, clusters_url, fetch_clusters, fetch_namespaces, getting, list_nodes, list_shards,
  namespaces_url, nodes_url, object, shards_url, try_catch,
}
use kvrocks_controller.Js.Text.{Text, codes}
use kvrocks_controller.Js.Value.{
  Result, Value, arr, get, get_opt, nil, null, ok, or_else, throw, truthy, undefined, ◌>>=◌,
}

-- The value under a key of the answer's data, by optional reads.
unfoldable pub answered : Text → Result Value → Value
answered key (throw t) = undefined
answered key (ok v) = get_opt key (get_opt (codes "data") v)

or_else-truthy : (v : Value) → truthy (or_else v (arr nil)) ≡ true
or_else-truthy v = elim (Bool-cases (truthy v)) [
  | inl given ↦ rw given given
  | inr missing ↦ rw missing
]

-- What a list call makes of an answer: the value under the key, of whatever shape, if it is truthy,
-- and else the empty list.
abbrev IsValue : Text → Result Value → Value → Type 0
IsValue key r v =
    (v ≡ (if truthy (answered key r) then answered key r else arr nil)) × (truthy v ≡ true)

-- The same of a call, which leaves the server as its one request does.
abbrev pub IsRead {ℓ} : {W : Type ℓ} → Text → Result Value × W → Value × W → Type ℓ
IsRead key reply got = IsValue key reply.0 got.0 × (got.1 ≡ reply.1)

list_answer_lem :
    (key : Text) (r : Result Value)
    → IsValue key r (
        try_catch
          (r >>= λ v. get (codes "data") v >>= λ d. get key d >>= λ l. ok (or_else l (arr nil)))
          (λ _. arr nil))
unfolding answered get
list_answer_lem key (throw t) = (refl, refl)
list_answer_lem key (ok undefined) = (refl, refl)
list_answer_lem key (ok null) = (refl, refl)
list_answer_lem key (ok v) = data_lem (get_opt (codes "data") v)
  where
    data_lem :
        (d : Value)
        → IsValue key
            (ok (object ((codes "data", d) ∷ [])))
            (try_catch (get key d >>= λ l. ok (or_else l (arr nil))) (λ _. arr nil))
    data_lem undefined = (refl, refl)
    data_lem null = (refl, refl)
    data_lem d = (refl, or_else-truthy (get_opt key d))

module _ {W : Type 0} (axios : Request → W → Result Value × W) where
  -- Each list call makes one request and returns what the answer holds under its key, also where that
  -- is not a list, if it is truthy; it returns the empty list where the request fails or the answer
  -- holds nothing, or nothing truthy, there. The result is never falsy.
  pub list_calls_lem :
      (ns c s : Text) (w : W)
      → IsRead (codes "namespaces") (axios (getting namespaces_url) w) (fetch_namespaces axios w)
        × IsRead
            (codes "clusters")
            (axios (getting (clusters_url ns)) w)
            (fetch_clusters axios ns w)
        × IsRead (codes "shards") (axios (getting (shards_url ns c)) w) (list_shards axios ns c w)
        × IsRead (codes "nodes") (axios (getting (nodes_url ns c s)) w) (list_nodes axios ns c s w)
  unfolding fetch_namespaces fetch_clusters list_shards list_nodes
  list_calls_lem ns c s w = (
    (list_answer_lem _ _, refl),
    (list_answer_lem _ _, refl),
    (list_answer_lem _ _, refl),
    (list_answer_lem _ _, refl),
  )
