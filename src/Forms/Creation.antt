-- ===== src/Forms/Creation.antt =====
-- webui/src/app/ui/formCreation.tsx: the forms for namespaces, clusters, shards, imports and nodes.
-- `JSON.parse` is the parameter `parse`. The dialog writes a list of texts under "nodes"; an
-- element of another type is sent as its text here.
use Prim.Native.String.{String}
use kvrocks_controller.Common.{
  Bool, List, Option, [], any, if◌then◌else◌, inl, inr, length, map, none, not, some, ◌&&◌, ◌++◌,
  ◌==◌, ◌∷◌, ◌⊎◌,
}
use kvrocks_controller.Api.Calls.{
  Request, create_cluster, create_namespace, create_node, create_shard, import_cluster,
}
use kvrocks_controller.Forms.Data.{
  FormData, Outcome, conclude, contains_whitespace, last_entry, message, pushed, reloaded,
  text_field, validate_form_data,
}
use kvrocks_controller.Js.Number.{parse_int}
use kvrocks_controller.Js.Text.{Text, codes, is_empty}
use kvrocks_controller.Js.Value.{
  Result, Value, arr, cons, error, is_string, items, ok, str, throw, to_text, truthy, ◌>>=◌,
}
use kvrocks_controller.Pages.Effects.{elements}

abbrev pub say : String → Outcome
say s = message (str (codes s))

-- `for (const node of nodes) if (containsWhitespace(node)) return …`
unfoldable pub any_spaced : List Value → Bool
any_spaced nodes = any (λ v. contains_whitespace (to_text v)) nodes

-- `!node || typeof node !== "string"`
unfoldable pub is_address : Value → Bool
is_address v = truthy v && is_string v

-- The loop of `ShardCreation` over the nodes: the first that is no address or holds a space.
unfoldable pub check_addresses : List Value → Option Outcome
check_addresses [] = none
check_addresses (v ∷ vs) =
    let rest = check_addresses vs in
    if not (is_address v)
    then some (say "All nodes must be valid address strings.")
    else if contains_whitespace (to_text v)
    then some (say "Node addresses cannot contain whitespace characters.")
    else rest

module _ (parse : Text → Result Value) where
  -- `JSON.parse(formObj["nodes"])`, which throws where the entry is missing
  unfoldable pub parse_nodes : FormData → Result (List Value)
  parse_nodes fs = elim (last_entry (codes "nodes") fs) [
    | none ↦ throw (error (codes "\"undefined\" is not valid JSON"))
    | some t ↦ parse t >>= elements (codes "nodes")
  ]

module _ {W : Type 0} (axios : Request → W → Result Value × W) where
  unfoldable pub submit_namespace : FormData → W → Outcome × W
  submit_namespace fs w = elim (validate_form_data fs (codes "name" ∷ [])) [
    | some problem ↦ (message (str problem), w)
    | none ↦
        let name = text_field (codes "name") fs in
        let (response, w') = create_namespace axios name w in
        (
          conclude (pushed (codes "/namespaces/" ++ name)) (codes "Failed to create namespace")
              response,
          w',
        )
  ]

  unfoldable pub submit_node : Text → Text → Text → FormData → W → Outcome × W
  submit_node namespace cluster shard fs w =
      elim (validate_form_data fs (codes "Address" ∷ codes "Role" ∷ [])) [
        | some problem ↦ (message (str problem), w)
        | none ↦
            let address = text_field (codes "Address") fs in
            let (response, w') =
              create_node axios namespace cluster shard address (text_field (codes "Role") fs)
                (text_field (codes "Password") fs) w in
            if contains_whitespace address
            then (say "Address cannot contain any whitespace characters.", w)
            else (conclude reloaded (codes "Failed to create node") response, w')
      ]

  module _ (parse : Text → Result Value) where
    unfoldable pub submit_cluster : Text → FormData → W → Result Outcome × W
    submit_cluster namespace fs w =
        elim (validate_form_data fs (codes "name" ∷ codes "replicas" ∷ [])) [
          | some problem ↦ (ok (message (str problem)), w)
          | none ↦ elim (parse_nodes parse fs) [
            | throw t ↦ (throw t, w)
            | ok nodes ↦
                let name = text_field (codes "name") fs in
                let (response, w') =
                  create_cluster axios name (map to_text nodes)
                    (parse_int (text_field (codes "replicas") fs))
                    (text_field (codes "password") fs) namespace w in
                if length nodes == 0
                then (ok (say "Nodes cannot be empty."), w)
                else if any_spaced nodes
                then (ok (say "Nodes cannot contain any whitespace characters."), w)
                else (
                  ok (
                      conclude
                        (pushed
                          (codes "/namespaces/" ++ (namespace ++ (codes "/clusters/" ++ name))))
                        (codes "Failed to create cluster") response),
                  w',
                )
          ]
        ]

    unfoldable pub submit_import : Text → FormData → W → Result Outcome × W
    submit_import namespace fs w = elim (validate_form_data fs (codes "nodes" ∷ [])) [
      | some problem ↦ (ok (message (str problem)), w)
      | none ↦ elim (parse_nodes parse fs) [
        | throw t ↦ (throw t, w)
        | ok nodes ↦
            let cluster = text_field (codes "cluster") fs in
            let (response, w') =
              import_cluster axios namespace cluster (map to_text nodes)
                (text_field (codes "password") fs) w in
            if length nodes == 0
            then (ok (say "Nodes cannot be empty."), w)
            else if any_spaced nodes
            then (ok (say "Nodes cannot contain any whitespace characters."), w)
            else (
              ok (
                  conclude
                    (pushed
                      (codes "/namespaces/" ++ (namespace ++ (codes "/clusters/" ++ cluster))))
                    (codes "Failed to import cluster") response),
              w',
            )
      ]
    ]

    -- The nodes of a shard, or the message that refuses them.
    unfoldable pub shard_nodes : FormData → Outcome ⊎ List Value
    shard_nodes fs = elim (last_entry (codes "nodes") fs) [
      | none ↦ inl (say "Nodes field is required.")
      | some t ↦ if is_empty t then inl (say "Nodes field is required.") else elim (parse t) [
        | throw e ↦ inl (say "Invalid nodes format. Please check your input.")
        | ok (arr (cons v vs)) ↦ elim (check_addresses (v ∷ items vs)) [
          | some problem ↦ inl problem
          | none ↦ inr (v ∷ items vs)
        ]
        | ok other ↦ inl (say "At least one node is required.")
      ]
    ]

    unfoldable pub submit_shard : Text → Text → FormData → W → Outcome × W
    submit_shard namespace cluster fs w = elim (validate_form_data fs (codes "nodes" ∷ [])) [
      | some problem ↦ (message (str problem), w)
      | none ↦ elim (shard_nodes fs) [
        | inl problem ↦ (problem, w)
        | inr nodes ↦
            let (response, w') =
              create_shard axios namespace cluster (map to_text nodes)
                (text_field (codes "password") fs) w in
            (conclude reloaded (codes "Failed to create shard") response, w')
      ]
    ]
