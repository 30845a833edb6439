-- ===== src/Forms/Laws.antt =====
-- webui/src/app/ui/formCreation.tsx: the checks of the forms, and what becomes of the answer.
use kvrocks_controller.Common.{
  All, Bool, List, [], arith, false, length, map, none, refl, true, ◌++◌, ◌==◌, ◌↔◌, ◌∷◌, ◌≡◌,
}
use kvrocks_controller.Api.Calls.{Request, create_cluster, create_namespace}
use kvrocks_controller.Api.Laws.{
  IsBlankWhen, create, create_lem, creation_request, is_created, new_cluster, new_namespace,
}
use kvrocks_controller.Forms.Creation.{any_spaced, parse_nodes, submit_cluster, submit_namespace}
use kvrocks_controller.Forms.Data.{
  FormData, Outcome, conclude, get_entry, message, pushed, spaced, text_field, validate_form_data,
}
use kvrocks_controller.Js.Number.{Num, parse_int}
use kvrocks_controller.Js.Text.{Text, codes}
use kvrocks_controller.Js.Value.{Result, Value, ok, to_text, truthy}

-- The data of a form passes exactly if none of the listed fields has a first entry that holds a space.
pub validate_form_data_iff :
    (fs : FormData) (fields : List Text)
    → (validate_form_data fs fields ≡ none) ↔ All (λ f. spaced (get_entry f fs) ≡ false) fields
unfolding validate_form_data
validate_form_data_iff fs [] = ground arith
validate_form_data_iff fs (f ∷ fields) = ground (arith, validate_form_data_iff fs fields)

-- What a form returns on a good answer, and on any other: a message that is not blank.
abbrev pub ConcludesWith : Outcome → Bool → Outcome → Type 0
ConcludesWith done true r = r ≡ done
ConcludesWith done false r = (m : Value) × (r ≡ message m) × (truthy m ≡ true)

pub conclude_lem :
    (done : Outcome) (fallback : Text) (good : Bool) (response : Value)
    → IsBlankWhen good response
    → ConcludesWith done good (conclude done fallback response)
unfolding conclude
conclude_lem done fallback true response (blank, falsy) = rw blank
conclude_lem done fallback false response (blank, filled) = (response, rw (blank, filled), filled)

module _ {W : Type 0} (axios : Request → W → Result Value × W) where
  create_namespace_lem :
      (name : Text) (w : W)
      → IsBlankWhen
          (is_created (axios (creation_request (new_namespace name)) w).0)
          (create_namespace axios name w).0
        × ((create_namespace axios name w).1 ≡ (axios (creation_request (new_namespace name)) w).1)
  create_namespace_lem name w = unfold create in create_lem axios (new_namespace name) w

  -- Submitting the form for a namespace whose name holds no space makes one request. The form
  -- goes on to the page of the namespace if the answer carries data, and returns a message that
  -- is not blank if it does not.
  pub submit_namespace_lem :
      (fs : FormData) (w : W)
      → validate_form_data fs (codes "name" ∷ []) ≡ none
      → ConcludesWith
          (pushed (codes "/namespaces/" ++ text_field (codes "name") fs))
          (is_created (axios (creation_request (new_namespace (text_field (codes "name") fs))) w).0)
          (submit_namespace axios fs w).0
        × ((submit_namespace axios fs w).1
            ≡ (axios (creation_request (new_namespace (text_field (codes "name") fs))) w).1)
  unfolding submit_namespace
  submit_namespace_lem fs w h =
      let name = text_field (codes "name") fs in
      let (blank, sent) = create_namespace_lem name w in
      let opened : submit_namespace axios fs w ≡ (
        conclude (pushed (codes "/namespaces/" ++ name)) (codes "Failed to create namespace")
            (create_namespace axios name w).0,
        (create_namespace axios name w).1,
      ) =
        rw (h, submit_namespace) refl in
      rw opened (conclude_lem _ _ _ _ blank, sent)

  create_cluster_lem :
      (name : Text) (nodes : List Text) (replicas : Num) (password ns : Text) (w : W)
      → let sent = axios (creation_request (new_cluster name nodes replicas password ns)) w in
        IsBlankWhen (is_created sent.0) (create_cluster axios name nodes replicas password ns w).0
        × ((create_cluster axios name nodes replicas password ns w).1 ≡ sent.1)
  create_cluster_lem name nodes replicas password ns w =
      unfold create in create_lem axios (new_cluster name nodes replicas password ns) w

  -- The request of the cluster form for the nodes that it has read.
  abbrev pub cluster_request : Text → FormData → List Value → Request
  cluster_request ns fs nodes = creation_request (
      new_cluster (text_field (codes "name") fs) (map to_text nodes)
        (parse_int (text_field (codes "replicas") fs)) (text_field (codes "password") fs) ns)

  -- Submitting the form for a cluster whose name and number of replicas hold no space, and whose
  -- nodes are read as a list that is not empty and of which none holds a space, makes one request.
  -- The form goes on to the page of the cluster if the answer carries data, and returns a message
  -- that is not blank if it does not.
  pub submit_cluster_lem :
      (parse : Text → Result Value) (ns : Text) (fs : FormData) (v : Value) (vs : List Value)
      (w : W)
      → validate_form_data fs (codes "name" ∷ codes "replicas" ∷ []) ≡ none
      → parse_nodes parse fs ≡ ok (v ∷ vs)
      → any_spaced (v ∷ vs) ≡ false
      → (r : Outcome) × (submit_cluster axios parse ns fs w
          ≡ (ok r, (axios (cluster_request ns fs (v ∷ vs)) w).1))
        × ConcludesWith
            (pushed (
              codes "/namespaces/" ++ (ns ++ (codes "/clusters/" ++ text_field (codes "name") fs))))
            (is_created (axios (cluster_request ns fs (v ∷ vs)) w).0)
            r
  unfolding submit_cluster
  submit_cluster_lem parse ns fs v vs w h p q =
      let name = text_field (codes "name") fs in
      let nodes = map to_text (v ∷ vs) in
      let replicas = parse_int (text_field (codes "replicas") fs) in
      let password = text_field (codes "password") fs in
      let (blank, sent) = create_cluster_lem name nodes replicas password ns w in
      let response = (create_cluster axios name nodes replicas password ns w).0 in
      let filled : (length (v ∷ vs) == 0) ≡ false = ground arith in
      (
        conclude (pushed (codes "/namespaces/" ++ (ns ++ (codes "/clusters/" ++ name))))
            (codes "Failed to create cluster") response,
        rw (h, p, filled, q, submit_cluster, sent) refl,
        conclude_lem _ _ _ _ blank,
      )
