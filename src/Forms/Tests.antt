-- ===== src/Forms/Tests.antt =====
-- Runs of the forms and of the dialog that holds them.
use kvrocks_controller.Common.{
  List, [], any, false, map, none, refl, some, true, ℕ, ◌++◌, ◌+◌, ◌∷◌, ◌≡◌,
}
use kvrocks_controller.Api.Calls.{texts}
use kvrocks_controller.Api.Laws.{is_created}
use kvrocks_controller.Api.Samples.{answering, idle_shard}
use kvrocks_controller.Forms.Creation.{any_spaced, parse_nodes, submit_cluster}
use kvrocks_controller.Forms.Data.{
  FormData, Outcome, capitalize, contains_whitespace, get_entry, last_entry, pushed, spaced,
  text_field, validate_form_data,
}
use kvrocks_controller.Forms.Dialog.{FormDialog}
use kvrocks_controller.Forms.Laws.{ConcludesWith, cluster_request, submit_cluster_lem}
use kvrocks_controller.Forms.Migrate.{source_shard}
use kvrocks_controller.Forms.Source.{Printed, Prints, first_holding, source_shard-printed}
use kvrocks_controller.Js.Decimal.{show_ℕ}
use kvrocks_controller.Js.Number.{num_ℕ}
use kvrocks_controller.Js.Text.{Text, codes, contains_space, is_space}
use kvrocks_controller.Js.Value.{Result, Value, get_opt, ok, own_field, str, to_text}
use kvrocks_controller.Pages.Effects.{elements}
use kvrocks_controller.Store.Slot.{SlotRange, slot_range_text}

abbrev sample_data : FormData
sample_data = (codes "name", codes "ns") ∷ []

abbrev spaced_data : FormData
spaced_data = (codes "name", codes "n s") ∷ []

abbrev sample_dialog : FormDialog
sample_dialog = record {
  show_dialog = true;
  error_message = str [];
  array_values = [];
  submitting = false;
}

abbrev on_submit : FormData → ℕ → Result Value × ℕ
on_submit fs n = (ok (str (codes "no")), n + 1)

space_refused :
    validate_form_data spaced_data (codes "name" ∷ [])
    ≡ some (codes "Name cannot contain any whitespace characters.")
unfolding validate_form_data get_entry spaced contains_whitespace contains_space any is_space
    capitalize
space_refused = refl

sample_data-valid : validate_form_data sample_data (codes "name" ∷ []) ≡ none
unfolding validate_form_data get_entry spaced contains_whitespace contains_space any is_space
sample_data-valid = refl

abbrev cluster_data : FormData
cluster_data =
    (codes "name", codes "c") ∷ (codes "replicas", codes "1") ∷ (codes "nodes", codes "[]") ∷ []

abbrev one_node : Text → Result Value
one_node t = ok (texts (codes "h:1" ∷ []))

cluster_data-valid : validate_form_data cluster_data (codes "name" ∷ codes "replicas" ∷ []) ≡ none
unfolding validate_form_data get_entry spaced contains_whitespace contains_space any is_space
cluster_data-valid = refl

cluster_data-nodes : parse_nodes one_node cluster_data ≡ ok (str (codes "h:1") ∷ [])
unfolding parse_nodes last_entry elements
cluster_data-nodes = refl

cluster_data-unspaced : any_spaced (str (codes "h:1") ∷ []) ≡ false
unfolding any_spaced contains_whitespace contains_space any is_space to_text
cluster_data-unspaced = refl

submit_cluster_lem_example :
    (r : Outcome) × (submit_cluster answering one_node (codes "ns") cluster_data 0 ≡ (
      ok r,
      (answering
          (cluster_request answering (codes "ns") cluster_data (str (codes "h:1") ∷ []))
          0).1,
    ))
    × ConcludesWith
        (pushed (
          codes "/namespaces/"
          ++ (codes "ns" ++ (codes "/clusters/" ++ text_field (codes "name") cluster_data))))
        (is_created
          (answering
            (cluster_request answering (codes "ns") cluster_data (str (codes "h:1") ∷ []))
            0).0)
        r
submit_cluster_lem_example =
    submit_cluster_lem answering one_node (codes "ns") cluster_data (str (codes "h:1")) [] 0
      cluster_data-valid cluster_data-nodes cluster_data-unspaced

abbrev sample_ranges : List SlotRange
sample_ranges = record { start = 0; stop = 2 } ∷ record { start = 7; stop = 7 } ∷ []

idle_shard-Prints : Prints idle_shard sample_ranges
unfolding get_opt own_field slot_range_text show_ℕ
idle_shard-Prints = record {
  object = refl;
  ranges = refl;
  migrating = λ z. refl;
  importing = λ z. refl;
}

abbrev sample_shards : List Printed
sample_shards = (idle_shard, sample_ranges) ∷ []

source_shard-printed_example :
    source_shard (num_ℕ 7) 0 (map (λ p. p.0) sample_shards)
    ≡ ok (first_holding 7 0 (map (λ p. p.1) sample_shards))
source_shard-printed_example = source_shard-printed 7 0 sample_shards (idle_shard-Prints, tt)
