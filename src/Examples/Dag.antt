-- ===== src/Examples/Dag.antt =====
-- Graphs for app/domain/dag.py, after tests/domain/test_dag.py.
use uav_dag_offload_platform.Common.{String, ◌≡◌, ◌≢◌, refl, none, some, List, [], ◌∷◌}
use uav_dag_offload_platform.Common.Equality.{string_eq}
use uav_dag_offload_platform.Domain.Dag.{
  valid, invalid, no_subtask, duplicate_ids, unknown_subtask, self_dependency, cycle, validate_dag,
}
use uav_dag_offload_platform.Domain.Dag.Correct.{
  IsDag, Reaches, validate_dag_sound, validate_dag_complete, validate_dag-acyclic,
  validate_dag_total,
}

abbrev ids : List String
ids = "capture" ∷ "detect" ∷ "measure" ∷ "upload" ∷ []

abbrev branching : List (String × String)
branching =
    ("capture", "detect")
    ∷ ("capture", "measure")
    ∷ ("detect", "upload")
    ∷ ("measure", "upload")
    ∷ []

abbrev ring : List (String × String)
ring = ("capture", "detect") ∷ ("detect", "measure") ∷ ("measure", "capture") ∷ []

branching_valid : validate_dag ids branching ≡ some valid
unfolding validate_dag
branching_valid = refl

ring_invalid : validate_dag ids ring ≡ some (invalid cycle)
unfolding validate_dag
ring_invalid = refl

no_subtasks : validate_dag {K = String} [] [] ≡ some (invalid no_subtask)
unfolding validate_dag
no_subtasks = refl

duplicates :
    validate_dag {K = String} ("capture" ∷ "capture" ∷ []) [] ≡ some (invalid duplicate_ids)
unfolding validate_dag
duplicates = refl

stranger : validate_dag ids (("capture", "fly") ∷ []) ≡ some (invalid unknown_subtask)
unfolding validate_dag
stranger = refl

own_successor : validate_dag ids (("upload", "upload") ∷ []) ≡ some (invalid self_dependency)
unfolding validate_dag
own_successor = refl

validate_dag_sound_example : IsDag ids branching
validate_dag_sound_example = validate_dag_sound ids branching branching_valid

validate_dag_complete_example : validate_dag ids branching ≡ some valid
validate_dag_complete_example =
    validate_dag_complete ids branching (validate_dag_sound ids branching branching_valid)

validate_dag-acyclic_example : ¬ Reaches branching "upload" "upload"
validate_dag-acyclic_example = validate_dag-acyclic ids branching "upload" branching_valid

validate_dag_total_example : validate_dag ids ring ≢ none
validate_dag_total_example = validate_dag_total ids ring
