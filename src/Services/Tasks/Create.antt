-- ===== src/Services/Tasks/Create.antt =====
-- `TaskService.create_task` of app/services/task_service.py with the request of app/schemas/task.py.
-- `metadata` is only stored, and left out. The task gets the next id, its subtasks and then its
-- dependencies the ids after it.
use uav_dag_offload_platform.Common.{
  ℕ, suc, ◌+◌, String, Option, none, some, List, [], ◌∷◌, ◌++◌, map, length, if◌then◌else◌,
}
use uav_dag_offload_platform.Common.Equality.{◌==◌, string_eq}
use uav_dag_offload_platform.Domain.Dag.{valid, contains, validate_dag}
use uav_dag_offload_platform.Domain.Enums.{TaskStatus, SubtaskStatus, SubtaskExecutionConstraint}
use uav_dag_offload_platform.Db.Models.{Uuid, Datetime, DagTask, DagSubtask, DagDependency}
use uav_dag_offload_platform.Db.Store.{Store}
use uav_dag_offload_platform.Core.Errors.{Exec, ok, fail, raise, dag_validation_failed, key_error}

pub record SubtaskCreate : Type 0 where
  pub external_id : String
  pub name : String
  pub compute_load : ℕ
  pub input_data_size_mb : ℕ
  pub output_data_size_mb : ℕ
  pub execution_constraint : SubtaskExecutionConstraint
  pub max_retries : ℕ

pub record DependencyCreate : Type 0 where
  pub from_ : String
  pub to : String

pub record DagTaskCreate : Type 0 where
  pub name : String
  pub priority : ℕ
  pub deadline_at : Option Datetime
  pub submitted_by : Option String
  pub subtasks : List SubtaskCreate
  pub dependencies : List DependencyCreate

abbrev pub external_ids : DagTaskCreate → List String
external_ids form = map (λ subtask. subtask.external_id) form.subtasks

abbrev pub edges : DagTaskCreate → List (String × String)
edges form = map (λ dependency. (dependency.from_, dependency.to)) form.dependencies

-- successor_ids
abbrev pub successor_ids : List (String × String) → List String
successor_ids deps = map (λ edge. edge.1) deps

abbrev pub new_subtask : Uuid → Datetime → List String → Uuid → SubtaskCreate → DagSubtask
new_subtask task_id now successors id form = record {
  id = id;
  task_id = task_id;
  external_id = form.external_id;
  name = form.name;
  status =
      if contains successors form.external_id then SubtaskStatus.waiting else SubtaskStatus.ready;
  execution_constraint = form.execution_constraint;
  compute_load = form.compute_load;
  input_data_size_mb = form.input_data_size_mb;
  output_data_size_mb = form.output_data_size_mb;
  max_retries = form.max_retries;
  retry_count = 0;
  failure_reason = none;
  created_at = now;
  started_at = none;
  finished_at = none;
}

unfoldable pub new_subtasks :
    Uuid → Datetime → List String → Uuid → List SubtaskCreate → List DagSubtask
new_subtasks task_id now successors n [] = []
new_subtasks task_id now successors n (form ∷ forms) =
    new_subtask task_id now successors n form ∷ new_subtasks task_id now successors (suc n) forms

-- subtask_map[external_id].id: of the subtasks with one external id the dict keeps the last.
unfoldable pub id_of : String → List DagSubtask → Option Uuid
id_of name [] = none
id_of name (r ∷ rows) = elim (id_of name rows) [
  | some id ↦ some id
  | none ↦ if r.external_id == name then some r.id else none
]

abbrev pub prepend : DagDependency → Option (List DagDependency) → Option (List DagDependency)
prepend d none = none
prepend d (some rest) = some (d ∷ rest)

abbrev new_dependency :
    Uuid
    → Uuid
    → Option Uuid
    → Option Uuid
    → Option (List DagDependency)
    → Option (List DagDependency)
new_dependency task_id n (some predecessor) (some successor) rest =
    prepend
      (record {
        id = n;
        task_id = task_id;
        predecessor_subtask_id = predecessor;
        successor_subtask_id = successor;
      })
      rest
new_dependency task_id n _ _ rest = none

-- `none`: a KeyError.
unfoldable pub new_dependencies :
    Uuid → List DagSubtask → Uuid → List (String × String) → Option (List DagDependency)
unfolding id_of
new_dependencies task_id rows n [] = some []
new_dependencies task_id rows n ((predecessor, successor) ∷ deps) =
    new_dependency task_id n (id_of predecessor rows) (id_of successor rows)
      (new_dependencies task_id rows (suc n) deps)

abbrev pub new_task : Datetime → Uuid → DagTaskCreate → DagTask
new_task now id form = record {
  id = id;
  name = form.name;
  status = TaskStatus.pending;
  priority = form.priority;
  deadline_at = form.deadline_at;
  submitted_by = form.submitted_by;
  failure_reason = none;
  created_at = now;
  scheduled_at = none;
  started_at = none;
  finished_at = none;
}

unfoldable pub store_task : Datetime → DagTaskCreate → Exec Store DagTask
unfolding new_subtasks new_dependencies
store_task now form s =
    let id = s.next_uuid in
    let rows = new_subtasks id now (successor_ids (edges form)) (suc id) form.subtasks in
    let task = new_task now id form in
    let first_dependency = suc id + length rows in
    elim (new_dependencies id rows first_dependency (edges form)) [
      | none ↦ (raise key_error) s
      | some deps ↦ (
        ok task,
        record s {
          next_uuid = first_dependency + length deps;
          tasks = s.tasks ++ task ∷ [];
          subtasks = s.subtasks ++ rows;
          dependencies = s.dependencies ++ deps;
        },
      )
    ]

-- A `ValueError` of `validate_dag` is answered with status 400. The model's fuel never runs out.
unfoldable pub create_task : Datetime → DagTaskCreate → Exec Store DagTask
unfolding validate_dag store_task
create_task now form s = elim (validate_dag (external_ids form) (edges form)) [
  | some valid ↦ store_task now form s
  | _ ↦ fail dag_validation_failed 400 s
]
