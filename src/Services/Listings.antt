-- ===== src/Services/Listings.antt =====
-- The listings of app/repositories/task_repository.py, schedule_repository.py and execution_repository.py, with
-- the services and endpoints that pass them on, and `_task_to_read` and `_task_to_detail` of
-- app/api/v1/endpoints/tasks.py.
pub mod Reordered
pub mod Detail
use uav_dag_offload_platform.Common.{
  ℕ, String, Bool, true, ◌&&◌, Option, none, some, List, [], ◌∷◌, eqb, length, if◌then◌else◌,
}
use uav_dag_offload_platform.Core.Errors.{
  Exec, Result, ok, raised, pure, gets, raise, or_else, key_error, ◌>>=◌, ◌>>◌,
}
use uav_dag_offload_platform.Domain.Enums.{
  TaskStatus, SubtaskStatus, ExecutionStatus, task_status_eq, subtask_status_eq,
  execution_status_eq,
}
use uav_dag_offload_platform.Db.Models.{
  Uuid, Datetime, DagTask, DagSubtask, DagDependency, SchedulePlan, ExecutionRecord,
}
use uav_dag_offload_platform.Db.Table.{find, where_, map_option}
use uav_dag_offload_platform.Db.Pages.{order_by, newest_first, oldest_first, page_of, is_or_any}
use uav_dag_offload_platform.Db.Store.{Store, subtask_key}
use uav_dag_offload_platform.Services.Execution.{dependencies_of}
use uav_dag_offload_platform.Services.Tasks.{get_task}
use uav_dag_offload_platform.Services.Unlock.{subtasks_of}

-- A page of the selected rows, with the total of them.
abbrev listed : {A : Type 0} → (List A → List A) → (page page_size : ℕ) → List A → List A × ℕ
listed ordered page page_size rows = (page_of page page_size (ordered rows), length rows)

unfoldable pub list_tasks :
    Option TaskStatus → (page page_size : ℕ) → List DagTask → List DagTask × ℕ
unfolding where_ order_by page_of
list_tasks status page page_size rows =
    listed (newest_first (λ r. r.created_at)) page page_size
      (where_ (λ r. is_or_any status r.status) rows)

unfoldable pub list_subtasks :
    Uuid → Option SubtaskStatus → (page page_size : ℕ) → List DagSubtask → List DagSubtask × ℕ
unfolding where_ order_by page_of
list_subtasks task_id status page page_size rows =
    listed (oldest_first (λ r. r.created_at)) page page_size
      (where_ (λ r. eqb r.task_id task_id && is_or_any status r.status) rows)

unfoldable pub list_plans_by_task :
    Uuid → (page page_size : ℕ) → List SchedulePlan → List SchedulePlan × ℕ
unfolding where_ order_by page_of
list_plans_by_task task_id page page_size rows =
    listed (newest_first (λ r. r.created_at)) page page_size
      (where_ (λ r. eqb r.task_id task_id) rows)

unfoldable pub list_executions_by_task :
    Uuid
    → Option ExecutionStatus
    → (page page_size : ℕ) → List ExecutionRecord
    → List ExecutionRecord × ℕ
unfolding where_ order_by page_of
list_executions_by_task task_id status page page_size rows =
    listed (newest_first (λ r. r.created_at)) page page_size
      (where_ (λ r. eqb r.task_id task_id && is_or_any status r.status) rows)

-- `TaskService.list_subtasks`, `SchedulingService.list_task_plans` and
-- `ExecutionService.list_task_executions`: an unknown task is an error.
unfoldable pub list_task_subtasks :
    Uuid → Option SubtaskStatus → (page page_size : ℕ) → Exec Store (List DagSubtask × ℕ)
unfolding get_task list_subtasks
list_task_subtasks task_id status page page_size = do
  get_task task_id
  gets (λ s. list_subtasks task_id status page page_size s.subtasks)

unfoldable pub list_task_plans : Uuid → (page page_size : ℕ) → Exec Store (List SchedulePlan × ℕ)
unfolding get_task list_plans_by_task
list_task_plans task_id page page_size = do
  get_task task_id
  gets (λ s. list_plans_by_task task_id page page_size s.schedule_plans)

unfoldable pub list_task_executions :
    Uuid → Option ExecutionStatus → (page page_size : ℕ) → Exec Store (List ExecutionRecord × ℕ)
unfolding get_task list_executions_by_task
list_task_executions task_id status page page_size = do
  get_task task_id
  gets (λ s. list_executions_by_task task_id status page page_size s.execution_records)

pub record DagTaskRead : Type 0 where
  pub id : Uuid
  pub name : String
  pub status : TaskStatus
  pub priority : ℕ
  pub deadline_at : Option Datetime
  pub subtask_count : ℕ
  pub dependency_count : ℕ
  pub created_at : Datetime

-- `_task_to_read`; all points of time are UTC already.
unfoldable pub task_to_read : DagTask → List DagSubtask → List DagDependency → DagTaskRead
task_to_read task subtasks dependencies = record {
  id = task.id;
  name = task.name;
  status = task.status;
  priority = task.priority;
  deadline_at = task.deadline_at;
  subtask_count = length subtasks;
  dependency_count = length dependencies;
  created_at = task.created_at;
}

pub record DagDependencyRead : Type 0 where
  pub from_ : String
  pub to : String

pub record DagTaskDetailRead : Type 0 where
  pub id : Uuid
  pub name : String
  pub status : TaskStatus
  pub priority : ℕ
  pub deadline_at : Option Datetime
  pub subtasks : List DagSubtask
  pub dependencies : List DagDependencyRead
  pub created_at : Datetime

-- subtask_external_ids[id]
unfoldable pub external_id_of : Uuid → List DagSubtask → Option String
unfolding find
external_id_of id subtasks = map_option (λ r. r.external_id) (find id subtasks)

abbrev pub read_dependency :
    Option String
    → Option String
    → Option (List DagDependencyRead)
    → Option (List DagDependencyRead)
read_dependency (some from_) (some to) (some rest) = some (record { from_ = from_; to = to } ∷ rest)
read_dependency _ _ _ = none

-- `none`: a KeyError.
unfoldable pub read_dependencies :
    List DagSubtask → List DagDependency → Option (List DagDependencyRead)
unfolding external_id_of
read_dependencies subtasks [] = some []
read_dependencies subtasks (d ∷ dependencies) =
    read_dependency (external_id_of d.predecessor_subtask_id subtasks)
      (external_id_of d.successor_subtask_id subtasks) (read_dependencies subtasks dependencies)

-- `_task_to_detail`, without `updated_at`.
unfoldable pub task_to_detail :
    DagTask → List DagSubtask → List DagDependency → Exec Store DagTaskDetailRead
unfolding read_dependencies
task_to_detail task subtasks dependencies = do
  read ← or_else (read_dependencies subtasks dependencies) (raise key_error)
  pure (record {
    id = task.id;
    name = task.name;
    status = task.status;
    priority = task.priority;
    deadline_at = task.deadline_at;
    subtasks = subtasks;
    dependencies = read;
    created_at = task.created_at;
  })

-- `get_task` of the endpoint. The relationships have no order of their own: the first two arguments are
-- the order in which the database lists the rows.
unfoldable pub get_task_detail :
    (List DagSubtask → List DagSubtask)
    → (List DagDependency → List DagDependency)
    → Uuid
    → Exec Store DagTaskDetailRead
unfolding get_task task_to_detail subtasks_of dependencies_of
get_task_detail subtask_order dependency_order task_id = do
  task ← get_task task_id
  subtasks ← gets (λ s. subtask_order (subtasks_of task.id s.subtasks))
  dependencies ← gets (λ s. dependency_order (dependencies_of task.id s.dependencies))
  task_to_detail task subtasks dependencies
