-- ===== src/Services/Execution.antt =====
-- app/services/execution_service.py with app/repositories/execution_repository.py: starting the
-- items of a plan and taking the results of executions. `_unlock_successors` is in Unlock.
pub mod Results
pub mod Failures
pub mod Once
pub mod Items
pub mod Start
pub mod Late
use uav_dag_offload_platform.Common.{
  ℕ, suc, ◌+◌, String, Bool, true, false, not, ◌&&◌, ◌||◌, Option, none, some, List, [], ◌∷◌, ◌++◌,
  map, eqb, ltb, length, if◌then◌else◌,
}
use uav_dag_offload_platform.Common.Equality.{◌==◌}
use uav_dag_offload_platform.Domain.Dag.{is_empty}
use uav_dag_offload_platform.Domain.Enums.{
  TaskStatus, SubtaskStatus, SchedulePlanStatus, ExecutionStatus, task_status_eq, subtask_status_eq,
  execution_status_eq,
}
use uav_dag_offload_platform.Domain.StateMachine.{State}
use uav_dag_offload_platform.Db.Models.{
  Uuid, Datetime, DagTask, DagSubtask, DagDependency, SchedulePlan, SchedulePlanItem,
  ExecutionRecord,
}
use uav_dag_offload_platform.Db.Table.{where_, find, modify, all_rows}
use uav_dag_offload_platform.Db.Store.{
  Store, task_key, subtask_key, schedule_plan_key, execution_record_key,
}
use uav_dag_offload_platform.Core.Errors.{
  Exec, pure, fail, raise, gets, or_else, modify_state, when, for_each, attribute_error,
  schedule_plan_not_found, execution_not_found, schedule_plan_task_mismatch,
  no_executable_plan_item, task_state_conflict, subtask_state_conflict,
  schedule_plan_state_conflict, execution_state_conflict, ◌>>=◌, ◌>>◌,
}
use uav_dag_offload_platform.Services.Transitions.{transition_or_conflict}
use uav_dag_offload_platform.Services.Unlock.{Rows, subtasks_of, unlock_successors}
use uav_dag_offload_platform.Services.Tasks.{
  get_task, modify_task, modify_subtask, modify_execution, or_value,
}

pub record ExecutionStartResult : Type 0 where
  pub task_id : Uuid
  pub schedule_plan_id : Uuid
  pub status : TaskStatus
  pub execution_count : ℕ
  pub execution_ids : List Uuid

pub record ExecutionResult : Type 0 where
  pub execution_id : Uuid
  pub subtask_status : SubtaskStatus
  pub task_status : TaskStatus
  pub accepted : Bool

pub record ExecutionDispatchRegistration : Type 0 where
  pub execution_id : Uuid
  pub celery_task_id : String

-- `_ensure_task_can_run`
unfoldable pub ensure_task_can_run : TaskStatus → Exec Store (Unit {0})
unfolding transition_or_conflict
ensure_task_can_run status =
    if status == TaskStatus.running
    then pure tt
    else transition_or_conflict task_state_conflict (State.task status)
        (State.task TaskStatus.running)

-- `_get_plan`
unfoldable pub get_plan : Uuid → Exec Store SchedulePlan
get_plan id s = or_else (find id s.schedule_plans) (fail schedule_plan_not_found 404) s

-- `_ensure_plan_can_apply`
unfoldable pub ensure_plan_can_apply : SchedulePlan → Exec Store (Unit {0})
unfolding transition_or_conflict
ensure_plan_can_apply plan =
    transition_or_conflict schedule_plan_state_conflict (State.schedule_plan plan.status)
      (State.schedule_plan SchedulePlanStatus.applied)

-- plan.items
unfoldable pub items_of : Uuid → List SchedulePlanItem → List SchedulePlanItem
items_of plan_id rows = where_ (λ r. eqb r.plan_id plan_id) rows

-- task.dependencies
unfoldable pub dependencies_of : Uuid → List DagDependency → List DagDependency
dependencies_of task_id rows = where_ (λ r. eqb r.task_id task_id) rows

-- item.subtask, record.subtask
unfoldable pub subtask_object : Uuid → Exec Store DagSubtask
subtask_object id s = or_else (find id s.subtasks) (raise attribute_error) s

-- record.task
unfoldable pub task_object : Uuid → Exec Store DagTask
task_object id s = or_else (find id s.tasks) (raise attribute_error) s

-- `_move_subtask_to_running`
unfoldable pub move_subtask_to_running : SubtaskStatus → Exec Store (Unit {0})
unfolding transition_or_conflict
move_subtask_to_running status = do
  transition_or_conflict subtask_state_conflict (State.subtask status)
      (State.subtask SubtaskStatus.dispatched)
  transition_or_conflict subtask_state_conflict (State.subtask SubtaskStatus.dispatched)
      (State.subtask SubtaskStatus.running)

-- A record that has yet to get its id.
abbrev pub Draft : Type 0
Draft = Uuid → ExecutionRecord

abbrev pub start_row : Datetime → DagSubtask → DagSubtask
start_row now r = record r { status = SubtaskStatus.running; started_at = some now }

abbrev pub new_record : Uuid → Datetime → SchedulePlanItem → ℕ → Draft
new_record task_id now item attempt id = record {
  id = id;
  task_id = task_id;
  subtask_id = item.subtask_id;
  node_id = item.assigned_node_id;
  plan_item_id = some item.id;
  attempt = attempt;
  status = ExecutionStatus.running;
  started_at = some now;
  finished_at = none;
  duration_ms = none;
  output_summary = none;
  failure_reason = none;
  celery_task_id = none;
  created_at = now;
}

-- The body of the loop over `plan.items`.
unfoldable pub start_item : Uuid → Datetime → SchedulePlanItem → Exec Store Draft
unfolding subtask_object move_subtask_to_running
start_item task_id now item = do
  subtask ← subtask_object item.subtask_id
  move_subtask_to_running subtask.status
  modify_subtask subtask.id (start_row now)
  pure (new_record task_id now item (subtask.retry_count + 1))

unfoldable pub start_items : Uuid → Datetime → List SchedulePlanItem → Exec Store (List Draft)
start_items task_id now [] = pure []
start_items task_id now (item ∷ items) = do
  draft ← start_item task_id now item
  drafts ← start_items task_id now items
  pure (draft ∷ drafts)

unfoldable pub number_drafts : ℕ → List Draft → List ExecutionRecord
number_drafts n [] = []
number_drafts n (draft ∷ drafts) = draft n ∷ number_drafts (suc n) drafts

-- `ExecutionRepository.create_many`
unfoldable pub create_many : List Draft → Exec Store (List ExecutionRecord)
unfolding number_drafts
create_many drafts s =
    let saved = number_drafts s.next_uuid drafts in
    pure saved (record s {
      next_uuid = s.next_uuid + length drafts;
      execution_records = s.execution_records ++ saved;
    })

abbrev pub apply_plan_row : Datetime → SchedulePlan → SchedulePlan
apply_plan_row now p = record p { status = SchedulePlanStatus.applied; applied_at = some now }

abbrev pub run_task_row : Datetime → DagTask → DagTask
run_task_row now t = record t {
  status = TaskStatus.running;
  started_at = or_value t.started_at now;
}

-- The checks before anything is written: the items to start.
unfoldable pub check_start : Uuid → Uuid → Exec Store (List SchedulePlanItem)
unfolding get_task ensure_task_can_run get_plan ensure_plan_can_apply items_of
check_start task_id schedule_plan_id = do
  found ← get_task task_id
  ensure_task_can_run found.status
  plan ← get_plan schedule_plan_id
  when (not (eqb plan.task_id task_id)) (fail schedule_plan_task_mismatch 400)
  ensure_plan_can_apply plan
  items ← gets (λ s. items_of schedule_plan_id s.schedule_plan_items)
  when (is_empty items) (fail no_executable_plan_item 409)
  pure items

-- What follows the loop over the items.
unfoldable pub finish_start : Datetime → Uuid → Uuid → List Draft → Exec Store ExecutionStartResult
unfolding create_many
finish_start now task_id plan_id drafts = do
  modify_state
      (λ s. record s { schedule_plans = modify plan_id (apply_plan_row now) s.schedule_plans })
  modify_task task_id (run_task_row now)
  saved ← create_many drafts
  pure (record {
    task_id = task_id;
    schedule_plan_id = plan_id;
    status = TaskStatus.running;
    execution_count = length saved;
    execution_ids = map (λ r. r.id) saved;
  })

unfoldable pub start_execution :
    (now : Datetime) (task_id schedule_plan_id : Uuid) → Exec Store ExecutionStartResult
unfolding check_start start_items finish_start
start_execution now task_id schedule_plan_id = do
  items ← check_start task_id schedule_plan_id
  drafts ← start_items task_id now items
  finish_start now task_id schedule_plan_id drafts

-- `record_celery_task_ids`; an unknown execution is passed over.
abbrev pub set_celery_task_id : ExecutionDispatchRegistration → Exec Store (Unit {0})
set_celery_task_id item =
    modify_execution item.execution_id (λ r. record r { celery_task_id = some item.celery_task_id })

unfoldable pub record_celery_task_ids : List ExecutionDispatchRegistration → Exec Store (Unit {0})
record_celery_task_ids items = for_each items set_celery_task_id

-- A report of an execution's result.
pub record Report : Type 0 where
  pub execution_id : Uuid
  pub status : ExecutionStatus
  pub duration_ms : Option ℕ
  pub output_summary : Option String
  pub failure_reason : Option String

abbrev pub finish_row : Datetime → Report → ExecutionRecord → ExecutionRecord
finish_row now report r = record r {
  status = report.status;
  finished_at = some now;
  duration_ms = report.duration_ms;
  output_summary = report.output_summary;
  failure_reason = report.failure_reason;
}

abbrev pub is_failure : ExecutionStatus → Bool
is_failure status =
    status == ExecutionStatus.failed
    || (status == ExecutionStatus.timeout || status == ExecutionStatus.canceled)

-- `_can_retry_subtask`
unfoldable pub can_retry_subtask : ExecutionStatus → ℕ → ℕ → Bool
can_retry_subtask status retry_count max_retries =
    (status == ExecutionStatus.failed || status == ExecutionStatus.timeout)
    && ltb retry_count max_retries

-- `_move_subtask_to_terminal`
unfoldable pub move_subtask_to_terminal : SubtaskStatus → SubtaskStatus → Exec Store (Unit {0})
unfolding transition_or_conflict
move_subtask_to_terminal current target =
    transition_or_conflict subtask_state_conflict (State.subtask current) (State.subtask target)

-- `_move_subtask_to_retry_ready`
unfoldable pub move_subtask_to_retry_ready : SubtaskStatus → Exec Store (Unit {0})
unfolding transition_or_conflict
move_subtask_to_retry_ready current = do
  transition_or_conflict subtask_state_conflict (State.subtask current)
      (State.subtask SubtaskStatus.failed)
  transition_or_conflict subtask_state_conflict (State.subtask SubtaskStatus.failed)
      (State.subtask SubtaskStatus.retrying)
  transition_or_conflict subtask_state_conflict (State.subtask SubtaskStatus.retrying)
      (State.subtask SubtaskStatus.ready)

-- `_move_task_to_terminal`
unfoldable pub move_task_to_terminal : TaskStatus → TaskStatus → Exec Store (Unit {0})
unfolding transition_or_conflict
move_task_to_terminal current target =
    transition_or_conflict task_state_conflict (State.task current) (State.task target)

-- `_ensure_execution_can_finish`
unfoldable pub ensure_execution_can_finish :
    ExecutionStatus → ExecutionStatus → Exec Store (Unit {0})
unfolding transition_or_conflict
ensure_execution_can_finish current target =
    transition_or_conflict execution_state_conflict (State.execution current)
      (State.execution target)

abbrev pub succeed_row : Datetime → DagSubtask → DagSubtask
succeed_row now r = record r { status = SubtaskStatus.success; finished_at = some now }

abbrev pub retry_row : Option String → DagSubtask → DagSubtask
retry_row reason r = record r {
  status = SubtaskStatus.ready;
  retry_count = r.retry_count + 1;
  started_at = none;
  finished_at = none;
  failure_reason = reason;
}

abbrev pub fail_row : Datetime → Option String → DagSubtask → DagSubtask
fail_row now reason r = record r {
  status = SubtaskStatus.failed;
  finished_at = some now;
  failure_reason = reason;
}

-- `_unlock_successors(task, subtask.id)`, on the subtasks of the store.
unfoldable pub unlock_task : Uuid → Uuid → Exec Store (Unit {0})
unfolding dependencies_of
unlock_task task_id completed s =
    let (result, rows) =
      unlock_successors task_id (dependencies_of task_id s.dependencies) completed s.subtasks in
    (result, record s { subtasks = rows })

-- all(item.status == SubtaskStatus.SUCCESS for item in task.subtasks)
unfoldable pub all_subtasks_success : Uuid → Rows → Bool
unfolding subtasks_of all_rows
all_subtasks_success task_id rows =
    all_rows (λ r. r.status == SubtaskStatus.success) (subtasks_of task_id rows)

abbrev pub succeed_task_row : Datetime → DagTask → DagTask
succeed_task_row now t = record t { status = TaskStatus.success; finished_at = some now }

abbrev pub fail_task_row : Datetime → Option String → DagTask → DagTask
fail_task_row now reason t = record t {
  status = TaskStatus.failed;
  failure_reason = reason;
  finished_at = some now;
}

-- The branch of a successful execution.
unfoldable pub report_success : Datetime → DagTask → DagSubtask → Exec Store (Unit {0})
unfolding move_subtask_to_terminal unlock_task all_subtasks_success move_task_to_terminal
report_success now task subtask = do
  move_subtask_to_terminal subtask.status SubtaskStatus.success
  modify_subtask subtask.id (succeed_row now)
  unlock_task task.id subtask.id
  complete ← gets (λ s. all_subtasks_success task.id s.subtasks)
  when complete do
    move_task_to_terminal task.status TaskStatus.success
    modify_task task.id (succeed_task_row now)

-- The branch of an execution that failed, timed out or was canceled.
unfoldable pub report_failure : Datetime → Report → DagTask → DagSubtask → Exec Store (Unit {0})
unfolding can_retry_subtask move_subtask_to_retry_ready move_subtask_to_terminal
    move_task_to_terminal
report_failure now report task subtask =
    if can_retry_subtask report.status subtask.retry_count subtask.max_retries
    then (do
      move_subtask_to_retry_ready subtask.status
      modify_subtask subtask.id (retry_row report.failure_reason))
    else (do
      move_subtask_to_terminal subtask.status SubtaskStatus.failed
      modify_subtask subtask.id (fail_row now report.failure_reason)
      move_task_to_terminal task.status TaskStatus.failed
      modify_task task.id (fail_task_row now report.failure_reason))

-- The objects are read again for the answer, after what was written to them.
unfoldable pub answer : ExecutionRecord → Bool → Exec Store ExecutionResult
unfolding subtask_object task_object
answer r accepted = do
  subtask ← subtask_object r.subtask_id
  task ← task_object r.task_id
  pure (record {
    execution_id = r.id;
    subtask_status = subtask.status;
    task_status = task.status;
    accepted = accepted;
  })

-- What follows the idempotency guard.
unfoldable pub accept : Datetime → Report → ExecutionRecord → Exec Store ExecutionResult
unfolding ensure_execution_can_finish subtask_object get_task report_success report_failure answer
accept now report r = do
  ensure_execution_can_finish r.status report.status
  modify_execution r.id (finish_row now report)
  subtask ← subtask_object r.subtask_id
  task ← get_task r.task_id
  if report.status == ExecutionStatus.success
      then report_success now task subtask
      else when (is_failure report.status) (report_failure now report task subtask)
  answer r true

unfoldable pub find_execution : Uuid → Exec Store ExecutionRecord
find_execution id s = or_else (find id s.execution_records) (fail execution_not_found 404) s

unfoldable pub report_result : Datetime → Report → Exec Store ExecutionResult
unfolding find_execution accept answer
report_result now report = do
  r ← find_execution report.execution_id
  if not (r.status == ExecutionStatus.running) then answer r false else accept now report r
