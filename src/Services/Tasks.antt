-- ===== src/Services/Tasks.antt =====
-- app/services/task_service.py with app/repositories/task_repository.py and
-- revoke_event_repository.py: reading, listing and cancelling tasks. `create_task` is in Create.
pub mod Create
pub mod Initial
pub mod Cancel
use uav_dag_offload_platform.Common.{
  ℕ, suc, ◌-◌, ◌*◌, String, Bool, true, false, not, ◌&&◌, ◌||◌, Option, none, some, List, [], ◌∷◌,
  ◌++◌, eqb, length, if◌then◌else◌,
}
use uav_dag_offload_platform.Common.Equality.{◌==◌}
use uav_dag_offload_platform.Domain.Enums.{
  TaskStatus, SubtaskStatus, ExecutionStatus, task_status_eq, subtask_status_eq,
  execution_status_eq,
}
use uav_dag_offload_platform.Domain.StateMachine.{State}
use uav_dag_offload_platform.Db.Models.{
  Uuid, Datetime, DagTask, DagSubtask, ExecutionRecord, ExecutionRevokeEvent,
}
use uav_dag_offload_platform.Db.Table.{where_, find, modify}
use uav_dag_offload_platform.Db.Store.{Store, task_key, subtask_key, execution_record_key}
use uav_dag_offload_platform.Core.Errors.{
  Exec, pure, fail, gets, or_else, modify_state, when, for_each, task_not_found,
  task_state_conflict, ◌>>=◌, ◌>>◌,
}
use uav_dag_offload_platform.Services.Transitions.{
  ensure_transition_allowed, transition_or_conflict,
}
use uav_dag_offload_platform.Services.Unlock.{subtasks_of}

unfoldable pub get_task : Uuid → Exec Store DagTask
get_task id s = or_else (find id s.tasks) (fail task_not_found 404) s

abbrev pub modify_task : Uuid → (DagTask → DagTask) → Exec Store (Unit {0})
modify_task id f = modify_state (λ s. record s { tasks = modify id f s.tasks })

abbrev pub modify_subtask : Uuid → (DagSubtask → DagSubtask) → Exec Store (Unit {0})
modify_subtask id f = modify_state (λ s. record s { subtasks = modify id f s.subtasks })

abbrev pub modify_execution : Uuid → (ExecutionRecord → ExecutionRecord) → Exec Store (Unit {0})
modify_execution id f =
    modify_state (λ s. record s { execution_records = modify id f s.execution_records })

-- `a or b` for an optional value
abbrev pub or_value {ℓ} : {A : Type ℓ} → Option A → A → Option A
or_value none b = some b
or_value (some a) b = some a

-- What `ExecutionRevoker.revoke` of app/services/execution_revoker.py answers, or the text of an
-- exception.
pub data Answer : Type 0 where
  returned : Bool → Answer
  threw : String → Answer

-- `ExecutionRevoker.revoke`: `control_revoke` is Celery's `control.revoke`, which returns or throws.
unfoldable pub revoke : (String → Option String) → String → Answer
revoke control_revoke celery_task_id = elim (control_revoke celery_task_id) [
  | none ↦ returned true
  | some thrown ↦ returned false
]

-- `TaskService._revoke_execution`: success, and the error's text.
abbrev pub revoke_outcome : Answer → Bool × Option String
revoke_outcome (returned true) = (true, none)
revoke_outcome (returned false) = (false, some "Celery revoke returned false")
revoke_outcome (threw message) = (false, some message)

-- `RevokeEventRepository.create`
unfoldable pub create_revoke_event :
    ExecutionRecord → String → Bool × Option String → Datetime → Exec Store (Unit {0})
create_revoke_event r celery_task_id outcome requested_at = modify_state λ s. record s {
  next_uuid = suc s.next_uuid;
  revoke_events =
      s.revoke_events
      ++ record {
        id = s.next_uuid;
        task_id = r.task_id;
        execution_id = r.id;
        celery_task_id = celery_task_id;
        success = outcome.0;
        error_message = outcome.1;
        requested_at = requested_at;
      }
        ∷ [];
}

-- `ExecutionRepository.list_running_by_task_for_update`
unfoldable pub running_records : Uuid → List ExecutionRecord → List ExecutionRecord
unfolding where_
running_records id rows = where_ (λ r. eqb r.task_id id && r.status == ExecutionStatus.running) rows

abbrev pub cancel_record : Option String → Datetime → ExecutionRecord → ExecutionRecord
cancel_record reason canceled_at r = record r {
  status = ExecutionStatus.canceled;
  finished_at = some canceled_at;
  failure_reason = reason;
}

module _ (revoker : String → Answer) (reason : Option String) (canceled_at : Datetime) where
  abbrev revoke_event : ExecutionRecord → Option String → Exec Store (Unit {0})
  revoke_event r none = pure tt
  revoke_event r (some celery_task_id) =
      create_revoke_event r celery_task_id (revoke_outcome (revoker celery_task_id)) canceled_at

  -- The body of the loop of `_cancel_running_executions`.
  unfoldable pub cancel_execution : ExecutionRecord → Exec Store (Unit {0})
  unfolding ensure_transition_allowed create_revoke_event
  cancel_execution r = do
    ensure_transition_allowed (State.execution r.status) (State.execution ExecutionStatus.canceled)
    modify_execution r.id (cancel_record reason canceled_at)
    revoke_event r r.celery_task_id

  unfoldable pub cancel_running_executions : Uuid → Exec Store (Unit {0})
  unfolding running_records
  cancel_running_executions id = do
    records ← gets (λ s. running_records id s.execution_records)
    for_each records cancel_execution

abbrev pub is_terminal : SubtaskStatus → Bool
is_terminal status =
    status == SubtaskStatus.success
    || (status == SubtaskStatus.failed || status == SubtaskStatus.canceled)

abbrev pub cancel_subtask_row : Option String → Datetime → DagSubtask → DagSubtask
cancel_subtask_row reason canceled_at r = record r {
  status = SubtaskStatus.canceled;
  finished_at = some canceled_at;
  failure_reason = reason;
}

-- The body of the loop of `_cancel_non_terminal_subtasks`.
unfoldable pub cancel_subtask : Option String → Datetime → DagSubtask → Exec Store (Unit {0})
unfolding ensure_transition_allowed
cancel_subtask reason canceled_at r = when (not (is_terminal r.status)) do
  ensure_transition_allowed (State.subtask r.status) (State.subtask SubtaskStatus.canceled)
  modify_subtask r.id (cancel_subtask_row reason canceled_at)

unfoldable pub cancel_non_terminal_subtasks :
    Uuid → Option String → Datetime → Exec Store (Unit {0})
unfolding subtasks_of
cancel_non_terminal_subtasks id reason canceled_at = do
  rows ← gets (λ s. subtasks_of id s.subtasks)
  for_each rows (cancel_subtask reason canceled_at)

abbrev pub cancel_task_row : Option String → Datetime → DagTask → DagTask
cancel_task_row reason now t = record t {
  status = TaskStatus.canceled;
  failure_reason = reason;
  finished_at = or_value t.finished_at now;
}

unfoldable pub cancel_task :
    (revoker : String → Answer) (now : Datetime) (id : Uuid) (reason : Option String)
    → Exec Store DagTask
unfolding get_task transition_or_conflict
cancel_task revoker now id reason = do
  found ← get_task id
  transition_or_conflict task_state_conflict (State.task found.status)
      (State.task TaskStatus.canceled)
  modify_task id (cancel_task_row reason now)
  cancel_running_executions revoker reason now id
  cancel_non_terminal_subtasks id reason now
  get_task id
