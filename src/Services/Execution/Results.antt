-- ===== src/Services/Execution/Results.antt =====
-- The branches of `report_result` of app/services/execution_service.py.
use uav_dag_offload_platform.Common.{◌<◌, ◌≡◌, ◌≢◌, refl, ◌⊎◌, true, false, some, List, arith}
use uav_dag_offload_platform.Domain.Enums.{
  TaskStatus, SubtaskStatus, ExecutionStatus, task_status_eq, subtask_status_eq,
  execution_status_eq,
}
use uav_dag_offload_platform.Domain.StateMachine.Tables.{
  can_transition-task, can_transition-subtask, can_transition-execution,
}
use uav_dag_offload_platform.Db.Models.{Datetime, DagTask, DagSubtask, ExecutionRecord}
use uav_dag_offload_platform.Db.Table.{find, find-key, find-modify, modify}
use uav_dag_offload_platform.Db.Store.{Store, task_key, subtask_key, execution_record_key}
use uav_dag_offload_platform.Core.Errors.{
  ok, raised, app_error, task_state_conflict, execution_state_conflict, committed,
}
use uav_dag_offload_platform.Services.Execution.{
  Report, report_result, finish_row, retry_row, fail_row, fail_task_row, is_failure,
  can_retry_subtask,
}

-- A store in which the reported execution exists, with its subtask and its task, as the foreign keys
-- see to.
pub record Reported (s : Store) (report : Report) : Type 0 where
  pub execution : ExecutionRecord
  pub subtask : DagSubtask
  pub task : DagTask
  pub found_execution : find report.execution_id s.execution_records ≡ some execution
  pub found_subtask : find execution.subtask_id s.subtasks ≡ some subtask
  pub found_task : find execution.task_id s.tasks ≡ some task

module _ (now : Datetime) (s : Store) (report : Report) (at : Reported s report) where
  -- A report of an execution that is found with its subtask and task and no longer runs is answered
  -- with the statuses as they are, is not accepted and changes nothing.
  pub report_result-late :
      at.execution.status ≢ ExecutionStatus.running
      → report_result now report s ≡ (
        ok (record {
          execution_id = at.execution.id;
          subtask_status = at.subtask.status;
          task_status = at.task.status;
          accepted = false;
        }),
        s,
      )
  unfolding report_result
  report_result-late h = ground (arith, at.found_execution, at.found_subtask, at.found_task)

  -- A running execution cannot be reported as running.
  pub report_result-running :
      at.execution.status ≡ ExecutionStatus.running
      → report.status ≡ ExecutionStatus.running
      → report_result now report s
        ≡ (raised (app_error (record { code = execution_state_conflict; status_code = 409 })), s)
  unfolding report_result
  report_result-running h k = ground (
    arith,
    at.found_execution,
    can_transition-execution ExecutionStatus.running ExecutionStatus.running,
  )

  module _ (running : at.execution.status ≡ ExecutionStatus.running)
      (subtask_running : at.subtask.status ≡ SubtaskStatus.running) where
    abbrev finished : List ExecutionRecord
    finished = modify at.execution.id (finish_row now report) s.execution_records

    -- A failure or a timeout of a running execution, while its running subtask has retries left, ends
    -- the execution, makes the subtask ready again and counts the retry; the task is left as it is.
    pub report_result-retry :
        (report.status ≡ ExecutionStatus.failed) ⊎ (report.status ≡ ExecutionStatus.timeout)
        → at.subtask.retry_count < at.subtask.max_retries
        → report_result now report s ≡ (
          ok (record {
            execution_id = at.execution.id;
            subtask_status = SubtaskStatus.ready;
            task_status = at.task.status;
            accepted = true;
          }),
          record s {
            execution_records = finished;
            subtasks = modify at.subtask.id (retry_row report.failure_reason) s.subtasks;
          },
        )
    unfolding report_result
    report_result-retry h room = ground (
      arith,
      at.found_execution,
      at.found_subtask,
      at.found_task,
      find-key at.execution.subtask_id s.subtasks at.subtask at.found_subtask,
      find-modify at.subtask.id at.execution.subtask_id (retry_row report.failure_reason) s.subtasks
          (λ r. refl),
      can_transition-execution ExecutionStatus.running report.status,
      can_transition-subtask SubtaskStatus.running SubtaskStatus.failed,
      can_transition-subtask SubtaskStatus.failed SubtaskStatus.retrying,
      can_transition-subtask SubtaskStatus.retrying SubtaskStatus.ready,
    )

    abbrev lost : Store
    lost = record s {
      execution_records = finished;
      subtasks = modify at.subtask.id (fail_row now report.failure_reason) s.subtasks;
    }

    -- A failure, timeout or cancellation of a running execution that its running subtask may not
    -- retry fails the subtask and the running task.
    pub report_result-failure :
        is_failure report.status ≡ true
        → can_retry_subtask report.status at.subtask.retry_count at.subtask.max_retries ≡ false
        → at.task.status ≡ TaskStatus.running
        → report_result now report s ≡ (
          ok (record {
            execution_id = at.execution.id;
            subtask_status = SubtaskStatus.failed;
            task_status = TaskStatus.failed;
            accepted = true;
          }),
          record lost {
            tasks = modify at.task.id (fail_task_row now report.failure_reason) s.tasks;
          },
        )
    unfolding report_result
    report_result-failure h spent task_running = ground (
      arith,
      at.found_execution,
      at.found_subtask,
      at.found_task,
      find-key at.execution.subtask_id s.subtasks at.subtask at.found_subtask,
      find-key at.execution.task_id s.tasks at.task at.found_task,
      find-modify at.subtask.id at.execution.subtask_id (fail_row now report.failure_reason)
          s.subtasks (λ r. refl),
      find-modify at.task.id at.execution.task_id (fail_task_row now report.failure_reason) s.tasks
          (λ r. refl),
      can_transition-execution ExecutionStatus.running report.status,
      can_transition-subtask SubtaskStatus.running SubtaskStatus.failed,
      can_transition-task TaskStatus.running TaskStatus.failed,
    )

    -- Where the task is no longer RUNNING, the failure of a running execution that its running
    -- subtask may not retry is answered with a conflict, and the database stays as it was: the
    -- execution and its subtask are left RUNNING.
    pub report_result-conflict :
        is_failure report.status ≡ true
        → can_retry_subtask report.status at.subtask.retry_count at.subtask.max_retries ≡ false
        → at.task.status ≢ TaskStatus.running
        → ((report_result now report s).0
            ≡ raised (app_error (record { code = task_state_conflict; status_code = 409 })))
          × (committed (report_result now report) s ≡ s)
    unfolding report_result committed
    report_result-conflict h spent stopped = ground (
      arith,
      at.found_execution,
      at.found_subtask,
      at.found_task,
      can_transition-execution ExecutionStatus.running report.status,
      can_transition-subtask SubtaskStatus.running SubtaskStatus.failed,
      can_transition-task at.task.status TaskStatus.failed,
    )
