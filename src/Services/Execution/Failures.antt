-- ===== src/Services/Execution/Failures.antt =====
-- What a report of a failure, a timeout or a cancellation leaves: `report_result` of
-- app/services/execution_service.py.
use uav_dag_offload_platform.Common.{
  ◌+◌, ◌≡◌, refl, inl, inr, Bool, true, false, not, ◌&&◌, none, some, arith, eqb, eqb_iff, ltb,
  Bool-cases, if◌then◌else◌,
}
use uav_dag_offload_platform.Common.Equality.{◌==◌}
use uav_dag_offload_platform.Domain.Enums.{
  TaskStatus, SubtaskStatus, ExecutionStatus, task_status_eq, subtask_status_eq,
  execution_status_eq,
}
use uav_dag_offload_platform.Db.Models.{Uuid, Datetime, DagTask, DagSubtask, ExecutionRecord}
use uav_dag_offload_platform.Db.Table.{find, find-key, find-modify, modify}
use uav_dag_offload_platform.Db.Store.{Store, task_key, subtask_key, execution_record_key}
use uav_dag_offload_platform.Core.Errors.{Result, ok}
use uav_dag_offload_platform.Services.Execution.{
  Report, ExecutionResult, report_result, finish_row, retry_row, fail_row, fail_task_row,
  is_failure, can_retry_subtask,
}
use uav_dag_offload_platform.Services.Execution.Results.{
  Reported, report_result-retry, report_result-failure,
}

module _ (now : Datetime) (s : Store) (report : Report) (at : Reported s report) where
  -- A subtask is tried again after a failure or a timeout, as often as it allows.
  abbrev pub is_retried : Bool
  is_retried =
      not (report.status == ExecutionStatus.canceled)
      && ltb at.subtask.retry_count at.subtask.max_retries

  -- The execution, its subtask and its task afterwards.
  abbrev pub ended_execution : ExecutionRecord
  ended_execution = record at.execution {
    status = report.status;
    finished_at = some now;
    duration_ms = report.duration_ms;
    output_summary = report.output_summary;
    failure_reason = report.failure_reason;
  }

  abbrev pub retried_subtask : DagSubtask
  retried_subtask = record at.subtask {
    status = SubtaskStatus.ready;
    retry_count = at.subtask.retry_count + 1;
    started_at = none;
    finished_at = none;
    failure_reason = report.failure_reason;
  }

  abbrev pub failed_subtask : DagSubtask
  failed_subtask = record at.subtask {
    status = SubtaskStatus.failed;
    finished_at = some now;
    failure_reason = report.failure_reason;
  }

  abbrev pub failed_task : DagTask
  failed_task = record at.task {
    status = TaskStatus.failed;
    failure_reason = report.failure_reason;
    finished_at = some now;
  }

  -- The answer, and every row of the three tables afterwards.
  pub record IsFailure (outcome : Result ExecutionResult × Store) : Type 0 where
    pub answer :
        outcome.0
        ≡ ok (record {
          execution_id = at.execution.id;
          subtask_status = if is_retried then SubtaskStatus.ready else SubtaskStatus.failed;
          task_status = if is_retried then TaskStatus.running else TaskStatus.failed;
          accepted = true;
        })
    pub executions :
        (j : Uuid)
        → find j outcome.1.execution_records
          ≡ (if eqb at.execution.id j then some ended_execution else find j s.execution_records)
    pub subtasks :
        (j : Uuid)
        → find j outcome.1.subtasks ≡ (
            if eqb at.subtask.id j
            then some (if is_retried then retried_subtask else failed_subtask)
            else find j s.subtasks)
    pub tasks :
        (j : Uuid)
        → find j outcome.1.tasks
          ≡ (if not is_retried && eqb at.task.id j then some failed_task else find j s.tasks)

  find-execution :
      (j : Uuid)
      → find j (modify at.execution.id (finish_row now report) s.execution_records)
        ≡ (if eqb at.execution.id j then some ended_execution else find j s.execution_records)
  find-execution j = ground (
    arith,
    at.found_execution,
    find-key report.execution_id s.execution_records at.execution at.found_execution,
    find-modify at.execution.id j (finish_row now report) s.execution_records (λ r. refl),
    eqb_iff at.execution.id j,
  )

  find-subtask :
      (f : DagSubtask → DagSubtask) (j : Uuid)
      → ((r : DagSubtask) → (f r).id ≡ r.id)
      → find j (modify at.subtask.id f s.subtasks)
        ≡ (if eqb at.subtask.id j then some (f at.subtask) else find j s.subtasks)
  find-subtask f j same = ground (
    arith,
    at.found_subtask,
    find-key at.execution.subtask_id s.subtasks at.subtask at.found_subtask,
    find-modify at.subtask.id j f s.subtasks same,
    eqb_iff at.subtask.id j,
  )

  find-task :
      (j : Uuid)
      → find j (modify at.task.id (fail_task_row now report.failure_reason) s.tasks)
        ≡ (if eqb at.task.id j then some failed_task else find j s.tasks)
  find-task j = ground (
    arith,
    at.found_task,
    find-key at.execution.task_id s.tasks at.task at.found_task,
    find-modify at.task.id j (fail_task_row now report.failure_reason) s.tasks (λ r. refl),
    eqb_iff at.task.id j,
  )

  module _ (running : at.execution.status ≡ ExecutionStatus.running)
      (subtask_running : at.subtask.status ≡ SubtaskStatus.running)
      (task_running : at.task.status ≡ TaskStatus.running)
      (fails : is_failure report.status ≡ true) where
    retried-IsFailure : is_retried ≡ true → IsFailure (report_result now report s)
    retried-IsFailure again =
        rw
          (report_result-retry now s report at running subtask_running (ground arith)
            (ground arith))
          (record {
            answer = ground (arith, again, task_running);
            executions = find-execution;
            subtasks = λ j. rw again (find-subtask (retry_row report.failure_reason) j (λ r. refl));
            tasks = λ j. rw again refl;
          })

    failed-IsFailure : is_retried ≡ false → IsFailure (report_result now report s)
    failed-IsFailure spent =
        rw
          (report_result-failure now s report at running subtask_running fails
            (unfold can_retry_subtask in ground arith) task_running)
          (record {
            answer = ground (arith, spent);
            executions = find-execution;
            subtasks =
                λ j. rw spent (find-subtask (fail_row now report.failure_reason) j (λ r. refl));
            tasks = λ j. rw spent (find-task j);
          })

    -- A failure, a timeout or a cancellation of a running execution, whose subtask and task are
    -- running, ends the execution with what was reported. After a failure or a timeout, while the
    -- subtask has retries left, the subtask is ready again, with one retry more and no times, and the
    -- task stays as it is; otherwise the subtask and the task have failed, now and for the reason
    -- reported. No other row of the three tables changes, and the answer has the new statuses.
    pub report_result-IsFailure : IsFailure (report_result now report s)
    report_result-IsFailure = elim (Bool-cases is_retried) [
      | inl again ↦ retried-IsFailure again
      | inr spent ↦ failed-IsFailure spent
    ]
