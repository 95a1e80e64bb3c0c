-- ===== src/Services/Workers/Execute.antt =====
-- `execute_subtask` of app/worker/tasks.py as a whole. Its sessions are committed one by one, so that the
-- store is the database; what other processes do meanwhile, and whether the database fails, are parameters.
use uav_dag_offload_platform.Common.{ℕ, String, Bool, Option, none, some, if◌then◌else◌}
use uav_dag_offload_platform.Core.Errors.{Result, ok, raised, Exception}
use uav_dag_offload_platform.Domain.Enums.{WorkerStatus, ExecutionStatus}
use uav_dag_offload_platform.Db.Models.{Uuid, Datetime}
use uav_dag_offload_platform.Db.Store.{Store}
use uav_dag_offload_platform.Services.Execution.{ExecutionResult, Report, report_result}
use uav_dag_offload_platform.Services.Workers.{
  WorkerException, Handling, reraise, retry, alert_and_reraise, RetrySettings, handle_exception,
  is_execution_canceled, sleep_with_cancel_checks, final_status, effective_failure_reason,
  upsert_heartbeat, report_retry_exhausted,
}

-- The names that the process has: `resolve_worker_name`, `gethostname` and `getpid`.
pub record Worker : Type 0 where
  pub worker_name : String
  pub hostname : String
  pub process_id : Option ℕ

-- The times are in ticks.
pub record WorkerSettings : Type 0 where
  pub retries : RetrySettings
  pub simulated_execution_duration_ms : ℕ
  pub simulated_execution_sleep : ℕ
  pub worker_cancel_check_interval : ℕ

-- The message: the arguments of the task and of its `request`.
pub record Message : Type 0 where
  pub execution_id : Uuid
  pub result_status : ExecutionStatus
  pub duration_ms : Option ℕ
  pub output_summary : Option String
  pub failure_reason : Option String
  pub request_retries : ℕ
  pub request_id : Option String

-- `elapse n`: what the others have done to the database n ticks into the wait; `race`: and between the
-- last check and the report. `failure`: the exception that the report meets in the database, if any.
-- The last three: whether the first heartbeat, the alert and the last heartbeat fail, which the program
-- passes over after a rollback.
pub record Surroundings : Type 0 where
  pub elapse : ℕ → Store → Store
  pub race : Store → Store
  pub failure : Option WorkerException
  pub begin_fails : Bool
  pub alert_fails : Bool
  pub end_fails : Bool
  pub began_at : Datetime
  pub reported_at : Datetime
  pub alerted_at : Datetime
  pub ended_at : Datetime

pub data Outcome : Type 0 where
  returned : ExecutionResult → Outcome
  handled : Handling → Outcome

-- The first argument: whether the database fails. A heartbeat that fails is rolled back and passed over.
unfoldable pub report_worker_heartbeat :
    Bool → Worker → WorkerStatus → Option Uuid → Datetime → Store → Store
unfolding upsert_heartbeat
report_worker_heartbeat fails worker status current_execution_id seen_at s =
    if fails
    then s
    else upsert_heartbeat
        (record {
          worker_name = worker.worker_name;
          hostname = worker.hostname;
          process_id = worker.process_id;
          status = status;
          current_execution_id = current_execution_id;
          last_seen_at = seen_at;
        })
        s

-- An alert that fails is rolled back and passed over, too.
unfoldable pub report_retry_exhausted_alert :
    Bool → Datetime → Uuid → String → Option String → Store → Store
unfolding report_retry_exhausted
report_retry_exhausted_alert fails now execution_id worker_name celery_task_id s =
    if fails then s else report_retry_exhausted now execution_id worker_name celery_task_id s

abbrev value_or : {A : Type 0} → Option A → A → A
value_or none x = x
value_or (some a) x = a

unfoldable pub worker_report : WorkerSettings → Message → Bool → Report
unfolding final_status effective_failure_reason
worker_report settings message execution_canceled = record {
  execution_id = message.execution_id;
  status = final_status execution_canceled message.result_status;
  duration_ms = some (value_or message.duration_ms settings.simulated_execution_duration_ms);
  output_summary =
      some (value_or message.output_summary "simulated execution completed by celery worker");
  failure_reason = effective_failure_reason execution_canceled message.failure_reason;
}

-- An exception of the service as the worker tells it apart.
abbrev classify : Exception → WorkerException
classify (Exception.app_error e) = WorkerException.app_error
classify _ = WorkerException.other

module _ (settings : WorkerSettings) (worker : Worker) (message : Message)
    (around : Surroundings) where
  -- The `except` clause, after the rollback.
  unfoldable pub settle : WorkerException → Store → Outcome × Store
  unfolding handle_exception report_retry_exhausted_alert
  settle exc s = elim (handle_exception settings.retries message.request_retries exc) [
    | reraise ↦ (handled reraise, s)
    | retry countdown ↦ (handled (retry countdown), s)
    | alert_and_reraise ↦ (
      handled alert_and_reraise,
      report_retry_exhausted_alert around.alert_fails around.alerted_at message.execution_id
          worker.worker_name message.request_id s,
    )
  ]

  abbrev answered : Store → Result ExecutionResult × Store → Outcome × Store
  answered before (ok result, s) = (returned result, s)
  answered before (raised e, s) = settle (classify e) before

  -- The report, committed or rolled back.
  unfoldable pub attempt : Bool → Store → Outcome × Store
  unfolding settle report_result worker_report
  attempt execution_canceled s = elim around.failure [
    | some exc ↦ settle exc s
    | none ↦
        answered s
          (report_result around.reported_at (worker_report settings message execution_canceled) s)
  ]

  -- The wait, and the store in which the report is made.
  unfoldable pub waited : Store → Bool × Store
  unfolding sleep_with_cancel_checks is_execution_canceled
  waited s =
      let (execution_canceled, slept) =
        sleep_with_cancel_checks
          (λ n. is_execution_canceled message.execution_id (around.elapse n s).execution_records)
          settings.simulated_execution_sleep settings.worker_cancel_check_interval in
      (execution_canceled, around.race (around.elapse slept s))

  -- try: ... except: ... of the task.
  unfoldable pub work : Store → Outcome × Store
  unfolding waited attempt
  work s = let (execution_canceled, after) = waited s in attempt execution_canceled after

  unfoldable pub execute_subtask : Store → Outcome × Store
  unfolding work report_worker_heartbeat
  execute_subtask s =
      let (outcome, after) = work (
        report_worker_heartbeat around.begin_fails worker WorkerStatus.busy
          (some message.execution_id) around.began_at s) in
      (
        outcome,
        report_worker_heartbeat around.end_fails worker WorkerStatus.online none around.ended_at
            after,
      )
