-- ===== src/Services/Workers.antt =====
-- app/worker/tasks.py with worker_heartbeat_service.py, worker_alert_service.py and their repositories:
-- the retry policy of an execution's Celery task, the wait that a cancellation ends, and what a worker
-- reports.
pub mod Retry
pub mod Snapshot
pub mod Execute
pub mod Idle
use uav_dag_offload_platform.Common.{
  ℕ, zero, suc, ◌+◌, ◌-◌, ◌*◌, ◌^◌, ◌≡◌, refl, String, Bool, true, false, ◌&&◌, Option, none, some,
  List, [], ◌∷◌, ◌++◌, eqb, ltb, leb, length, if◌then◌else◌,
}
use uav_dag_offload_platform.Common.Equality.{◌==◌, string_eq}
use uav_dag_offload_platform.Common.Int.{ℤ, pos, ltb_ℤ, min_ℤ, scale_ℤ}
use uav_dag_offload_platform.Domain.Enums.{
  WorkerStatus, WorkerAlertType, AlertSeverity, ExecutionStatus, worker_alert_type_eq,
  alert_severity_eq, execution_status_eq,
}
use uav_dag_offload_platform.Db.Models.{
  Uuid, Datetime, WorkerHeartbeat, WorkerAlert, ExecutionRecord,
}
use uav_dag_offload_platform.Db.Table.{where_, first, find, modify, count_where}
use uav_dag_offload_platform.Db.Pages.{order_by, newest_first, page_of, is_or_any}
use uav_dag_offload_platform.Db.Store.{Store, worker_heartbeat_key, execution_record_key}
use uav_dag_offload_platform.Core.Errors.{Exec, modify_state}

-- An exception as the worker tells them apart.
pub data WorkerException : Type 0 where
  app_error operational_error timeout_error other : WorkerException
  -- A DBAPIError, with its `connection_invalidated`.
  dbapi_error : Bool → WorkerException

unfoldable pub is_retryable_worker_exception : WorkerException → Bool
is_retryable_worker_exception WorkerException.app_error = false
is_retryable_worker_exception WorkerException.operational_error = true
is_retryable_worker_exception WorkerException.timeout_error = true
is_retryable_worker_exception (WorkerException.dbapi_error invalidated) = invalidated
is_retryable_worker_exception WorkerException.other = false

-- min(base_seconds * (2**retry_count), max_seconds)
unfoldable pub calculate_retry_countdown : ℕ → ℤ → ℤ → ℤ
calculate_retry_countdown retry_count base_seconds max_seconds =
    min_ℤ (scale_ℤ base_seconds (2 ^ retry_count)) max_seconds

unfoldable pub has_worker_retry_budget : ℕ → ℤ → Bool
has_worker_retry_budget retry_count max_retries = ltb_ℤ (pos retry_count) max_retries

-- How `execute_subtask` leaves an exception: it is raised on, or retried after a countdown, or raised
-- with an alert that the retries are used up.
pub data Handling : Type 0 where
  reraise : Handling
  retry : ℤ → Handling
  alert_and_reraise : Handling

pub record RetrySettings : Type 0 where
  pub celery_execution_max_retries : ℤ
  pub celery_execution_retry_backoff_seconds : ℤ
  pub celery_execution_retry_backoff_max_seconds : ℤ

-- The `except` clause of `execute_subtask`.
unfoldable pub handle_exception : RetrySettings → ℕ → WorkerException → Handling
unfolding is_retryable_worker_exception has_worker_retry_budget calculate_retry_countdown
handle_exception settings retry_count exc =
    if is_retryable_worker_exception exc
    then (if has_worker_retry_budget retry_count settings.celery_execution_max_retries
        then retry (
            calculate_retry_countdown retry_count settings.celery_execution_retry_backoff_seconds
              settings.celery_execution_retry_backoff_max_seconds)
        else alert_and_reraise)
    else reraise

-- `is_execution_canceled`
unfoldable pub is_execution_canceled : Uuid → List ExecutionRecord → Bool
unfolding find
is_execution_canceled id rows = elim (find id rows) [
  | none ↦ false
  | some r ↦ r.status == ExecutionStatus.canceled
]

-- `sleep_with_cancel_checks`, in ticks of time: `canceled n` is what the check finds after n ticks of
-- sleep. One round of the loop ends with less time remaining, so that fuel of the whole time is enough.
-- It returns the answer and the time slept. The source counts float seconds: rounding is left out.
module _ (canceled : ℕ → Bool) where
  unfoldable pub sleep_rounds : (fuel interval remaining slept : ℕ) → Bool × ℕ
  sleep_rounds zero interval remaining slept = (canceled slept, slept)
  sleep_rounds (suc fuel) interval remaining slept =
      let step = if ltb remaining interval then remaining else interval in
      let rest = sleep_rounds fuel interval (remaining - step) (slept + step) in
      if eqb remaining 0
      then (canceled slept, slept)
      else if canceled slept
      then (true, slept)
      else rest

  unfoldable pub sleep_with_cancel_checks : (total check_interval : ℕ) → Bool × ℕ
  unfolding sleep_rounds
  sleep_with_cancel_checks total check_interval =
      sleep_rounds total (if eqb check_interval 0 then total else check_interval) total 0

-- The status and the reason that `execute_subtask` reports.
unfoldable pub final_status : Bool → ExecutionStatus → ExecutionStatus
final_status execution_canceled result_status =
    if execution_canceled then ExecutionStatus.canceled else result_status

unfoldable pub effective_failure_reason : Bool → Option String → Option String
effective_failure_reason execution_canceled (some reason) = some reason
effective_failure_reason execution_canceled none =
    if execution_canceled then some "execution canceled before worker completion" else none

-- `report_heartbeat` with `WorkerRepository.upsert_heartbeat`
pub record Heartbeat : Type 0 where
  pub worker_name : String
  pub hostname : String
  pub process_id : Option ℕ
  pub status : WorkerStatus
  pub current_execution_id : Option Uuid
  pub last_seen_at : Datetime

unfoldable pub get_by_name : String → List WorkerHeartbeat → Option WorkerHeartbeat
unfolding first
get_by_name name rows = first (λ r. r.worker_name == name) rows

abbrev pub heartbeat_row : Heartbeat → WorkerHeartbeat → WorkerHeartbeat
heartbeat_row beat r = record r {
  hostname = beat.hostname;
  process_id = beat.process_id;
  status = beat.status;
  current_execution_id = beat.current_execution_id;
  last_seen_at = beat.last_seen_at;
}

abbrev pub new_heartbeat : Uuid → Heartbeat → WorkerHeartbeat
new_heartbeat id beat = record {
  id = id;
  worker_name = beat.worker_name;
  hostname = beat.hostname;
  process_id = beat.process_id;
  status = beat.status;
  current_execution_id = beat.current_execution_id;
  last_seen_at = beat.last_seen_at;
}

unfoldable pub upsert_heartbeat : Heartbeat → Store → Store
unfolding get_by_name modify
upsert_heartbeat beat s = elim (get_by_name beat.worker_name s.worker_heartbeats) [
  | some r ↦ record s { worker_heartbeats = modify r.id (heartbeat_row beat) s.worker_heartbeats }
  | none ↦ record s {
    next_uuid = suc s.next_uuid;
    worker_heartbeats = s.worker_heartbeats ++ new_heartbeat s.next_uuid beat ∷ [];
  }
]

unfoldable pub count_seen_since : Datetime → List WorkerHeartbeat → ℕ
unfolding count_where
count_seen_since cutoff rows = count_where (λ r. leb cutoff r.last_seen_at) rows

-- `WorkerAlertService.report_retry_exhausted`; the details are only stored, and left out.
unfoldable pub report_retry_exhausted : Datetime → Uuid → String → Option String → Store → Store
report_retry_exhausted now execution_id worker_name celery_task_id s = record s {
  next_uuid = suc s.next_uuid;
  worker_alerts =
      s.worker_alerts
      ++ record {
        id = s.next_uuid;
        alert_type = WorkerAlertType.celery_retry_exhausted;
        severity = AlertSeverity.error;
        worker_name = some worker_name;
        execution_id = some execution_id;
        celery_task_id = celery_task_id;
        message = "Celery execution retry budget exhausted";
        created_at = now;
      }
        ∷ [];
}

unfoldable pub list_alerts :
    Option WorkerAlertType
    → Option AlertSeverity
    → (page page_size : ℕ) → Store
    → List WorkerAlert × ℕ
unfolding where_ order_by page_of
list_alerts alert_type severity page page_size s =
    let rows =
      where_ (λ r. is_or_any alert_type r.alert_type && is_or_any severity r.severity)
        s.worker_alerts in
    (page_of page page_size (newest_first (λ r. r.created_at) rows), length rows)
