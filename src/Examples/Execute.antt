-- ===== src/Examples/Execute.antt =====
-- `execute_subtask` of app/worker/tasks.py on the small store: the execution is canceled three ticks into
-- the wait.
use uav_dag_offload_platform.Common.{
  ℕ, ◌≡◌, ◌≢◌, refl, arith, true, false, none, some, [], ◌∷◌, leb, if◌then◌else◌,
}
use uav_dag_offload_platform.Domain.Enums.{TaskStatus, SubtaskStatus, ExecutionStatus, WorkerStatus}
use uav_dag_offload_platform.Common.Int.{pos}
use uav_dag_offload_platform.Db.Models.{ExecutionRecord}
use uav_dag_offload_platform.Db.Table.{find}
use uav_dag_offload_platform.Db.Store.{
  Store, execution_record_key, subtask_key, task_key, worker_heartbeat_key,
}
use uav_dag_offload_platform.Services.Execution.{ExecutionResult}
use uav_dag_offload_platform.Services.Execution.Results.{Reported}
use uav_dag_offload_platform.Services.Workers.Execute.{
  Worker, WorkerSettings, Message, Surroundings, returned, report_worker_heartbeat, waited,
  worker_report, execute_subtask,
}
use uav_dag_offload_platform.Services.Workers.Idle.{
  IsSeen, idle, begun, execute_subtask-IsSeen, execute_subtask-late,
}
use uav_dag_offload_platform.Examples.Stores.{survey, step, run, in_flight}

abbrev worker : Worker
worker = record { worker_name = "celery@host"; hostname = "host"; process_id = some 42 }

abbrev settings : WorkerSettings
settings = record {
  retries = record {
    celery_execution_max_retries = pos 3;
    celery_execution_retry_backoff_seconds = pos 5;
    celery_execution_retry_backoff_max_seconds = pos 60;
  };
  simulated_execution_duration_ms = 100;
  simulated_execution_sleep = 10;
  worker_cancel_check_interval = 2;
}

abbrev message : Message
message = record {
  execution_id = 8;
  result_status = ExecutionStatus.success;
  duration_ms = none;
  output_summary = none;
  failure_reason = none;
  request_retries = 0;
  request_id = some "celery-1";
}

abbrev canceled_run : ExecutionRecord
canceled_run = record run { status = ExecutionStatus.canceled }

abbrev elapse : ℕ → Store → Store
elapse n s = if leb 3 n then record s { execution_records = canceled_run ∷ [] } else s

abbrev around : Surroundings
around = record {
  elapse = elapse;
  race = λ s. s;
  failure = none;
  begin_fails = false;
  alert_fails = true;
  end_fails = false;
  began_at = 20;
  reported_at = 30;
  alerted_at = 30;
  ended_at = 31;
}

abbrev before : Store
before = in_flight TaskStatus.running 1

execute_subtask-IsSeen_example :
    IsSeen
      (idle settings worker message around before)
      (execute_subtask settings worker message around before).1
execute_subtask-IsSeen_example = execute_subtask-IsSeen settings worker message around before refl

late_report :
    Reported
      (waited settings worker message around (begun settings worker message around before)).1
      (worker_report settings message
        (waited settings worker message around (begun settings worker message around before)).0)
unfolding waited find worker_report report_worker_heartbeat
late_report = record {
  execution = canceled_run;
  subtask = step 2 "capture" SubtaskStatus.running 1;
  task = survey TaskStatus.running;
  found_execution = refl;
  found_subtask = refl;
  found_task = refl;
}

over : canceled_run.status ≢ ExecutionStatus.running
over h = ground (arith, h)

execute_subtask-late_example :
    (b : ExecutionResult) × (execute_subtask settings worker message around before ≡ (
      returned b,
      report_worker_heartbeat false worker WorkerStatus.online none 31
          (waited settings worker message around (begun settings worker message around before)).1,
    ))
    × (b.accepted ≡ false)
unfolding late_report
execute_subtask-late_example =
    execute_subtask-late settings worker message around before late_report refl over
