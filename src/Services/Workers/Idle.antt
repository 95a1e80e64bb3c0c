-- ===== src/Services/Workers/Idle.antt =====
-- What `execute_subtask` of app/worker/tasks.py leaves behind, whatever comes of it.
use uav_dag_offload_platform.Common.{
  ◌≡◌, ◌≢◌, refl, false, none, some, List, [], ◌∷◌, ◌++◌, arith, eqb_iff, Option-cases, inl, inr,
}
use uav_dag_offload_platform.Common.Equality.{string_eq, beq_refl}
use uav_dag_offload_platform.Domain.Enums.{WorkerStatus, ExecutionStatus}
use uav_dag_offload_platform.Db.Models.{Uuid, WorkerHeartbeat}
use uav_dag_offload_platform.Db.Store.{Store, worker_heartbeat_key}
use uav_dag_offload_platform.Db.Table.{first, modify}
use uav_dag_offload_platform.Services.Execution.{ExecutionResult}
use uav_dag_offload_platform.Services.Execution.Results.{Reported, report_result-late}
use uav_dag_offload_platform.Services.Workers.{
  Heartbeat, get_by_name, heartbeat_row, new_heartbeat, upsert_heartbeat,
}
use uav_dag_offload_platform.Services.Workers.Execute.{
  Worker, WorkerSettings, Message, Surroundings, returned, report_worker_heartbeat, work,
  worker_report, waited, attempt, execute_subtask,
}

get_by_name-modify :
    (beat : Heartbeat) (rows : List WorkerHeartbeat) (r : WorkerHeartbeat)
    → get_by_name beat.worker_name rows ≡ some r
    → get_by_name beat.worker_name (modify r.id (heartbeat_row beat) rows)
      ≡ some (heartbeat_row beat r)
unfolding get_by_name first modify
get_by_name-modify beat [] r found = ground (arith, found)
get_by_name-modify beat (x ∷ rows) r found =
    ground (arith, found, eqb_iff x.id r.id, get_by_name-modify beat rows r)

get_by_name-append :
    (beat : Heartbeat) (id : Uuid) (rows : List WorkerHeartbeat)
    → get_by_name beat.worker_name rows ≡ none
    → get_by_name beat.worker_name (rows ++ new_heartbeat id beat ∷ [])
      ≡ some (new_heartbeat id beat)
unfolding get_by_name first
get_by_name-append beat id [] gone = ground (arith, beq_refl beat.worker_name)
get_by_name-append beat id (x ∷ rows) gone = ground (arith, gone, get_by_name-append beat id rows)

-- The row of this worker is that of the heartbeat.
pub record IsSeen (beat : Heartbeat) (s : Store) : Type 0 where
  pub row : WorkerHeartbeat
  pub found : get_by_name beat.worker_name s.worker_heartbeats ≡ some row
  pub status : row.status ≡ beat.status
  pub current : row.current_execution_id ≡ beat.current_execution_id
  pub last_seen_at : row.last_seen_at ≡ beat.last_seen_at

upsert_heartbeat-IsSeen : (beat : Heartbeat) (s : Store) → IsSeen beat (upsert_heartbeat beat s)
unfolding upsert_heartbeat
upsert_heartbeat-IsSeen beat s =
    elim (Option-cases (get_by_name beat.worker_name s.worker_heartbeats)) [
      | inl gone ↦ record {
        row = new_heartbeat s.next_uuid beat;
        found = ground (arith, gone, get_by_name-append beat s.next_uuid s.worker_heartbeats gone);
        status = refl;
        current = refl;
        last_seen_at = refl;
      }
      | inr (r, there) ↦ record {
        row = heartbeat_row beat r;
        found = ground (arith, there, get_by_name-modify beat s.worker_heartbeats r there);
        status = refl;
        current = refl;
        last_seen_at = refl;
      }
    ]

module _ (settings : WorkerSettings) (worker : Worker) (message : Message) (around : Surroundings)
    (s : Store) where
  -- The store as the worker begins, and as it reports.
  abbrev pub begun : Store
  begun =
      report_worker_heartbeat around.begin_fails worker WorkerStatus.busy
        (some message.execution_id) around.began_at s

  abbrev pub idle : Heartbeat
  idle = record {
    worker_name = worker.worker_name;
    hostname = worker.hostname;
    process_id = worker.process_id;
    status = WorkerStatus.online;
    current_execution_id = none;
    last_seen_at = around.ended_at;
  }

  -- However the execution of a message ends, by a result, an exception or a retry, the worker is
  -- seen as online afterwards, without a current execution, unless its last heartbeat fails.
  pub execute_subtask-IsSeen :
      around.end_fails ≡ false → IsSeen idle (execute_subtask settings worker message around s).1
  unfolding execute_subtask report_worker_heartbeat
  execute_subtask-IsSeen reaches =
      rw reaches (upsert_heartbeat-IsSeen idle (work settings worker message around begun).1)

  -- Where the report does not fail in the database, and the execution no longer runs as the worker
  -- reports its result (it was canceled, or is finished), the result is not accepted, and but for the
  -- worker's heartbeat, if that does not fail, the database stays as the others have left it.
  pub execute_subtask-late :
      (at : Reported
        (waited settings worker message around begun).1
        (worker_report settings message (waited settings worker message around begun).0))
      → around.failure ≡ none
      → at.execution.status ≢ ExecutionStatus.running
      → (b : ExecutionResult) × (execute_subtask settings worker message around s ≡ (
        returned b,
        report_worker_heartbeat around.end_fails worker WorkerStatus.online none around.ended_at
            (waited settings worker message around begun).1,
      ))
        × (b.accepted ≡ false)
  unfolding execute_subtask work attempt
  execute_subtask-late at sound over =
      let late =
        report_result-late around.reported_at (waited settings worker message around begun).1
          (worker_report settings message (waited settings worker message around begun).0) at
          over in
      (
        record {
          execution_id = at.execution.id;
          subtask_status = at.subtask.status;
          task_status = at.task.status;
          accepted = false;
        },
        ground (arith, sound, late),
        refl,
      )
