-- ===== src/Examples/Execution.antt =====
-- app/services/execution_service.py on the small store.
use uav_dag_offload_platform.Common.{
  ℕ, ◌≡◌, refl, true, false, none, some, [], ◌∷◌, arith, length, if◌then◌else◌,
}
use uav_dag_offload_platform.Common.Equality.{nat_eq}
use uav_dag_offload_platform.Domain.Enums.{TaskStatus, SubtaskStatus, ExecutionStatus}
use uav_dag_offload_platform.Domain.StateMachine.{can_transition}
use uav_dag_offload_platform.Db.Models.{Uuid, DagSubtask}
use uav_dag_offload_platform.Db.Table.{find, modify, where_, all_rows}
use uav_dag_offload_platform.Db.Store.{Store, task_key, subtask_key, execution_record_key}
use uav_dag_offload_platform.Core.Errors.{ok, raised, app_error, task_state_conflict, committed}
use uav_dag_offload_platform.Services.Unlock.{Rows, subtasks_of, predecessors_of, unlock_successors}
use uav_dag_offload_platform.Services.Unlock.Laws.{
  IsClosed, row_of, status_in, unlocked, is_free, unlock_successors_lem, IsHome,
}
use uav_dag_offload_platform.Services.Execution.{
  ExecutionResult, ExecutionStartResult, finish_row, retry_row, succeed_task_row,
  all_subtasks_success, report_result, start_item, start_execution, dependencies_of, items_of,
  can_retry_subtask,
}
use uav_dag_offload_platform.Services.Execution.Results.{Reported, report_result-conflict}
use uav_dag_offload_platform.Services.Execution.Once.{report_result-once}
use uav_dag_offload_platform.Services.Execution.Failures.{IsFailure, report_result-IsFailure}
use uav_dag_offload_platform.Services.Execution.Start.{IsStarted, start_execution-starts}
use uav_dag_offload_platform.Services.Order.{IsInOrder, assign}
use uav_dag_offload_platform.Services.Order.Reports.{report_result-success}
use uav_dag_offload_platform.Services.Order.Kept.{report_result-IsInOrder}
use uav_dag_offload_platform.Examples.Stores.{
  survey, step, order, item, run, planned, in_flight, report,
}

program : Unit {0}
unfolding report_result find start_execution start_item unlock_successors can_transition where_
    modify
program = tt

abbrev capture : ℕ → DagSubtask
capture n = step 2 "capture" SubtaskStatus.running n

reported :
    (status : TaskStatus) (n : ℕ) (s : ExecutionStatus) → Reported (in_flight status n) (report s)
unfolding find
reported status n s = record {
  execution = run;
  subtask = capture n;
  task = survey status;
  found_execution = refl;
  found_subtask = refl;
  found_task = refl;
}

-- The success of the first subtask makes the second one ready.
success_unlocks :
    (find 3
      (report_result 20
        (report ExecutionStatus.success)
        (in_flight TaskStatus.running 0)).1.subtasks)
    ≡ some (step 3 "detect" SubtaskStatus.ready 0)
unfolding program
success_unlocks = refl

closed : (status : TaskStatus) (n : ℕ) → IsClosed 1 (in_flight status n).subtasks (order ∷ [])
unfolding row_of find subtasks_of where_
closed status n = (((capture n, refl), (step 3 "detect" SubtaskStatus.waiting 0, refl)), tt)

IsClosed-in :
    (status : TaskStatus) (n : ℕ)
    → IsClosed 1 (in_flight status n).subtasks (dependencies_of 1 (in_flight status n).dependencies)
unfolding dependencies_of where_
IsClosed-in status n = closed status n

abbrev completed_rows : Rows
completed_rows =
    step 2 "capture" SubtaskStatus.success 0 ∷ step 3 "detect" SubtaskStatus.waiting 0 ∷ []

completed-IsClosed : IsClosed 1 completed_rows (order ∷ [])
unfolding row_of find subtasks_of where_
completed-IsClosed = (
  (
    (step 2 "capture" SubtaskStatus.success 0, refl),
    (step 3 "detect" SubtaskStatus.waiting 0, refl),
  ),
  tt,
)

unlock_successors_lem_example :
    (rows' : Rows) × (unlock_successors 1 (order ∷ []) 2 completed_rows ≡ (ok tt, rows'))
    × ((v : Uuid)
        → status_in 1 rows' v ≡ unlocked (order ∷ []) (order ∷ []) 2 (status_in 1 completed_rows) v)
    × ((v : Uuid) → IsHome 1 completed_rows v → IsHome 1 rows' v)
unlock_successors_lem_example =
    unlock_successors_lem 1 (order ∷ []) 2 completed_rows completed-IsClosed

in_order :
    IsInOrder
      (dependencies_of 1 (in_flight TaskStatus.running 1).dependencies)
      (status_in 1 (in_flight TaskStatus.running 1).subtasks)
unfolding dependencies_of where_ row_of find subtasks_of is_free all_rows predecessors_of
in_order = record { started = λ v h. ground arith; waiting = λ v h. ground arith }

report_result-IsInOrder_example :
    IsInOrder (dependencies_of 1 (in_flight TaskStatus.running 1).dependencies) (
      status_in 1
        (report_result 20
          (report ExecutionStatus.timeout)
          (in_flight TaskStatus.running 1)).1.subtasks)
unfolding reported
report_result-IsInOrder_example =
    report_result-IsInOrder 20 (in_flight TaskStatus.running 1) (report ExecutionStatus.timeout)
      (reported TaskStatus.running 1 ExecutionStatus.timeout) refl refl refl refl
      (IsClosed-in TaskStatus.running 1) in_order

report_result-success_example :
    (rows' : Rows) × (report_result 20
        (report ExecutionStatus.success)
        (in_flight TaskStatus.running 0)
      ≡ (
        ok (record {
          execution_id = 8;
          subtask_status = SubtaskStatus.success;
          task_status =
              if all_subtasks_success 1 rows' then TaskStatus.success else TaskStatus.running;
          accepted = true;
        }),
        record (in_flight TaskStatus.running 0) {
          execution_records = modify 8 (finish_row 20 (report ExecutionStatus.success)) (run ∷ []);
          subtasks = rows';
          tasks =
              if all_subtasks_success 1 rows'
              then modify 1 (succeed_task_row 20) (survey TaskStatus.running ∷ [])
              else survey TaskStatus.running ∷ [];
        },
      ))
    × ((v : Uuid)
        → status_in 1 rows' v
          ≡ unlocked
              (dependencies_of 1 (order ∷ []))
              (dependencies_of 1 (order ∷ []))
              2
              (assign 2 SubtaskStatus.success
                (status_in 1 (in_flight TaskStatus.running 0).subtasks))
              v)
unfolding reported
report_result-success_example =
    report_result-success 20 (in_flight TaskStatus.running 0) (report ExecutionStatus.success)
      (reported TaskStatus.running 0 ExecutionStatus.success) refl refl refl refl
      (IsClosed-in TaskStatus.running 0) refl

report_result-IsFailure_example :
    IsFailure 20
      (in_flight TaskStatus.running 1)
      (report ExecutionStatus.failed)
      (reported TaskStatus.running 1 ExecutionStatus.failed)
      (report_result 20 (report ExecutionStatus.failed) (in_flight TaskStatus.running 1))
unfolding reported
report_result-IsFailure_example =
    report_result-IsFailure 20 (in_flight TaskStatus.running 1) (report ExecutionStatus.failed)
      (reported TaskStatus.running 1 ExecutionStatus.failed) refl refl refl refl

report_result-conflict_example :
    ((report_result 20 (report ExecutionStatus.failed) (in_flight TaskStatus.failed 0)).0
      ≡ raised (app_error (record { code = task_state_conflict; status_code = 409 })))
    × (committed (report_result 20 (report ExecutionStatus.failed)) (in_flight TaskStatus.failed 0)
        ≡ in_flight TaskStatus.failed 0)
unfolding can_retry_subtask reported
report_result-conflict_example =
    report_result-conflict 20 (in_flight TaskStatus.failed 0) (report ExecutionStatus.failed)
      (reported TaskStatus.failed 0 ExecutionStatus.failed) refl refl refl refl (λ p. ground arith)

abbrev accepted_retry : ExecutionResult
accepted_retry = record {
  execution_id = 8;
  subtask_status = SubtaskStatus.ready;
  task_status = TaskStatus.running;
  accepted = true;
}

abbrev retried : Store
retried = record (in_flight TaskStatus.running 1) {
  execution_records = modify 8 (finish_row 20 (report ExecutionStatus.failed)) (run ∷ []);
  subtasks = modify 2 (retry_row none) (in_flight TaskStatus.running 1).subtasks;
}

report_result-retry_run :
    report_result 20 (report ExecutionStatus.failed) (in_flight TaskStatus.running 1)
    ≡ (ok accepted_retry, retried)
unfolding program
report_result-retry_run = refl

report_result-once_example :
    ((report_result 30 (report ExecutionStatus.success) retried).1 ≡ retried)
    × ((b : ExecutionResult)
        → (report_result 30 (report ExecutionStatus.success) retried).0 ≡ ok b
        → b.accepted ≡ false)
report_result-once_example =
    report_result-once 20 30 (report ExecutionStatus.failed) (report ExecutionStatus.success)
      (in_flight TaskStatus.running 1) retried accepted_retry report_result-retry_run refl refl

unfoldable pub start_result : ExecutionStartResult × Store
start_result = (
  record {
    task_id = 1;
    schedule_plan_id = 5;
    status = TaskStatus.running;
    execution_count = 1;
    execution_ids = 8 ∷ [];
  },
  (start_execution 20 1 5 planned).1,
)

pub start_runs : start_execution 20 1 5 planned ≡ (ok start_result.0, start_result.1)
unfolding program start_result
start_runs = refl

start_execution-starts_example :
    IsStarted 1 20 planned start_result.1 (items_of 5 (item ∷ []))
    × (start_result.0.execution_count ≡ length (items_of 5 (item ∷ [])))
start_execution-starts_example =
    start_execution-starts 20 1 5 planned start_result.1 start_result.0 start_runs
