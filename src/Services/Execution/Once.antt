-- ===== src/Services/Execution/Once.antt =====
-- A result counts once: after `report_result` has accepted a result for an execution, every other
-- report for it leaves the store alone.
use uav_dag_offload_platform.Common.{
  ◌≡◌, ◌≢◌, refl, ap, inl, inr, Bool, true, false, none, some, arith, Option-cases, if◌then◌else◌,
}
use uav_dag_offload_platform.Common.Equality.{◌==◌}
use uav_dag_offload_platform.Domain.Enums.{ExecutionStatus, execution_status_eq}
use uav_dag_offload_platform.Domain.StateMachine.Tables.{can_transition-execution}
use uav_dag_offload_platform.Db.Models.{Datetime, DagTask, DagSubtask, ExecutionRecord}
use uav_dag_offload_platform.Db.Table.{find, find-key, find-modify, modify}
use uav_dag_offload_platform.Db.Store.{Store, execution_record_key}
use uav_dag_offload_platform.Core.Errors.{ok}
use uav_dag_offload_platform.Services.Execution.{
  Report, ExecutionResult, report_result, accept, answer, finish_row, report_success,
  report_failure,
}

-- What the branches do to the execution records: nothing.
success-records :
    (now : Datetime) (t : DagTask) (sub : DagSubtask) (s : Store)
    → (report_success now t sub s).1.execution_records ≡ s.execution_records
unfolding report_success
success-records now t sub s = ground arith

failure-records :
    (now : Datetime) (report : Report) (t : DagTask) (sub : DagSubtask) (s : Store)
    → (report_failure now report t sub s).1.execution_records ≡ s.execution_records
unfolding report_failure
failure-records now report t sub s = ground arith

-- `report_result` without its helpers, which stay shut.
pub report_result-split :
    (now : Datetime) (report : Report) (s : Store) (r : ExecutionRecord)
    → find report.execution_id s.execution_records ≡ some r
    → report_result now report s
      ≡ (if r.status == ExecutionStatus.running then accept now report r s else answer r false s)
unfolding report_result
report_result-split now report s r found = ground (arith, found)

pub answer-same : (r : ExecutionRecord) (b : Bool) (s : Store) → (answer r b s).1 ≡ s
unfolding answer
answer-same r b s = ground arith

pub answer-accepted :
    (r : ExecutionRecord) (b : Bool) (s : Store) (a : ExecutionResult)
    → (answer r b s).0 ≡ ok a
    → a.accepted ≡ b
unfolding answer
answer-accepted r b s a h = ground arith

-- An accepted result is entered into the record of the execution, and into no other.
accept-records :
    (now : Datetime) (report : Report) (r : ExecutionRecord) (s s' : Store) (a : ExecutionResult)
    → accept now report r s ≡ (ok a, s')
    → s'.execution_records ≡ modify r.id (finish_row now report) s.execution_records
unfolding accept
accept-records now report r s s' a h = ground arith

accept-legal :
    (now : Datetime) (report : Report) (r : ExecutionRecord) (s s' : Store) (a : ExecutionResult)
    → r.status ≡ ExecutionStatus.running
    → accept now report r s ≡ (ok a, s')
    → report.status ≢ ExecutionStatus.running
unfolding accept
accept-legal now report r s s' a running h same =
    ground (arith, can_transition-execution ExecutionStatus.running ExecutionStatus.running)

pub report_result-absent :
    (now : Datetime) (report : Report) (s : Store) (a : ExecutionResult)
    → find report.execution_id s.execution_records ≡ none
    → (report_result now report s).0 ≢ ok a
unfolding report_result
report_result-absent now report s a gone h = ground (arith, gone)

-- The record of an accepted report is no longer running.
accepted-finished :
    (now : Datetime) (report : Report) (s s' : Store) (a : ExecutionResult)
    → report_result now report s ≡ (ok a, s')
    → a.accepted ≡ true
    → (r : ExecutionRecord) × (find report.execution_id s'.execution_records ≡ some r)
      × (r.status ≢ ExecutionStatus.running)
accepted-finished now report s s' a h yes_accepted =
    elim (Option-cases (find report.execution_id s.execution_records)) [
      | inl gone ↦ absurd (report_result-absent now report s a gone (ap (λ p. p.0) h))
      | inr (r, found) ↦
          let split = report_result-split now report s r found in
          let running : r.status ≡ ExecutionStatus.running =
            ground (arith, split, answer-accepted r false s a) in
          let run : accept now report r s ≡ (ok a, s') = ground (arith, split) in
          (
            finish_row now report r,
            ground (
              arith,
              found,
              accept-records now report r s s' a run,
              find-key report.execution_id s.execution_records r found,
              find-modify r.id report.execution_id (finish_row now report) s.execution_records
                  (λ x. refl),
            ),
            accept-legal now report r s s' a running run,
          )
    ]

-- After an accepted report every other report for the same execution, whatever it says and whenever
-- it comes, leaves the store as it is and is not accepted.
pub report_result-once :
    (now later : Datetime) (first second : Report) (s s' : Store) (a : ExecutionResult)
    → report_result now first s ≡ (ok a, s')
    → a.accepted ≡ true
    → second.execution_id ≡ first.execution_id
    → ((report_result later second s').1 ≡ s')
      × ((b : ExecutionResult) → (report_result later second s').0 ≡ ok b → b.accepted ≡ false)
report_result-once now later first second s s' a h accepted same =
    let (r, found, stopped) = accepted-finished now first s s' a h accepted in
    let split = report_result-split later second s' r (rw same found) in
    let late : report_result later second s' ≡ answer r false s' = ground (arith, split, stopped) in
    (rw late (answer-same r false s'), λ b i. answer-accepted r false s' b (rw late at i))
