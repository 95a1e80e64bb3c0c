-- ===== src/Services/Execution/Late.antt =====
-- Results that arrive after `cancel_task` of app/services/task_service.py.
use uav_dag_offload_platform.Common.{
  ℕ, String, ◌≡◌, refl, Bool, true, false, Option, some, List, [], ◌∷◌, arith, eqb_iff,
  if◌then◌else◌,
}
use uav_dag_offload_platform.Common.Equality.{◌==◌}
use uav_dag_offload_platform.Domain.Enums.{TaskStatus, ExecutionStatus, execution_status_eq}
use uav_dag_offload_platform.Domain.StateMachine.Tables.{task_allows}
use uav_dag_offload_platform.Db.Models.{Uuid, Datetime, DagTask, ExecutionRecord}
use uav_dag_offload_platform.Db.Table.{find, map_option}
use uav_dag_offload_platform.Db.Table.Bulk.{update_where}
use uav_dag_offload_platform.Db.Store.{Store, task_key, execution_record_key}
use uav_dag_offload_platform.Core.Errors.{ok}
use uav_dag_offload_platform.Services.Tasks.{Answer, cancel_task, cancel_record}
use uav_dag_offload_platform.Services.Tasks.Cancel.{HasDistinctKeys, runs_for, cancel_task-cancels}
use uav_dag_offload_platform.Services.Execution.{Report, ExecutionResult, report_result, answer}
use uav_dag_offload_platform.Services.Execution.Once.{
  answer-same, answer-accepted, report_result-split,
}

find-update_where :
    (k : ℕ) (test : ExecutionRecord → Bool) (f : ExecutionRecord → ExecutionRecord)
    (rows : List ExecutionRecord)
    → ((r : ExecutionRecord) → (f r).id ≡ r.id)
    → find k (update_where test f rows) ≡ map_option (λ r. if test r then f r else r) (find k rows)
unfolding find update_where
find-update_where k test f [] same = refl
find-update_where k test f (r ∷ rows) same =
    ground (arith, same r, find-update_where k test f rows same)

-- Where keys are distinct, after a task whose status allows it is canceled, a report for any of its
-- executions is not accepted and changes nothing.
pub report_result-after_cancel :
    (revoker : String → Answer) (now later : Datetime) (id : Uuid) (reason : Option String)
    (s : Store) (t : DagTask) (report : Report) (r : ExecutionRecord)
    → find id s.tasks ≡ some t
    → task_allows t.status TaskStatus.canceled ≡ true
    → HasDistinctKeys s
    → find report.execution_id s.execution_records ≡ some r
    → r.task_id ≡ id
    → ((report_result later report (cancel_task revoker now id reason s).1).1
        ≡ (cancel_task revoker now id reason s).1)
      × ((b : ExecutionResult)
          → (report_result later report (cancel_task revoker now id reason s).1).0 ≡ ok b
          → b.accepted ≡ false)
report_result-after_cancel revoker now later id reason s t report r found allowed distinct at mine =
    let s' = (cancel_task revoker now id reason s).1 in
    let canceled = (cancel_task-cancels revoker now id reason s t found allowed distinct).1 in
    let r' : ExecutionRecord = if runs_for id r then cancel_record reason now r else r in
    let here : find report.execution_id s'.execution_records ≡ some r' = rw canceled.records (
      ground (
        arith,
        find-update_where report.execution_id (runs_for id) (cancel_record reason now)
            s.execution_records (λ x. refl),
        at,
      )) in
    let stopped : (r'.status == ExecutionStatus.running) ≡ false =
      ground (arith, mine, eqb_iff r.task_id id) in
    let split = report_result-split later report s' r' here in
    let late : report_result later report s' ≡ answer r' false s' =
      ground (arith, split, stopped) in
    (rw late (answer-same r' false s'), λ b i. answer-accepted r' false s' b (rw late at i))
