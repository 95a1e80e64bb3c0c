-- ===== src/Services/Order/Reports.antt =====
-- The result of a successful execution, by `report_result` of app/services/execution_service.py: what
-- it leaves in the store.
use uav_dag_offload_platform.Common.{
  ◌≡◌, refl, ◌∙◌, true, some, List, arith, eqb_iff, if◌then◌else◌,
}
use uav_dag_offload_platform.Domain.Enums.{
  TaskStatus, SubtaskStatus, ExecutionStatus, task_status_eq, subtask_status_eq,
  execution_status_eq,
}
use uav_dag_offload_platform.Domain.StateMachine.Tables.{
  can_transition-task, can_transition-subtask, can_transition-execution,
}
use uav_dag_offload_platform.Db.Models.{Uuid, Datetime, DagSubtask, DagDependency}
use uav_dag_offload_platform.Db.Table.{find, find-key, find-modify, modify}
use uav_dag_offload_platform.Db.Store.{Store, task_key, subtask_key, execution_record_key}
use uav_dag_offload_platform.Core.Errors.{ok}
use uav_dag_offload_platform.Services.Unlock.{Rows, unlock_successors}
use uav_dag_offload_platform.Services.Unlock.Laws.{
  IsClosed, IsClosed-map, IsHome, status_in, row_of-home, row_of-modify, modify-IsHome,
  modify-IsFound, unlocked, unlocked-cong, unlock_successors_lem,
}
use uav_dag_offload_platform.Services.Execution.{
  Report, report_result, dependencies_of, finish_row, succeed_row, succeed_task_row,
  all_subtasks_success,
}
use uav_dag_offload_platform.Services.Execution.Results.{Reported}
use uav_dag_offload_platform.Services.Order.{assign}

module _ (now : Datetime) (s : Store) (report : Report) (at : Reported s report)
    (running : at.execution.status ≡ ExecutionStatus.running)
    (subtask_running : at.subtask.status ≡ SubtaskStatus.running)
    (task_running : at.task.status ≡ TaskStatus.running) (own : at.subtask.task_id ≡ at.task.id)
    (closed : IsClosed at.task.id s.subtasks (dependencies_of at.task.id s.dependencies)) where
  abbrev k : Uuid
  k = at.subtask.id

  abbrev t : Uuid
  t = at.task.id

  abbrev deps : List DagDependency
  deps = dependencies_of t s.dependencies

  abbrev before : Rows
  before = modify k (succeed_row now) s.subtasks

  key : k ≡ at.execution.subtask_id
  key = find-key at.execution.subtask_id s.subtasks at.subtask at.found_subtask

  found : find k s.subtasks ≡ some at.subtask
  found = ground (arith, key, at.found_subtask)

  home : IsHome t before k
  home =
      modify-IsHome t (succeed_row now) k k s.subtasks (λ r. (refl, refl)) (at.subtask, found, own)

  status-before :
      (v : Uuid) → status_in t before v ≡ assign k SubtaskStatus.success (status_in t s.subtasks) v
  status-before v = ground (
    arith,
    row_of-modify t (succeed_row now) k v s.subtasks (λ r. (refl, refl)),
    row_of-home t s.subtasks k at.subtask found own,
    eqb_iff k v,
  )

  after-unlock :
      (rows : Rows) × (unlock_successors t deps k before ≡ (ok tt, rows))
      × ((v : Uuid) → status_in t rows v ≡ unlocked deps deps k (status_in t before) v)
      × ((v : Uuid) → IsHome t before v → IsHome t rows v)
  after-unlock = unlock_successors_lem t deps k before (
      IsClosed-map t s.subtasks before deps
        (λ v h. modify-IsFound t (succeed_row now) k v s.subtasks (λ r. (refl, refl)) h) closed)

  -- The subtasks once the successors are unlocked.
  abbrev rows : Rows
  rows = after-unlock.0

  done-after :
      (v : Uuid)
      → v ≡ k
      → (r : DagSubtask) × (find v rows ≡ some r) × (r.status ≡ SubtaskStatus.success)
  done-after v same =
      let (r, here, mine) = after-unlock.3 k home in
      (
        r,
        ground (arith, here),
        unfold unlocked in
            ground (
              arith,
              row_of-home t rows k r here mine,
              after-unlock.2 k,
              status-before k,
              row_of-home t s.subtasks k at.subtask found own,
            ),
      )

  -- In a running task with closed dependencies, the success of a running execution of a running
  -- subtask completes the subtask and unlocks its successors; the task succeeds exactly when all of
  -- its subtasks have, and goes on otherwise.
  pub report_result-success :
      report.status ≡ ExecutionStatus.success
      → (rows' : Rows) × (report_result now report s ≡ (
        ok (record {
          execution_id = at.execution.id;
          subtask_status = SubtaskStatus.success;
          task_status =
              if all_subtasks_success t rows' then TaskStatus.success else TaskStatus.running;
          accepted = true;
        }),
        record s {
          execution_records = modify at.execution.id (finish_row now report) s.execution_records;
          subtasks = rows';
          tasks =
              if all_subtasks_success t rows'
              then modify t (succeed_task_row now) s.tasks
              else s.tasks;
        },
      ))
        × ((v : Uuid)
            → status_in t rows' v
              ≡ unlocked deps deps k (assign k SubtaskStatus.success (status_in t s.subtasks)) v)
  report_result-success success =
      let (r, here, done) = done-after at.execution.subtask_id (ground (arith, key)) in
      (
        rows,
        unfold report_result in
            ground (
              arith,
              success,
              at.found_execution,
              at.found_subtask,
              at.found_task,
              find-key at.execution.task_id s.tasks at.task at.found_task,
              find-modify t at.execution.task_id (succeed_task_row now) s.tasks (λ x. refl),
              here,
              done,
              after-unlock.1,
              can_transition-execution ExecutionStatus.running ExecutionStatus.success,
              can_transition-subtask SubtaskStatus.running SubtaskStatus.success,
              can_transition-task TaskStatus.running TaskStatus.success,
            ),
        λ v. after-unlock.2 v ∙ unlocked-cong deps k _ _ v status-before,
      )
