-- ===== src/Services/Order/Kept.antt =====
-- `report_result` of app/services/execution_service.py keeps the order of execution, whatever is
-- reported.
use uav_dag_offload_platform.Common.{
  ◌≡◌, ◌<◌, ◌⊎◌, refl, inl, inr, true, false, some, List, arith, eqb, eqb_iff, Bool-cases,
  if◌then◌else◌,
}
use uav_dag_offload_platform.Common.Equality.{◌==◌}
use uav_dag_offload_platform.Domain.Enums.{
  TaskStatus, SubtaskStatus, ExecutionStatus, task_status_eq, subtask_status_eq,
  execution_status_eq,
}
use uav_dag_offload_platform.Db.Models.{Uuid, Datetime, DagSubtask, DagDependency}
use uav_dag_offload_platform.Db.Table.{find, find-key, modify}
use uav_dag_offload_platform.Db.Store.{Store, subtask_key}
use uav_dag_offload_platform.Services.Unlock.{Rows}
use uav_dag_offload_platform.Services.Unlock.Laws.{
  Statuses, IsClosed, status_in, row_of-home, row_of-modify, has_status,
}
use uav_dag_offload_platform.Services.Execution.{
  Report, report_result, dependencies_of, is_failure, can_retry_subtask, retry_row, fail_row,
}
use uav_dag_offload_platform.Services.Execution.Results.{
  Reported, report_result-running, report_result-retry, report_result-failure,
}
use uav_dag_offload_platform.Services.Order.{
  IsInOrder, IsInOrder-step, IsInOrder-complete, is_started,
}
use uav_dag_offload_platform.Services.Order.Reports.{report_result-success}

pub IsInOrder-same :
    (deps : List DagDependency) (s t : Statuses)
    → ((v : Uuid) → t v ≡ s v)
    → IsInOrder deps s
    → IsInOrder deps t
IsInOrder-same deps s t same order =
    IsInOrder-step deps s t (λ v. rw (same v)) (λ v h. ground (arith, same v))
      (λ v h. ground (arith, same v)) order

-- Moving a running subtask to a status that is started and no success.
module _ (t k : Uuid) (rows : Rows) (r : DagSubtask) (f : DagSubtask → DagSubtask)
    (deps : List DagDependency) (found : find k rows ≡ some r) (own : r.task_id ≡ t)
    (running : r.status ≡ SubtaskStatus.running)
    (same : (x : DagSubtask) → ((f x).id ≡ x.id) × ((f x).task_id ≡ x.task_id))
    (started : is_started (some (f r).status) ≡ true)
    (no_success : has_status SubtaskStatus.success (some (f r).status) ≡ false) where
  after :
      (v : Uuid)
      → status_in t (modify k f rows) v
        ≡ (if eqb k v then some (f r).status else status_in t rows v)
  after v =
      ground (arith, row_of-modify t f k v rows same, row_of-home t rows k r found own, eqb_iff k v)

  at_k : status_in t rows k ≡ some SubtaskStatus.running
  at_k = ground (arith, row_of-home t rows k r found own)

  not_waiting : has_status SubtaskStatus.waiting (some (f r).status) ≡ false
  not_waiting = ground arith

  modify-IsInOrder :
      IsInOrder deps (status_in t rows) → IsInOrder deps (status_in t (modify k f rows))
  modify-IsInOrder order =
      IsInOrder-step deps (status_in t rows) (status_in t (modify k f rows))
        (λ p. ground (arith, after p, at_k, eqb_iff k p, no_success))
        (λ v h. ground (arith, after v, at_k, eqb_iff k v))
        (λ v h. ground (arith, after v, at_k, eqb_iff k v, not_waiting)) order

module _ (now : Datetime) (s : Store) (report : Report) (at : Reported s report)
    (running : at.execution.status ≡ ExecutionStatus.running)
    (subtask_running : at.subtask.status ≡ SubtaskStatus.running)
    (task_running : at.task.status ≡ TaskStatus.running) (own : at.subtask.task_id ≡ at.task.id)
    (closed : IsClosed at.task.id s.subtasks (dependencies_of at.task.id s.dependencies))
    (order : IsInOrder
      (dependencies_of at.task.id s.dependencies)
      (status_in at.task.id s.subtasks)) where
  abbrev deps : List DagDependency
  deps = dependencies_of at.task.id s.dependencies

  abbrev After : Store → Type 0
  After s' = IsInOrder deps (status_in at.task.id s'.subtasks)

  found : find at.subtask.id s.subtasks ≡ some at.subtask
  found = ground (
    arith,
    at.found_subtask,
    find-key at.execution.subtask_id s.subtasks at.subtask at.found_subtask,
  )

  kept-success : report.status ≡ ExecutionStatus.success → After (report_result now report s).1
  kept-success h =
      let (rows, result, statuses) =
        report_result-success now s report at running subtask_running task_running own closed h in
      rw result (
        IsInOrder-same deps _ (status_in at.task.id rows) statuses (
          IsInOrder-complete deps (status_in at.task.id s.subtasks) at.subtask.id
            (ground (arith, row_of-home at.task.id s.subtasks at.subtask.id at.subtask found own))
            order))

  kept-failure : is_failure report.status ≡ true → After (report_result now report s).1
  kept-failure h =
      elim (Bool-cases
        (can_retry_subtask report.status at.subtask.retry_count at.subtask.max_retries)) [
          | inl again ↦
              rw
                (report_result-retry now s report at running subtask_running (again_status again)
                  (again_room again))
                (modify-IsInOrder at.task.id at.subtask.id s.subtasks at.subtask
                  (retry_row report.failure_reason) deps found own subtask_running
                  (λ x. (refl, refl)) refl refl order)
          | inr spent ↦
              rw
                (report_result-failure now s report at running subtask_running h spent task_running)
                (modify-IsInOrder at.task.id at.subtask.id s.subtasks at.subtask
                  (fail_row now report.failure_reason) deps found own subtask_running
                  (λ x. (refl, refl)) refl refl order)
        ]
    where
      again_status :
          can_retry_subtask report.status at.subtask.retry_count at.subtask.max_retries ≡ true
          → (report.status ≡ ExecutionStatus.failed) ⊎ (report.status ≡ ExecutionStatus.timeout)
      again_status again = unfold can_retry_subtask in ground arith

      again_room :
          can_retry_subtask report.status at.subtask.retry_count at.subtask.max_retries ≡ true
          → at.subtask.retry_count < at.subtask.max_retries
      again_room again = unfold can_retry_subtask in ground arith

  -- In a running task with closed dependencies whose subtasks are in order, any report for a running
  -- execution of a running subtask keeps them in order: no subtask is past waiting before its
  -- predecessors have succeeded, and none is left waiting after that.
  pub report_result-IsInOrder : After (report_result now report s).1
  report_result-IsInOrder = elim (Bool-cases (report.status == ExecutionStatus.success)) [
    | inl good ↦ kept-success (ground arith)
    | inr bad ↦ elim (Bool-cases (is_failure report.status)) [
      | inl failed ↦ kept-failure failed
      | inr neither ↦ rw (report_result-running now s report at running (ground arith)) order
    ]
  ]
