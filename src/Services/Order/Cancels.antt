-- ===== src/Services/Order/Cancels.antt =====
-- Cancelling a task keeps the order of execution in the store.
use uav_dag_offload_platform.Common.{
  ◌≡◌, ◌⊎◌, inl, inr, refl, String, Bool, false, Option, some, none, List, [], ◌∷◌, arith,
  Option-cases, Bool-cases, if◌then◌else◌,
}
use uav_dag_offload_platform.Common.Equality.{nat_eq}
use uav_dag_offload_platform.Domain.Dag.Graph.{Distinct}
use uav_dag_offload_platform.Domain.Enums.{TaskStatus, SubtaskStatus, subtask_status_eq}
use uav_dag_offload_platform.Domain.StateMachine.Tables.{task_allows}
use uav_dag_offload_platform.Db.Models.{
  Uuid, Datetime, DagTask, DagSubtask, DagDependency, ExecutionRecord,
}
use uav_dag_offload_platform.Db.Table.{find, modify, where_, map_option}
use uav_dag_offload_platform.Db.Table.Bulk.{keys, update_where}
use uav_dag_offload_platform.Db.Store.{Store, task_key, subtask_key, execution_record_key}
use uav_dag_offload_platform.Core.Errors.{
  task_state_conflict, Keeps, bind-Keeps, for_each-Keeps, ◌>>◌,
}
use uav_dag_offload_platform.Domain.StateMachine.{State}
use uav_dag_offload_platform.Services.Transitions.{transition_or_conflict}
use uav_dag_offload_platform.Services.Unlock.{Rows, subtasks_of}
use uav_dag_offload_platform.Services.Unlock.Laws.{row_of, status_in, has_status}
use uav_dag_offload_platform.Services.Tasks.{
  Answer, get_task, cancel_task_row, cancel_execution, cancel_running_executions, running_records,
  cancel_subtask, cancel_non_terminal_subtasks, cancel_task, cancel_subtask_row,
}
use uav_dag_offload_platform.Services.Tasks.Cancel.{
  open_in, cancel_task-cancels, cancel_task-conflict,
}
use uav_dag_offload_platform.Services.Order.Ordered.{IsOrdered, IsOrdered-step, keys-update_where}

-- The row that a task sees after an update of the selected rows that keeps ids and tasks.
row_of-update_where :
    (t v : Uuid) (test : DagSubtask → Bool) (f : DagSubtask → DagSubtask) (rows : Rows)
    → ((r : DagSubtask) → ((f r).id ≡ r.id) × ((f r).task_id ≡ r.task_id))
    → row_of t (update_where test f rows) v
      ≡ map_option (λ r. if test r then f r else r) (row_of t rows v)
unfolding row_of subtasks_of find where_ update_where
row_of-update_where t v test f [] same = refl
row_of-update_where t v test f (r ∷ rows) same =
    ground (arith, same r, row_of-update_where t v test f rows same)

module _ (s s' : Store) (id : Uuid) (reason : Option String) (now : Datetime)
    (rows : s'.subtasks ≡ update_where (open_in id) (cancel_subtask_row reason now) s.subtasks)
    (deps : s'.dependencies ≡ s.dependencies) where
  after_update :
      (t v : Uuid)
      → row_of t s'.subtasks v
        ≡ map_option
            (λ r. if open_in id r then cancel_subtask_row reason now r else r)
            (row_of t s.subtasks v)
  after_update t v = rw rows (
      row_of-update_where t v (open_in id) (cancel_subtask_row reason now) s.subtasks
        (λ r. (refl, refl)))

  -- A subtask is as it was, or was unfinished and is canceled.
  status-after :
      (t v : Uuid)
      → (status_in t s'.subtasks v ≡ status_in t s.subtasks v)
        ⊎ ((status_in t s'.subtasks v ≡ some SubtaskStatus.canceled)
            × (has_status SubtaskStatus.success (status_in t s.subtasks v) ≡ false))
  status-after t v = elim (Option-cases (row_of t s.subtasks v)) [
    | inl gone ↦ inl (ground (arith, after_update t v, gone))
    | inr (r, here) ↦ elim (Bool-cases (open_in id r)) [
      | inl opened ↦
          inr (ground (arith, after_update t v, here, opened), ground (arith, here, opened))
      | inr closed ↦ inl (ground (arith, after_update t v, here, closed))
    ]
  ]

  cancel-IsOrdered : IsOrdered s → IsOrdered s'
  cancel-IsOrdered order =
      IsOrdered-step s s'
        (rw rows
          (keys-update_where (open_in id) (cancel_subtask_row reason now) s.subtasks (λ r. refl)))
        deps
        (λ t v. elim (status-after t v) [
          | inl same ↦ (ground (arith, same), ground (arith, same), ground (arith, same))
          | inr (canceled, unfinished) ↦ (
            ground (arith, canceled, unfinished),
            ground (arith, canceled, unfinished),
            ground (arith, canceled, unfinished),
          )
        ])
        order

-- `s` has these dependencies.
abbrev HasDependencies : List DagDependency → Store → Type 0
HasDependencies deps s = s.dependencies ≡ deps

module _ (revoker : String → Answer) (now : Datetime) (id : Uuid) (reason : Option String)
    (deps : List DagDependency) where
  cancel_execution-Keeps :
      (r : ExecutionRecord) → Keeps (HasDependencies deps) (cancel_execution revoker reason now r)
  cancel_execution-Keeps r s h = elim (Option-cases r.celery_task_id) [
    | inl none_sent ↦ unfold cancel_execution in ground (arith, none_sent)
    | inr (sent, known) ↦ unfold cancel_execution in ground (arith, known)
  ]

  cancel_running-Keeps :
      Keeps (HasDependencies deps) (cancel_running_executions revoker reason now id)
  unfolding cancel_running_executions
  cancel_running-Keeps s h =
      for_each-Keeps (HasDependencies deps) (running_records id s.execution_records)
        (cancel_execution revoker reason now) cancel_execution-Keeps s h

  cancel_subtask-Keeps :
      (r : DagSubtask) → Keeps (HasDependencies deps) (cancel_subtask reason now r)
  unfolding cancel_subtask
  cancel_subtask-Keeps r s h = ground (arith, h)

  cancel_open-Keeps : Keeps (HasDependencies deps) (cancel_non_terminal_subtasks id reason now)
  unfolding cancel_non_terminal_subtasks
  cancel_open-Keeps s h =
      for_each-Keeps (HasDependencies deps) (subtasks_of id s.subtasks) (cancel_subtask reason now)
        cancel_subtask-Keeps s h

  get_task-Keeps : Keeps (HasDependencies deps) (get_task id)
  unfolding get_task
  get_task-Keeps s h = ground (arith, h)

  cancel_loops-Keeps : Keeps (HasDependencies deps) (do
    cancel_running_executions revoker reason now id
    cancel_non_terminal_subtasks id reason now
    get_task id)
  cancel_loops-Keeps =
      bind-Keeps (HasDependencies deps) (cancel_running_executions revoker reason now id) _
        cancel_running-Keeps
        (λ _.
          bind-Keeps (HasDependencies deps) (cancel_non_terminal_subtasks id reason now) _
            cancel_open-Keeps (λ _. get_task-Keeps))

cancel_task-dependencies :
    (revoker : String → Answer) (now : Datetime) (id : Uuid) (reason : Option String) (s : Store)
    → (cancel_task revoker now id reason s).1.dependencies ≡ s.dependencies
unfolding cancel_task
cancel_task-dependencies revoker now id reason s =
    bind-Keeps P (get_task id) _ (get_task-Keeps revoker now id reason s.dependencies)
      (λ t.
        bind-Keeps P
          (transition_or_conflict task_state_conflict (State.task t.status)
            (State.task TaskStatus.canceled))
          _ (transition-Keeps t)
          (λ _ s' h.
            cancel_loops-Keeps revoker now id reason s.dependencies
              (record s' { tasks = modify id (cancel_task_row reason now) s'.tasks }) h))
      s refl
  where
    P : Store → Type 0
    P = HasDependencies s.dependencies

    transition-Keeps :
        (t : DagTask)
        → Keeps P (
            transition_or_conflict task_state_conflict
              (State.task t.status)
              (State.task TaskStatus.canceled))
    transition-Keeps t s' h = unfold transition_or_conflict in ground (arith, h)

cancel_task-missing :
    (revoker : String → Answer) (now : Datetime) (id : Uuid) (reason : Option String) (s : Store)
    → find id s.tasks ≡ none
    → (cancel_task revoker now id reason s).1 ≡ s
unfolding cancel_task get_task
cancel_task-missing revoker now id reason s gone = ground (arith, gone)

-- Cancelling a task, whatever comes of it, keeps a store in order, where its execution records have
-- distinct keys.
pub cancel_task-IsOrdered :
    (revoker : String → Answer) (now : Datetime) (id : Uuid) (reason : Option String) (s : Store)
    → Distinct (keys s.execution_records)
    → IsOrdered s
    → IsOrdered (cancel_task revoker now id reason s).1
cancel_task-IsOrdered revoker now id reason s once order = elim (Option-cases (find id s.tasks)) [
  | inl gone ↦ rw (cancel_task-missing revoker now id reason s gone) order
  | inr (t, found) ↦ elim (Bool-cases (task_allows t.status TaskStatus.canceled)) [
    | inl allowed ↦
        cancel-IsOrdered s (cancel_task revoker now id reason s).1 id reason now
          (cancel_task-cancels revoker now id reason s t found allowed
            (record { execution_records = once; subtasks = order.distinct })).1.subtasks
          (cancel_task-dependencies revoker now id reason s) order
    | inr refused ↦ rw (cancel_task-conflict revoker now id reason s t found refused) order
  ]
]
