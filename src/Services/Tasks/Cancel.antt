-- ===== src/Services/Tasks/Cancel.antt =====
-- `cancel_task` of app/services/task_service.py: what it leaves in the store.
use uav_dag_offload_platform.Common.{
  String, ◌≡◌, refl, ap, ◌∙◌, inl, inr, Bool, true, false, not, ◌&&◌, Option, some, List, [], ◌∷◌,
  arith, eqb, Bool-cases, if◌then◌else◌,
}
use uav_dag_offload_platform.Common.Equality.{◌==◌, nat_eq}
use uav_dag_offload_platform.Domain.Dag.Graph.{Distinct}
use uav_dag_offload_platform.Domain.Enums.{
  TaskStatus, SubtaskStatus, ExecutionStatus, task_status_eq, subtask_status_eq,
  execution_status_eq,
}
use uav_dag_offload_platform.Domain.StateMachine.{State, can_transition}
use uav_dag_offload_platform.Domain.StateMachine.Tables.{
  task_allows, can_transition-task, can_transition-subtask, can_transition-execution,
}
use uav_dag_offload_platform.Db.Models.{Uuid, Datetime, DagTask, DagSubtask, ExecutionRecord}
use uav_dag_offload_platform.Db.Table.{where_, find, find-modify, modify, All}
use uav_dag_offload_platform.Db.Table.Bulk.{keys, modify_each, modify_each-where, update_where}
use uav_dag_offload_platform.Db.Store.{Store, task_key, subtask_key, execution_record_key}
use uav_dag_offload_platform.Core.Errors.{
  Exec, ok, raised, app_error, task_state_conflict, for_each,
}
use uav_dag_offload_platform.Services.Unlock.{subtasks_of}
use uav_dag_offload_platform.Services.Tasks.{
  Answer, get_task, cancel_execution, cancel_running_executions, running_records, cancel_record,
  is_terminal, cancel_subtask, cancel_subtask_row, cancel_non_terminal_subtasks, cancel_task_row,
  cancel_task,
}

-- What a step of a loop over the execution records leaves.
record Canceled (s : Store) (rows : List ExecutionRecord) (m : Exec Store (Unit {0})) : Type 0 where
  returns : (m s).0 ≡ ok tt
  records : (m s).1.execution_records ≡ rows
  subtasks : (m s).1.subtasks ≡ s.subtasks
  tasks : (m s).1.tasks ≡ s.tasks

module _ (revoker : String → Answer) (reason : Option String) (now : Datetime) where
  cancel_execution-lem :
      (s : Store) (r : ExecutionRecord)
      → r.status ≡ ExecutionStatus.running
      → Canceled s
          (modify r.id (cancel_record reason now) s.execution_records)
          (cancel_execution revoker reason now r)
  unfolding cancel_execution
  cancel_execution-lem s r running = record {
    returns = ground (arith, legal);
    records = ground (arith, legal);
    subtasks = ground (arith, legal);
    tasks = ground (arith, legal);
  }
    where
      legal :
          can_transition (State.execution r.status) (State.execution ExecutionStatus.canceled)
          ≡ true
      legal = rw running (can_transition-execution ExecutionStatus.running ExecutionStatus.canceled)

  cancel_executions-lem :
      (rs : List ExecutionRecord) (s : Store)
      → All (λ r. r.status ≡ ExecutionStatus.running) rs
      → Canceled s
          (modify_each rs (cancel_record reason now) s.execution_records)
          (for_each rs (cancel_execution revoker reason now))
  unfolding for_each modify_each
  cancel_executions-lem [] s running = record {
    returns = refl;
    records = refl;
    subtasks = refl;
    tasks = refl;
  }
  cancel_executions-lem (r ∷ rs) s running =
      let one = cancel_execution-lem s r running.0 in
      let s' = (cancel_execution revoker reason now r s).1 in
      let rest = cancel_executions-lem rs s' running.1 in
      record {
        returns = ground (arith, one.returns, rest.returns);
        records = ground (arith, one.returns, rest.records, one.records);
        subtasks = ground (arith, one.returns, rest.subtasks, one.subtasks);
        tasks = ground (arith, one.returns, rest.tasks, one.tasks);
      }

running_records-All :
    (id : Uuid) (rows : List ExecutionRecord)
    → All (λ r. r.status ≡ ExecutionStatus.running) (running_records id rows)
unfolding running_records
running_records-All id [] = tt
running_records-All id (r ∷ rows) =
    elim (Bool-cases (eqb r.task_id id && r.status == ExecutionStatus.running)) [
      | inl here ↦ rw here (ground arith, running_records-All id rows)
      | inr other ↦ rw other (running_records-All id rows)
    ]

-- What the loop over the subtasks leaves.
record Ended (s : Store) (rows : List DagSubtask) (m : Exec Store (Unit {0})) : Type 0 where
  returns : (m s).0 ≡ ok tt
  records : (m s).1.execution_records ≡ s.execution_records
  subtasks : (m s).1.subtasks ≡ rows
  tasks : (m s).1.tasks ≡ s.tasks

abbrev is_open : DagSubtask → Bool
is_open r = not (is_terminal r.status)

where-where :
    (id : Uuid) (rows : List DagSubtask)
    → where_ is_open (subtasks_of id rows) ≡ where_ (λ r. eqb r.task_id id && is_open r) rows
unfolding where_ subtasks_of
where-where id [] = refl
where-where id (r ∷ rows) = ground (arith, where-where id rows)

module _ (reason : Option String) (now : Datetime) where
  open_may_cancel :
      (status : SubtaskStatus)
      → is_terminal status ≡ false
      → can_transition (State.subtask status) (State.subtask SubtaskStatus.canceled) ≡ true
  open_may_cancel status h = ground (arith, can_transition-subtask status SubtaskStatus.canceled)

  cancel_subtask-lem :
      (s : Store) (r : DagSubtask)
      → Ended s
          (if is_open r then modify r.id (cancel_subtask_row reason now) s.subtasks else s.subtasks)
          (cancel_subtask reason now r)
  unfolding cancel_subtask
  cancel_subtask-lem s r =
      let legal = open_may_cancel r.status in
      elim (Bool-cases (is_terminal r.status)) [
        | inl ended ↦ record {
          returns = ground arith;
          records = ground arith;
          subtasks = ground arith;
          tasks = ground arith;
        }
        | inr still_open ↦ record {
          returns = ground (arith, legal still_open);
          records = ground (arith, legal still_open);
          subtasks = ground (arith, legal still_open);
          tasks = ground (arith, legal still_open);
        }
      ]

  cancel_subtasks-lem :
      (rs : List DagSubtask) (s : Store)
      → Ended s
          (modify_each (where_ is_open rs) (cancel_subtask_row reason now) s.subtasks)
          (for_each rs (cancel_subtask reason now))
  unfolding for_each modify_each where_
  cancel_subtasks-lem [] s = record {
    returns = refl;
    records = refl;
    subtasks = refl;
    tasks = refl;
  }
  cancel_subtasks-lem (r ∷ rs) s =
      let one = cancel_subtask-lem s r in
      let s' = (cancel_subtask reason now r s).1 in
      let rest = cancel_subtasks-lem rs s' in
      record {
        returns = ground (arith, one.returns, rest.returns);
        records = ground (arith, one.returns, rest.records, one.records);
        subtasks = ground (arith, one.returns, rest.subtasks, one.subtasks);
        tasks = ground (arith, one.returns, rest.tasks, one.tasks);
      }

abbrev pub runs_for : Uuid → ExecutionRecord → Bool
runs_for id r = eqb r.task_id id && r.status == ExecutionStatus.running

abbrev pub open_in : Uuid → DagSubtask → Bool
open_in id r = eqb r.task_id id && not (is_terminal r.status)

-- The store after a cancellation, next to the one before.
pub record IsCanceled (s s' : Store) (id : Uuid) (reason : Option String) (now : Datetime)
    : Type 0 where
  pub tasks : s'.tasks ≡ modify id (cancel_task_row reason now) s.tasks
  pub records :
      s'.execution_records
      ≡ update_where (runs_for id) (cancel_record reason now) s.execution_records
  pub subtasks : s'.subtasks ≡ update_where (open_in id) (cancel_subtask_row reason now) s.subtasks

-- The primary keys of the tables are distinct.
pub record HasDistinctKeys (s : Store) : Type 0 where
  pub execution_records : Distinct (keys s.execution_records)
  pub subtasks : Distinct (keys s.subtasks)

cancel_running-lem :
    (revoker : String → Answer) (reason : Option String) (now : Datetime) (id : Uuid) (s : Store)
    → Distinct (keys s.execution_records)
    → Canceled s
        (update_where (runs_for id) (cancel_record reason now) s.execution_records)
        (cancel_running_executions revoker reason now id)
unfolding cancel_running_executions
cancel_running-lem revoker reason now id s once =
    let loop =
      cancel_executions-lem revoker reason now (running_records id s.execution_records) s
        (running_records-All id s.execution_records) in
    record {
      returns = loop.returns;
      records =
          loop.records
          ∙ modify_each-where (runs_for id) (cancel_record reason now) s.execution_records
              (λ r. refl) (λ r. refl) once;
      subtasks = loop.subtasks;
      tasks = loop.tasks;
    }

cancel_open-lem :
    (reason : Option String) (now : Datetime) (id : Uuid) (s : Store)
    → Distinct (keys s.subtasks)
    → Ended s
        (update_where (open_in id) (cancel_subtask_row reason now) s.subtasks)
        (cancel_non_terminal_subtasks id reason now)
unfolding cancel_non_terminal_subtasks
cancel_open-lem reason now id s once =
    let loop = cancel_subtasks-lem reason now (subtasks_of id s.subtasks) s in
    record {
      returns = loop.returns;
      records = loop.records;
      subtasks =
          loop.subtasks
          ∙ ap (λ rs. modify_each rs (cancel_subtask_row reason now) s.subtasks)
              (where-where id s.subtasks)
          ∙ modify_each-where (open_in id) (cancel_subtask_row reason now) s.subtasks (λ r. refl)
              (λ r. refl) once;
      tasks = loop.tasks;
    }

get_task-found :
    (id : Uuid) (s : Store) (t : DagTask) → find id s.tasks ≡ some t → get_task id s ≡ (ok t, s)
unfolding get_task
get_task-found id s t found = ground (arith, found)

module _ (revoker : String → Answer) (now : Datetime) (id : Uuid) (reason : Option String) where
  pub cancel_task-cancels :
      (s : Store) (t : DagTask)
      → find id s.tasks ≡ some t
      → task_allows t.status TaskStatus.canceled ≡ true
      → HasDistinctKeys s
      → ((cancel_task revoker now id reason s).0 ≡ ok (cancel_task_row reason now t))
        × IsCanceled s (cancel_task revoker now id reason s).1 id reason now
  unfolding cancel_task
  cancel_task-cancels s t found allowed distinct =
      let s1 = record s { tasks = modify id (cancel_task_row reason now) s.tasks } in
      let executions = cancel_running-lem revoker reason now id s1 distinct.execution_records in
      let s2 = (cancel_running_executions revoker reason now id s1).1 in
      let ended =
        cancel_open-lem reason now id s2 (ground (arith, executions.subtasks, distinct.subtasks)) in
      let legal = can_transition-task t.status TaskStatus.canceled in
      let again = find-modify id id (cancel_task_row reason now) s.tasks (λ r. refl) in
      (
        ground (
          arith,
          found,
          allowed,
          legal,
          executions.returns,
          ended.returns,
          executions.tasks,
          ended.tasks,
          again,
          get_task-found id (cancel_non_terminal_subtasks id reason now s2).1
              (cancel_task_row reason now t),
        ),
        record {
          tasks = ground (
            arith, found, allowed, legal, executions.returns, ended.returns, executions.tasks,
            ended.tasks,
          );
          records = ground (
            arith, found, allowed, legal, executions.returns, ended.returns, executions.records,
            ended.records,
          );
          subtasks = ground (
            arith, found, allowed, legal, executions.returns, ended.returns, executions.subtasks,
            ended.subtasks,
          );
        },
      )

  -- A task whose status does not allow it is not canceled: the answer is a conflict, and nothing
  -- changes.
  pub cancel_task-conflict :
      (s : Store) (t : DagTask)
      → find id s.tasks ≡ some t
      → task_allows t.status TaskStatus.canceled ≡ false
      → cancel_task revoker now id reason s
        ≡ (raised (app_error (record { code = task_state_conflict; status_code = 409 })), s)
  unfolding cancel_task
  cancel_task-conflict s t found refused =
      ground (arith, found, can_transition-task t.status TaskStatus.canceled)
