-- ===== src/Services/Order/Creates.antt =====
-- A created task is in order, and the other tasks stay so.
use uav_dag_offload_platform.Common.{
  suc, ◌+◌, ◌≡◌, ◌⊎◌, inl, inr, refl, ap, false, some, none, List, ◌++◌, arith, eqb, eqb_iff,
  length, Option-cases, Bool-cases, if◌then◌else◌,
}
use mathlib.Core.Path.{subst}
use uav_dag_offload_platform.Common.Equality.{nat_eq, string_eq}
use uav_dag_offload_platform.Domain.Dag.{valid, invalid, Verdict, validate_dag}
use uav_dag_offload_platform.Domain.Dag.Graph.{Distinct}
use uav_dag_offload_platform.Domain.Dag.Correct.{validate_dag_sound}
use uav_dag_offload_platform.Domain.Enums.{SubtaskStatus, subtask_status_eq}
use uav_dag_offload_platform.Db.Models.{Uuid, Datetime, DagDependency}
use uav_dag_offload_platform.Db.Table.{map_option}
use uav_dag_offload_platform.Db.Store.{Store, subtask_key}
use uav_dag_offload_platform.Services.Unlock.{Rows, predecessors_of}
use uav_dag_offload_platform.Services.Unlock.Laws.{row_of, status_in}
use uav_dag_offload_platform.Services.Tasks.Create.{
  DagTaskCreate, successor_ids, edges, external_ids, new_subtasks, new_dependencies, create_task,
  store_task,
}
use uav_dag_offload_platform.Services.Tasks.Initial.{is_nil, append-Distinct}
use uav_dag_offload_platform.Services.Execution.{dependencies_of}
use uav_dag_offload_platform.Services.Order.{IsInOrder}
use uav_dag_offload_platform.Services.Order.Kept.{IsInOrder-same}
use uav_dag_offload_platform.Services.Order.Ordered.{IsOrdered}
use uav_dag_offload_platform.Services.Order.Fresh.{store_task-IsFresh}
use uav_dag_offload_platform.Services.Order.Appended.{
  row_of-none, IsFresh, row_of-old, row_of-new, dependencies_of-old, dependencies_of-new,
  new_subtasks-own, new_dependencies-own, All-other, All-suc,
}
use uav_dag_offload_platform.Services.Order.Initials.{initial, initial-IsInOrder, status-nil}

-- Each subtask of the task is ready if it has no predecessor, and waits if it has one.
abbrev pub IsInitial : Uuid → Store → Type 0
IsInitial id s =
    (v : Uuid)
    → status_in id s.subtasks v
      ≡ map_option
          (λ r.
            if is_nil (predecessors_of v (dependencies_of id s.dependencies))
            then SubtaskStatus.ready
            else SubtaskStatus.waiting)
          (row_of id s.subtasks v)

none-IsInitial : (s : Store) → IsFresh s → IsInitial s.next_uuid s
none-IsInitial s fresh v = rw (row_of-none s.next_uuid v s.subtasks fresh.subtask_tasks) refl

module _ (now : Datetime) (form : DagTaskCreate) (s : Store) where
  abbrev new_id : Uuid
  new_id = s.next_uuid

  -- The rows of the request's subtasks.
  unfoldable rows : Rows
  rows = new_subtasks new_id now (successor_ids (edges form)) (suc new_id) form.subtasks

  store_task-raised :
      new_dependencies new_id rows (suc new_id + length rows) (edges form) ≡ none
      → (store_task now form s).1 ≡ s
  unfolding store_task rows
  store_task-raised gone = ground (arith, gone)

  store_task-stored :
      (ds : List DagDependency)
      → new_dependencies new_id rows (suc new_id + length rows) (edges form) ≡ some ds
      → ((store_task now form s).1.subtasks ≡ s.subtasks ++ rows)
        × ((store_task now form s).1.dependencies ≡ s.dependencies ++ ds)
  unfolding store_task rows
  store_task-stored ds made = (ground (arith, made), ground (arith, made))

  module _ (fresh : IsFresh s) (order : IsOrdered s) (once : Distinct (external_ids form))
      (ds : List DagDependency)
      (made : new_dependencies new_id rows (suc new_id + length rows) (edges form) ≡ some ds) where
    IsInOrder-new :
        IsInOrder
          (dependencies_of new_id (s.dependencies ++ ds))
          (status_in new_id (s.subtasks ++ rows))
    unfolding rows
    IsInOrder-new =
        rw
          (dependencies_of-new new_id s.dependencies ds fresh.dependency_tasks
            (new_dependencies-own new_id rows (suc new_id + length rows) (edges form) ds made))
          (IsInOrder-same ds
            (initial new_id now (suc new_id) form.subtasks (edges form) ds
              (suc new_id + length rows) once made)
            (status_in new_id (s.subtasks ++ rows))
            (λ v. ap (map_option (λ r. r.status)) (
              row_of-new new_id v s.subtasks rows fresh.subtask_tasks (
                new_subtasks-own new_id now (successor_ids (edges form)) (suc new_id)
                  form.subtasks)))
            (initial-IsInOrder new_id now (suc new_id) form.subtasks (edges form) ds
              (suc new_id + length rows) once made))

    stored-IsInitial : IsInitial new_id (store_task now form s).1
    unfolding rows
    stored-IsInitial v =
        let (subtasks, dependencies) = store_task-stored ds made in
        let listed =
          row_of-new new_id v s.subtasks rows fresh.subtask_tasks
            (new_subtasks-own new_id now (successor_ids (edges form)) (suc new_id) form.subtasks) in
        let ends =
          dependencies_of-new new_id s.dependencies ds fresh.dependency_tasks
            (new_dependencies-own new_id rows (suc new_id + length rows) (edges form) ds made) in
        rw (subtasks, dependencies, listed, ends)
          (status-nil new_id now (suc new_id) form.subtasks (edges form) ds
            (suc new_id + length rows) once made v)

    IsInOrder-old :
        (t : Uuid)
        → eqb new_id t ≡ false
        → IsInOrder (dependencies_of t (s.dependencies ++ ds)) (status_in t (s.subtasks ++ rows))
    unfolding rows
    IsInOrder-old t other =
        rw
          (dependencies_of-old t s.dependencies ds (
            All-other (λ d. d.task_id) new_id t ds other
              (new_dependencies-own new_id rows (suc new_id + length rows) (edges form) ds made)))
          (IsInOrder-same (dependencies_of t s.dependencies) (status_in t s.subtasks)
            (status_in t (s.subtasks ++ rows))
            (λ v. ap (map_option (λ r. r.status)) (
              row_of-old t v s.subtasks rows (
                All-other (λ r. r.task_id) new_id t rows other
                  (new_subtasks-own new_id now (successor_ids (edges form)) (suc new_id)
                    form.subtasks))))
            (order.in_order t))

    stored-IsOrdered : IsOrdered (store_task now form s).1
    stored-IsOrdered =
        let (subtasks, dependencies) = store_task-stored ds made in
        record {
          distinct = rw subtasks (
              unfold rows in
              append-Distinct new_id now (successor_ids (edges form)) (suc new_id) s.subtasks
                form.subtasks (All-suc new_id s.subtasks fresh.subtask_ids) order.distinct);
          in_order = λ t.
              rw (subtasks, dependencies)
                (elim (Bool-cases (eqb new_id t)) [
                  | inl here ↦
                      subst
                        (λ u.
                          IsInOrder (dependencies_of u (s.dependencies ++ ds))
                            (status_in u (s.subtasks ++ rows)))
                        ((eqb_iff new_id t).0 here) IsInOrder-new
                  | inr other ↦ IsInOrder-old t other
                ]);
        }

  store_task-IsOrdered :
      IsFresh s → IsOrdered s → Distinct (external_ids form) → IsOrdered (store_task now form s).1
  store_task-IsOrdered fresh order once =
      elim (Option-cases (new_dependencies new_id rows (suc new_id + length rows) (edges form))) [
        | inl gone ↦ rw (store_task-raised gone) order
        | inr (ds, made) ↦ stored-IsOrdered fresh order once ds made
      ]

  store_task-IsInitial :
      IsFresh s
      → IsOrdered s
      → Distinct (external_ids form)
      → IsInitial new_id (store_task now form s).1
  store_task-IsInitial fresh order once =
      elim (Option-cases (new_dependencies new_id rows (suc new_id + length rows) (edges form))) [
        | inl gone ↦ rw (store_task-raised gone) (none-IsInitial s fresh)
        | inr (ds, made) ↦ stored-IsInitial fresh order once ds made
      ]

  create_task-none :
      validate_dag (external_ids form) (edges form) ≡ none → (create_task now form s).1 ≡ s
  unfolding create_task
  create_task-none gone = ground (arith, gone)

  create_task-judged :
      (verdict : Verdict)
      → validate_dag (external_ids form) (edges form) ≡ some verdict
      → ((create_task now form s).1 ≡ s)
        ⊎ ((validate_dag (external_ids form) (edges form) ≡ some valid)
            × (create_task now form s ≡ store_task now form s))
  unfolding create_task
  create_task-judged valid judged = inr (judged, ground (arith, judged))
  create_task-judged (invalid e) judged = inl (ground (arith, judged))

  create_task-cases :
      ((create_task now form s).1 ≡ s)
      ⊎ ((validate_dag (external_ids form) (edges form) ≡ some valid)
          × (create_task now form s ≡ store_task now form s))
  create_task-cases = elim (Option-cases (validate_dag (external_ids form) (edges form))) [
    | inl gone ↦ inl (create_task-none gone)
    | inr (verdict, judged) ↦ create_task-judged verdict judged
  ]

-- Whatever comes of creating a task, a store in which every task is in order, and no row has an id
-- that is still to be given, stays such a store; and each subtask that is then stored of the new task
-- is ready if it has no predecessor, and waits if it has one.
pub create_task-IsOrdered :
    (now : Datetime) (form : DagTaskCreate) (s : Store)
    → IsFresh s
    → IsOrdered s
    → IsFresh (create_task now form s).1
      × IsOrdered (create_task now form s).1
      × IsInitial s.next_uuid (create_task now form s).1
create_task-IsOrdered now form s fresh order = elim (create_task-cases now form s) [
  | inl unchanged ↦ rw unchanged (fresh, order, none-IsInitial s fresh)
  | inr (accepted, stored) ↦
      let once = (validate_dag_sound (external_ids form) (edges form) accepted).distinct in
      rw stored (
        store_task-IsFresh now form s fresh,
        store_task-IsOrdered now form s fresh order once,
        store_task-IsInitial now form s fresh order once,
      )
]
