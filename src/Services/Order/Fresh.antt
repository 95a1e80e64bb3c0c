-- ===== src/Services/Order/Fresh.antt =====
-- The ids that create_task of app/services/task_service.py gives to the rows it stores.
use uav_dag_offload_platform.Common.{
  ℕ, suc, ◌+◌, ◌<◌, ◌≡◌, inl, inr, String, some, none, List, [], ◌∷◌, ◌++◌, arith, length,
  Option-cases,
}
use uav_dag_offload_platform.Db.Models.{Uuid, Datetime, DagDependency}
use uav_dag_offload_platform.Db.Table.{All}
use uav_dag_offload_platform.Db.Store.{Store}
use uav_dag_offload_platform.Services.Unlock.{Rows}
use uav_dag_offload_platform.Services.Tasks.Create.{
  DagTaskCreate, SubtaskCreate, successor_ids, edges, new_subtasks, new_dependencies, new_task,
  store_task,
}
use uav_dag_offload_platform.Services.Order.Appended.{
  IsFresh, new_subtasks-own, new_dependencies-own,
}

module _ {A : Type 0} where
  All-append : (P : A → Type 0) (xs ys : List A) → All P xs → All P ys → All P (xs ++ ys)
  All-append P [] ys first second = second
  All-append P (x ∷ xs) ys first second = (first.0, All-append P xs ys first.1 second)

  All-weaken : (P Q : A → Type 0) (xs : List A) → ((x : A) → P x → Q x) → All P xs → All Q xs
  All-weaken P Q [] weaken all = tt
  All-weaken P Q (x ∷ xs) weaken all = (weaken x all.0, All-weaken P Q xs weaken all.1)

new_subtasks-below :
    (id : Uuid) (now : Datetime) (successors : List String) (n : ℕ) (forms : List SubtaskCreate)
    → All
        (λ r. r.id < n + length (new_subtasks id now successors n forms))
        (new_subtasks id now successors n forms)
unfolding new_subtasks
new_subtasks-below id now successors n [] = tt
new_subtasks-below id now successors n (form ∷ forms) = (
  omega arith,
  All-weaken (λ r. r.id < suc n + length (new_subtasks id now successors (suc n) forms))
      (λ r. r.id < n + suc (length (new_subtasks id now successors (suc n) forms)))
      (new_subtasks id now successors (suc n) forms) (λ r below. omega (arith, below))
      (new_subtasks-below id now successors (suc n) forms),
)

module _ (now : Datetime) (form : DagTaskCreate) (s : Store) (fresh : IsFresh s) where
  abbrev rows : Rows
  rows = new_subtasks s.next_uuid now (successor_ids (edges form)) (suc s.next_uuid) form.subtasks

  -- The first id that is not given to a new row.
  abbrev next : List DagDependency → ℕ
  next ds = suc s.next_uuid + length rows + length ds

  abbrev stored : List DagDependency → Store
  stored ds = record s {
    next_uuid = next ds;
    tasks = s.tasks ++ new_task now s.next_uuid form ∷ [];
    subtasks = s.subtasks ++ rows;
    dependencies = s.dependencies ++ ds;
  }

  stored-IsFresh :
      (ds : List DagDependency)
      → new_dependencies s.next_uuid rows (suc s.next_uuid + length rows) (edges form) ≡ some ds
      → IsFresh (stored ds)
  stored-IsFresh ds made = record {
    subtask_ids =
        All-append (λ r. r.id < next ds) s.subtasks rows
          (All-weaken (λ r. r.id < s.next_uuid) (λ r. r.id < next ds) s.subtasks
            (λ r below. omega (arith, below)) fresh.subtask_ids)
          (All-weaken (λ r. r.id < suc s.next_uuid + length rows) (λ r. r.id < next ds) rows
            (λ r below. omega (arith, below))
            (new_subtasks-below s.next_uuid now (successor_ids (edges form)) (suc s.next_uuid)
              form.subtasks));
    subtask_tasks =
        All-append (λ r. r.task_id < next ds) s.subtasks rows
          (All-weaken (λ r. r.task_id < s.next_uuid) (λ r. r.task_id < next ds) s.subtasks
            (λ r below. omega (arith, below)) fresh.subtask_tasks)
          (All-weaken (λ r. r.task_id ≡ s.next_uuid) (λ r. r.task_id < next ds) rows
            (λ r own. omega (arith, own))
            (new_subtasks-own s.next_uuid now (successor_ids (edges form)) (suc s.next_uuid)
              form.subtasks));
    dependency_tasks =
        All-append (λ d. d.task_id < next ds) s.dependencies ds
          (All-weaken (λ d. d.task_id < s.next_uuid) (λ d. d.task_id < next ds) s.dependencies
            (λ d below. omega (arith, below)) fresh.dependency_tasks)
          (All-weaken (λ d. d.task_id ≡ s.next_uuid) (λ d. d.task_id < next ds) ds
            (λ d own. omega (arith, own))
            (new_dependencies-own s.next_uuid rows (suc s.next_uuid + length rows) (edges form) ds
              made));
  }

  store_task-raised :
      new_dependencies s.next_uuid rows (suc s.next_uuid + length rows) (edges form) ≡ none
      → (store_task now form s).1 ≡ s
  unfolding store_task
  store_task-raised gone = ground (arith, gone)

  store_task-stored :
      (ds : List DagDependency)
      → new_dependencies s.next_uuid rows (suc s.next_uuid + length rows) (edges form) ≡ some ds
      → (store_task now form s).1 ≡ stored ds
  unfolding store_task
  store_task-stored ds made = ground (arith, made)

  pub store_task-IsFresh : IsFresh (store_task now form s).1
  store_task-IsFresh =
      elim (Option-cases
        (new_dependencies s.next_uuid rows (suc s.next_uuid + length rows) (edges form))) [
          | inl gone ↦ rw (store_task-raised gone) fresh
          | inr (ds, made) ↦ rw (store_task-stored ds made) (stored-IsFresh ds made)
        ]
