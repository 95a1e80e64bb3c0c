-- ===== src/Services/Order/Ordered.antt =====
-- The order of execution in a whole store: of every task, by the dependencies stored for it.
use uav_dag_offload_platform.Common.{
  ◌≡◌, ◌⊎◌, inl, inr, refl, Option-cases, Bool, true, false, some, none, List, [], ◌∷◌, arith, eqb,
  eqb_iff, if◌then◌else◌,
}
use uav_dag_offload_platform.Common.Equality.{nat_eq}
use uav_dag_offload_platform.Domain.Dag.{contains}
use uav_dag_offload_platform.Domain.Dag.Graph.{Distinct}
use uav_dag_offload_platform.Domain.Enums.{SubtaskStatus, subtask_status_eq}
use uav_dag_offload_platform.Db.Models.{Uuid, DagSubtask}
use uav_dag_offload_platform.Db.Table.{HasId, find, modify, where_, map_option}
use uav_dag_offload_platform.Db.Table.Bulk.{keys, update_where}
use uav_dag_offload_platform.Db.Store.{Store, subtask_key}
use uav_dag_offload_platform.Services.Unlock.{Rows, subtasks_of}
use uav_dag_offload_platform.Services.Unlock.Laws.{row_of, row_of-modify, status_in, has_status}
use uav_dag_offload_platform.Services.Execution.{dependencies_of}
use uav_dag_offload_platform.Services.Order.{IsInOrder, IsInOrder-step, is_started}

pub record IsOrdered (s : Store) : Type 0 where
  pub distinct : Distinct (keys s.subtasks)
  pub in_order : (t : Uuid) → IsInOrder (dependencies_of t s.dependencies) (status_in t s.subtasks)

module _ {A : Type 0} ⦃h : HasId A⦄ where
  pub keys-modify :
      (k : Uuid) (f : A → A) (rows : List A)
      → ((r : A) → h.key (f r) ≡ h.key r)
      → keys (modify k f rows) ≡ keys rows
  unfolding keys modify
  keys-modify k f [] same = refl
  keys-modify k f (r ∷ rows) same = ground (arith, same r, keys-modify k f rows same)

  pub keys-update_where :
      (test : A → Bool) (f : A → A) (rows : List A)
      → ((r : A) → h.key (f r) ≡ h.key r)
      → keys (update_where test f rows) ≡ keys rows
  unfolding keys update_where
  keys-update_where test f [] same = refl
  keys-update_where test f (r ∷ rows) same =
      ground (arith, same r, keys-update_where test f rows same)

row_of-absent : (t k : Uuid) (rows : Rows) → contains (keys rows) k ≡ false → row_of t rows k ≡ none
unfolding row_of subtasks_of find where_ keys contains
row_of-absent t k [] absent = refl
row_of-absent t k (r ∷ rows) absent = ground (arith, row_of-absent t k rows)

-- With distinct keys a row of a task is the one row of its key.
row_of-find :
    (t k : Uuid) (rows : Rows) (r x : DagSubtask)
    → Distinct (keys rows)
    → find k rows ≡ some r
    → row_of t rows k ≡ some x
    → x ≡ r
unfolding row_of subtasks_of find where_ keys
row_of-find t k [] r x once found here = ground (arith, found)
row_of-find t k (y ∷ rows) r x once found here =
    ground (arith, eqb_iff y.id k, row_of-absent t k rows, row_of-find t k rows r x once.1)

-- The status that a task sees at the key of a row: that of the row, if the row is its own.
pub status_in-found :
    (t k : Uuid) (rows : Rows) (r : DagSubtask)
    → Distinct (keys rows)
    → find k rows ≡ some r
    → (status_in t rows k ≡ none) ⊎ (status_in t rows k ≡ some r.status)
status_in-found t k rows r once found = elim (Option-cases (row_of t rows k)) [
  | inl none_here ↦ inl (ground (arith, none_here))
  | inr (x, here) ↦ inr (ground (arith, here, row_of-find t k rows r x once found here))
]

-- A step that keeps keys and dependencies, and in every task starts and finishes no subtask and lets
-- none wait, keeps the order.
pub IsOrdered-step :
    (s s' : Store)
    → keys s'.subtasks ≡ keys s.subtasks
    → s'.dependencies ≡ s.dependencies
    → ((t v : Uuid)
        → (has_status SubtaskStatus.success (status_in t s.subtasks v)
            ≡ has_status SubtaskStatus.success (status_in t s'.subtasks v))
          × (is_started (status_in t s'.subtasks v) ≡ true
              → is_started (status_in t s.subtasks v) ≡ true)
          × (has_status SubtaskStatus.waiting (status_in t s'.subtasks v) ≡ true
              → has_status SubtaskStatus.waiting (status_in t s.subtasks v) ≡ true))
    → IsOrdered s
    → IsOrdered s'
IsOrdered-step s s' same_keys same_deps step order = record {
  distinct = rw same_keys order.distinct;
  in_order = λ t. rw same_deps (
      IsInOrder-step (dependencies_of t s.dependencies) (status_in t s.subtasks)
        (status_in t s'.subtasks) (λ v. (step t v).0) (λ v. (step t v).1) (λ v. (step t v).2)
        (order.in_order t));
}

module _ (s s' : Store) (k : Uuid) (r : DagSubtask) (f : DagSubtask → DagSubtask)
    (found : find k s.subtasks ≡ some r) (ready : r.status ≡ SubtaskStatus.ready)
    (same : (x : DagSubtask) → ((f x).id ≡ x.id) × ((f x).task_id ≡ x.task_id))
    (running : (x : DagSubtask) → (f x).status ≡ SubtaskStatus.running)
    (rows : s'.subtasks ≡ modify k f s.subtasks) (deps : s'.dependencies ≡ s.dependencies) where
  after-start :
      (t v : Uuid)
      → status_in t s'.subtasks v ≡ (
          if eqb k v
          then map_option (λ old. SubtaskStatus.running) (status_in t s.subtasks v)
          else status_in t s.subtasks v)
  after-start t v = elim (Option-cases (row_of t s.subtasks v)) [
    | inl none_here ↦ ground (arith, rows, row_of-modify t f k v s.subtasks same, none_here)
    | inr (x, here) ↦ ground (arith, rows, row_of-modify t f k v s.subtasks same, here, running x)
  ]

  -- Starting a ready subtask keeps the order.
  pub modify-IsOrdered : IsOrdered s → IsOrdered s'
  modify-IsOrdered order =
      IsOrdered-step s s' (rw rows (keys-modify k f s.subtasks (λ x. (same x).0))) deps
        (λ t v. elim (status_in-found t k s.subtasks r order.distinct found) [
          | inl gone ↦ (
            ground (arith, after-start t v, eqb_iff k v, gone),
            ground (arith, after-start t v, eqb_iff k v, gone),
            ground (arith, after-start t v, eqb_iff k v, gone),
          )
          | inr own ↦ (
            ground (arith, after-start t v, eqb_iff k v, own),
            ground (arith, after-start t v, eqb_iff k v, own),
            ground (arith, after-start t v, eqb_iff k v, own),
          )
        ])
        order
