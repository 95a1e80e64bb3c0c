-- ===== src/Services/Order.antt =====
-- The order of execution within a task, as an invariant of the statuses of its subtasks. The
-- services that write these statuses are _unlock_successors, report_result and start_execution of
-- app/services/execution_service.py, and create_task and cancel_task of app/services/task_service.py.
pub mod Reports
pub mod Kept
pub mod Ordered
pub mod Starts
pub mod Appended
pub mod Fresh
pub mod Initials
pub mod Creates
pub mod Cancels
use uav_dag_offload_platform.Common.{
  ℕ, ◌≡◌, refl, inl, inr, Bool, true, false, ◌&&◌, ◌||◌, Option, none, some, List, [], ◌∷◌, arith,
  eqb, eqb_iff, Bool-cases, if◌then◌else◌,
}
use uav_dag_offload_platform.Common.Equality.{◌==◌}
use uav_dag_offload_platform.Domain.Enums.{SubtaskStatus, subtask_status_eq}
use uav_dag_offload_platform.Db.Models.{Uuid, DagDependency}
use uav_dag_offload_platform.Db.Table.{all_rows}
use uav_dag_offload_platform.Services.Unlock.{predecessors_of}
use uav_dag_offload_platform.Services.Unlock.Laws.{
  Statuses, has_status, depends, is_free, is_free-cong, unlocked, unlocked-success,
}

-- A subtask that is neither waiting nor canceled.
abbrev pub is_started : Option SubtaskStatus → Bool
is_started none = false
is_started (some SubtaskStatus.waiting) = false
is_started (some SubtaskStatus.canceled) = false
is_started (some _) = true

-- No subtask is started before all of its predecessors have succeeded, and none waits after that.
pub record IsInOrder (deps : List DagDependency) (status : Statuses) : Type 0 where
  pub started : (v : Uuid) → is_started (status v) ≡ true → is_free deps status v ≡ true
  pub waiting :
      (v : Uuid)
      → has_status SubtaskStatus.waiting (status v) ≡ true
      → is_free deps status v ≡ false

abbrev success_at : Statuses → Uuid → Bool
success_at status p = has_status SubtaskStatus.success (status p)

abbrev pub assign : Uuid → SubtaskStatus → Statuses → Statuses
assign k new status v = if eqb k v then some new else status v

is_free-cons :
    (d : DagDependency) (deps : List DagDependency) (s : Statuses) (v : Uuid)
    → is_free (d ∷ deps) s v ≡ (
        if eqb d.successor_subtask_id v
        then success_at s d.predecessor_subtask_id && is_free deps s v
        else is_free deps s v)
unfolding is_free all_rows predecessors_of
is_free-cons d deps s v = ground arith

is_free_mono :
    (deps : List DagDependency) (s t : Statuses) (v : Uuid)
    → ((p : Uuid) → success_at s p ≡ true → success_at t p ≡ true)
    → is_free deps s v ≡ true
    → is_free deps t v ≡ true
unfolding is_free all_rows predecessors_of
is_free_mono [] s t v more free = refl
is_free_mono (d ∷ deps) s t v more free =
    ground (arith, more d.predecessor_subtask_id, is_free_mono deps s t v more)

-- If the success of one subtask frees another, the other depends on it.
depends-of_freed :
    (deps : List DagDependency) (s t : Statuses) (k v : Uuid)
    → ((p : Uuid) → eqb k p ≡ false → success_at s p ≡ success_at t p)
    → is_free deps s v ≡ false
    → is_free deps t v ≡ true
    → depends deps k v ≡ true
unfolding depends
depends-of_freed [] s t k v same blocked free =
    unfold is_free all_rows predecessors_of in ground arith
depends-of_freed (d ∷ deps) s t k v same blocked free =
    elim (Bool-cases (eqb k d.predecessor_subtask_id)) [
      | inl here ↦ ground (
        arith,
        is_free-cons d deps s v,
        is_free-cons d deps t v,
        eqb_iff k d.predecessor_subtask_id,
        depends-of_freed deps s t k v same,
      )
      | inr other ↦ ground (
        arith,
        is_free-cons d deps s v,
        is_free-cons d deps t v,
        same d.predecessor_subtask_id other,
        depends-of_freed deps s t k v same,
      )
    ]

-- A step that starts and finishes no subtask, and lets none wait, keeps the order.
pub IsInOrder-step :
    (deps : List DagDependency) (s t : Statuses)
    → ((p : Uuid) → success_at s p ≡ success_at t p)
    → ((v : Uuid) → is_started (t v) ≡ true → is_started (s v) ≡ true)
    → ((v : Uuid)
        → has_status SubtaskStatus.waiting (t v) ≡ true
        → has_status SubtaskStatus.waiting (s v) ≡ true)
    → IsInOrder deps s
    → IsInOrder deps t
IsInOrder-step deps s t same started waiting order = record {
  started = λ v h. ground (arith, is_free-cong deps s t v same, order.started v (started v h));
  waiting = λ v h. ground (arith, is_free-cong deps s t v same, order.waiting v (waiting v h));
}

module _ (deps : List DagDependency) (s : Statuses) (k : Uuid)
    (running : s k ≡ some SubtaskStatus.running) (order : IsInOrder deps s) where
  abbrev completed : Statuses
  completed = assign k SubtaskStatus.success s

  abbrev next : Statuses
  next = unlocked deps deps k completed

  gains : (p : Uuid) → success_at s p ≡ true → success_at completed p ≡ true
  gains p h = ground (arith, eqb_iff k p)

  free-next : (v : Uuid) → is_free deps next v ≡ is_free deps completed v
  free-next v = is_free-cong deps next completed v (unlocked-success deps deps k completed)

  free-gains : (v : Uuid) → is_free deps s v ≡ true → is_free deps completed v ≡ true
  free-gains v = is_free_mono deps s completed v gains

  freed :
      (v : Uuid)
      → is_free deps s v ≡ false
      → is_free deps completed v ≡ true
      → depends deps k v ≡ true
  freed v = depends-of_freed deps s completed k v (λ p h. ground arith)

  -- Completing a running subtask and unlocking its successors keeps the order.
  pub IsInOrder-complete : IsInOrder deps next
  IsInOrder-complete = record {
    started = λ v h.
        unfold unlocked in
        ground (arith, free-next v, free-gains v, order.started v, order.started k, eqb_iff k v);
    waiting = λ v h.
        unfold unlocked in ground (arith, free-next v, freed v, order.waiting v, eqb_iff k v);
  }
