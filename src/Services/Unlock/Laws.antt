-- ===== src/Services/Unlock/Laws.antt =====
-- What `_unlock_successors` of app/services/execution_service.py does to the status of each subtask.
use uav_dag_offload_platform.Common.{
  ◌≡◌, refl, ◌∙◌, inl, inr, Bool, true, false, ◌&&◌, ◌||◌, Option, none, some, List, [], ◌∷◌, arith,
  eqb, eqb_iff, Bool-cases, Option-cases, if◌then◌else◌,
}
use uav_dag_offload_platform.Common.Equality.{◌==◌}
use uav_dag_offload_platform.Domain.Enums.{SubtaskStatus, subtask_status_eq}
use uav_dag_offload_platform.Domain.StateMachine.Tables.{can_transition-subtask}
use uav_dag_offload_platform.Db.Models.{Uuid, DagSubtask, DagDependency}
use uav_dag_offload_platform.Db.Table.{
  where_, find, find-key, find-modify, modify, map_option, all_rows, All,
}
use uav_dag_offload_platform.Db.Store.{subtask_key}
use uav_dag_offload_platform.Core.Errors.{ok, for_each}
use uav_dag_offload_platform.Services.Transitions.{ensure_transition_allowed}
use uav_dag_offload_platform.Services.Unlock.{
  Rows, subtasks_of, subtask_by_id, predecessors_of, all_success, set_ready, unlock,
  unlock_successors,
}

module _ (task_id : Uuid) where
  -- The row of a subtask of the task.
  unfoldable pub row_of : Rows → Uuid → Option DagSubtask
  row_of rows v = find v (subtasks_of task_id rows)

  -- An update that keeps the ids changes the row of its subtask and no other.
  pub row_of-modify :
      (f : DagSubtask → DagSubtask) (k v : Uuid) (rows : Rows)
      → ((r : DagSubtask) → ((f r).id ≡ r.id) × ((f r).task_id ≡ r.task_id))
      → row_of (modify k f rows) v
        ≡ (if eqb k v then map_option f (row_of rows v) else row_of rows v)
  unfolding row_of subtasks_of find where_ modify
  row_of-modify f k v [] same = ground arith
  row_of-modify f k v (r ∷ rows) same = ground (arith, same r, row_of-modify f k v rows same)

  pub row_of-id : (rows : Rows) (v : Uuid) (r : DagSubtask) → row_of rows v ≡ some r → r.id ≡ v
  unfolding row_of
  row_of-id rows v r found = find-key v (subtasks_of task_id rows) r found

  pub row_of-task :
      (rows : Rows) (v : Uuid) (r : DagSubtask) → row_of rows v ≡ some r → r.task_id ≡ task_id
  unfolding row_of subtasks_of find where_
  row_of-task [] v r found = ground arith
  row_of-task (x ∷ rows) v r found = ground (arith, row_of-task rows v r)

  -- The status of a subtask of the task.
  abbrev pub status_in : Rows → Uuid → Option SubtaskStatus
  status_in rows v = map_option (λ r. r.status) (row_of rows v)

  abbrev pub IsFound : Rows → Uuid → Type 0
  IsFound rows v = (r : DagSubtask) × (row_of rows v ≡ some r)

abbrev pub has_status : SubtaskStatus → Option SubtaskStatus → Bool
has_status s none = false
has_status s (some t) = t == s

-- There is a dependency of `successor` on `predecessor`.
unfoldable pub depends : List DagDependency → Uuid → Uuid → Bool
depends [] predecessor successor = false
depends (d ∷ deps) predecessor successor =
    (eqb d.predecessor_subtask_id predecessor && eqb d.successor_subtask_id successor)
    || depends deps predecessor successor

abbrev pub Statuses : Type 0
Statuses = Uuid → Option SubtaskStatus

-- Every predecessor of the subtask has succeeded.
unfoldable pub is_free : List DagDependency → Statuses → Uuid → Bool
is_free deps status v =
    all_rows (λ p. has_status SubtaskStatus.success (status p)) (predecessors_of v deps)

-- The specification: a waiting successor of the completed subtask becomes ready if all of its
-- predecessors have succeeded, and nothing else changes.
unfoldable pub unlocked : List DagDependency → List DagDependency → Uuid → Statuses → Statuses
unlocked deps seen completed status v =
    if has_status SubtaskStatus.waiting (status v)
      && (depends seen completed v && is_free deps status v)
    then some SubtaskStatus.ready
    else status v

module _ (task_id : Uuid) (deps : List DagDependency) (completed : Uuid) where
  -- One round of the loop as a function on the rows.
  unlock_step : DagDependency → Rows → Rows
  unlock_step d rows =
      if eqb d.predecessor_subtask_id completed
        && (has_status SubtaskStatus.waiting (status_in task_id rows d.successor_subtask_id)
            && is_free deps (status_in task_id rows) d.successor_subtask_id)
      then modify d.successor_subtask_id set_ready rows
      else rows

  all_success-eq :
      (ps : List Uuid) (rows : Rows)
      → All (IsFound task_id rows) ps
      → all_success task_id ps rows ≡ (
        ok (all_rows (λ p. has_status SubtaskStatus.success (status_in task_id rows p)) ps),
        rows,
      )
  unfolding all_success subtask_by_id all_rows row_of
  all_success-eq [] rows found = refl
  all_success-eq (p ∷ ps) rows found = ground (arith, found.0.1, all_success-eq ps rows found.1)

  unlock-eq :
      (d : DagDependency) (rows : Rows)
      → IsFound task_id rows d.successor_subtask_id
      → All (IsFound task_id rows) (predecessors_of d.successor_subtask_id deps)
      → unlock task_id deps completed d rows ≡ (ok tt, unlock_step d rows)
  unfolding unlock unlock_step subtask_by_id row_of is_free ensure_transition_allowed
  unlock-eq d rows found all = ground (
    arith,
    found.1,
    find-key d.successor_subtask_id (subtasks_of task_id rows) found.0 found.1,
    all_success-eq (predecessors_of d.successor_subtask_id deps) rows all,
    can_transition-subtask SubtaskStatus.waiting SubtaskStatus.ready,
  )

  unlock_step-status :
      (d : DagDependency) (rows : Rows) (v : Uuid)
      → status_in task_id (unlock_step d rows) v
        ≡ unlocked deps (d ∷ []) completed (status_in task_id rows) v
  unfolding unlock_step unlocked depends
  unlock_step-status d rows v = ground (
    arith,
    row_of-modify task_id set_ready d.successor_subtask_id v rows (λ r. (refl, refl)),
    eqb_iff d.successor_subtask_id v,
  )

  unlock_step-IsFound :
      (d : DagDependency) (rows : Rows) (v : Uuid)
      → IsFound task_id rows v
      → IsFound task_id (unlock_step d rows) v
  unfolding unlock_step
  unlock_step-IsFound d rows v (r, found) =
      elim (Option-cases (row_of task_id (unlock_step d rows) v)) [
        | inr here ↦ here
        | inl gone ↦ ground (
          arith,
          row_of-modify task_id set_ready d.successor_subtask_id v rows (λ r. (refl, refl)),
        )
      ]

  run_steps : List DagDependency → Rows → Rows
  run_steps [] rows = rows
  run_steps (d ∷ ds) rows = run_steps ds (unlock_step d rows)

-- The subtask is a row of the store, of this task.
abbrev pub IsHome : Uuid → Rows → Uuid → Type 0
IsHome task_id rows v = (r : DagSubtask) × (find v rows ≡ some r) × (r.task_id ≡ task_id)

pub row_of-home :
    (task_id : Uuid) (rows : Rows) (v : Uuid) (r : DagSubtask)
    → find v rows ≡ some r
    → r.task_id ≡ task_id
    → row_of task_id rows v ≡ some r
unfolding row_of subtasks_of find where_
row_of-home task_id [] v r found same = ground arith
row_of-home task_id (x ∷ rows) v r found same =
    ground (arith, row_of-home task_id rows v r, eqb_iff r.task_id task_id)

pub modify-IsHome :
    (task_id : Uuid) (f : DagSubtask → DagSubtask) (k v : Uuid) (rows : Rows)
    → ((r : DagSubtask) → ((f r).id ≡ r.id) × ((f r).task_id ≡ r.task_id))
    → IsHome task_id rows v
    → IsHome task_id (modify k f rows) v
modify-IsHome task_id f k v rows same (r, found, home) = elim (Bool-cases (eqb k v)) [
  | inl here ↦
      (f r, ground (arith, find-modify k v f rows (λ x. (same x).0)), ground (arith, same r))
  | inr other ↦ (r, ground (arith, find-modify k v f rows (λ x. (same x).0)), home)
]

pub modify-IsFound :
    (task_id : Uuid) (f : DagSubtask → DagSubtask) (k v : Uuid) (rows : Rows)
    → ((r : DagSubtask) → ((f r).id ≡ r.id) × ((f r).task_id ≡ r.task_id))
    → IsFound task_id rows v
    → IsFound task_id (modify k f rows) v
modify-IsFound task_id f k v rows same (r, found) = elim (Bool-cases (eqb k v)) [
  | inl here ↦ (f r, ground (arith, row_of-modify task_id f k v rows same))
  | inr other ↦ (r, ground (arith, row_of-modify task_id f k v rows same))
]

-- Both ends of every dependency are subtasks of the task, as the foreign keys and `create_task` see
-- to.
abbrev pub IsClosed : Uuid → Rows → List DagDependency → Type 0
IsClosed task_id rows deps =
    All
      (λ d.
        IsFound task_id rows d.predecessor_subtask_id × IsFound task_id rows d.successor_subtask_id)
      deps

predecessors-IsFound :
    (task_id : Uuid) (rows : Rows) (deps : List DagDependency) (v : Uuid)
    → IsClosed task_id rows deps
    → All (IsFound task_id rows) (predecessors_of v deps)
unfolding predecessors_of
predecessors-IsFound task_id rows [] v closed = tt
predecessors-IsFound task_id rows (d ∷ deps) v closed =
    elim (Bool-cases (eqb d.successor_subtask_id v)) [
      | inl here ↦ rw here (closed.0.0, predecessors-IsFound task_id rows deps v closed.1)
      | inr other ↦ rw other (predecessors-IsFound task_id rows deps v closed.1)
    ]

pub IsClosed-map :
    (task_id : Uuid) (rows rows' : Rows) (deps : List DagDependency)
    → ((v : Uuid) → IsFound task_id rows v → IsFound task_id rows' v)
    → IsClosed task_id rows deps
    → IsClosed task_id rows' deps
IsClosed-map task_id rows rows' [] keep closed = tt
IsClosed-map task_id rows rows' (d ∷ deps) keep closed =
    ((keep _ closed.0.0, keep _ closed.0.1), IsClosed-map task_id rows rows' deps keep closed.1)

all_rows-cong :
    (p q : Uuid → Bool) (ps : List Uuid) → ((v : Uuid) → p v ≡ q v) → all_rows p ps ≡ all_rows q ps
unfolding all_rows
all_rows-cong p q [] same = refl
all_rows-cong p q (x ∷ ps) same = ground (arith, same x, all_rows-cong p q ps same)

-- Whether a subtask is free depends on the set of the successful ones only.
pub is_free-cong :
    (deps : List DagDependency) (s t : Statuses) (v : Uuid)
    → ((p : Uuid) → has_status SubtaskStatus.success (s p) ≡ has_status SubtaskStatus.success (t p))
    → is_free deps s v ≡ is_free deps t v
unfolding is_free
is_free-cong deps s t v same = all_rows-cong _ _ (predecessors_of v deps) same

-- Unlocking makes no subtask successful, and takes success from none.
pub unlocked-success :
    (deps seen : List DagDependency) (completed : Uuid) (status : Statuses) (v : Uuid)
    → has_status SubtaskStatus.success (unlocked deps seen completed status v)
      ≡ has_status SubtaskStatus.success (status v)
unfolding unlocked
unlocked-success deps seen completed status v = ground arith

pub unlocked-cong :
    (deps : List DagDependency) (completed : Uuid) (s t : Statuses) (v : Uuid)
    → ((w : Uuid) → s w ≡ t w)
    → unlocked deps deps completed s v ≡ unlocked deps deps completed t v
unfolding unlocked
unlocked-cong deps completed s t v same =
    ground (arith, same v, is_free-cong deps s t v (λ p. rw (same p)))

module _ (task_id : Uuid) (deps : List DagDependency) (completed : Uuid) where
  run_steps-eq :
      (ds : List DagDependency) (rows : Rows)
      → IsClosed task_id rows ds
      → IsClosed task_id rows deps
      → for_each ds (unlock task_id deps completed) rows
        ≡ (ok tt, run_steps task_id deps completed ds rows)
  unfolding for_each run_steps
  run_steps-eq [] rows ends closed = refl
  run_steps-eq (d ∷ ds) rows ends closed =
      let next = unlock_step task_id deps completed d rows in
      let keep = unlock_step-IsFound task_id deps completed d rows in
      rw
        (unlock-eq task_id deps completed d rows ends.0.1
          (predecessors-IsFound task_id rows deps d.successor_subtask_id closed))
        (run_steps-eq ds next (IsClosed-map task_id rows next ds keep ends.1)
          (IsClosed-map task_id rows next deps keep closed))

  unlocked-cons :
      (d : DagDependency) (ds : List DagDependency) (s t : Statuses) (v : Uuid)
      → ((w : Uuid) → t w ≡ unlocked deps (d ∷ []) completed s w)
      → unlocked deps ds completed t v ≡ unlocked deps (d ∷ ds) completed s v
  unlocked-cons d ds s t v step =
      let free =
        is_free-cong deps t s v (λ p. rw (step p) (unlocked-success deps (d ∷ []) completed s p)) in
      unfold unlocked depends in ground (arith, step v, free)

  run_steps-status :
      (ds : List DagDependency) (rows : Rows) (v : Uuid)
      → status_in task_id (run_steps task_id deps completed ds rows) v
        ≡ unlocked deps ds completed (status_in task_id rows) v
  unfolding run_steps
  run_steps-status [] rows v = unfold unlocked depends in ground arith
  run_steps-status (d ∷ ds) rows v =
      let next = unlock_step task_id deps completed d rows in
      run_steps-status ds next v
      ∙ unlocked-cons d ds (status_in task_id rows) (status_in task_id next) v
          (unlock_step-status task_id deps completed d rows)

  unlock_step-IsHome :
      (d : DagDependency) (rows : Rows) (v : Uuid)
      → IsHome task_id rows v
      → IsHome task_id (unlock_step task_id deps completed d rows) v
  unfolding unlock_step
  unlock_step-IsHome d rows v home =
      if_home _ home
        (modify-IsHome task_id set_ready d.successor_subtask_id v rows (λ r. (refl, refl)) home)
    where
      if_home :
          (b : Bool)
          → IsHome task_id rows v
          → IsHome task_id (modify d.successor_subtask_id set_ready rows) v
          → IsHome task_id (if b then modify d.successor_subtask_id set_ready rows else rows) v
      if_home true h h' = h'
      if_home false h h' = h

  run_steps-IsHome :
      (ds : List DagDependency) (rows : Rows) (v : Uuid)
      → IsHome task_id rows v
      → IsHome task_id (run_steps task_id deps completed ds rows) v
  unfolding run_steps
  run_steps-IsHome [] rows v home = home
  run_steps-IsHome (d ∷ ds) rows v home = run_steps-IsHome ds _ v (unlock_step-IsHome d rows v home)

  -- Where all dependencies are between subtasks of the task, the loop over the dependencies of a
  -- completed subtask raises nothing; after it exactly those waiting successors are ready whose
  -- predecessors have all succeeded, every other status is as it was, and rows stay in their task.
  pub unlock_successors_lem :
      (rows : Rows)
      → IsClosed task_id rows deps
      → (rows' : Rows) × (unlock_successors task_id deps completed rows ≡ (ok tt, rows'))
        × ((v : Uuid)
            → status_in task_id rows' v ≡ unlocked deps deps completed (status_in task_id rows) v)
        × ((v : Uuid) → IsHome task_id rows v → IsHome task_id rows' v)
  unfolding unlock_successors
  unlock_successors_lem rows closed = (
    run_steps task_id deps completed deps rows,
    run_steps-eq deps rows closed closed,
    run_steps-status deps rows,
    run_steps-IsHome deps rows,
  )
