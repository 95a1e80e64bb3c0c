-- ===== src/Services/Order/Initials.antt =====
-- The statuses that create_task of app/services/task_service.py gives to the subtasks of a new task.
use uav_dag_offload_platform.Common.{
  ℕ, ◌≡◌, inl, inr, refl, String, false, some, List, [], ◌∷◌, map, arith, Option-cases,
  if◌then◌else◌,
}
use uav_dag_offload_platform.Common.Equality.{nat_eq, string_eq}
use uav_dag_offload_platform.Domain.Dag.Graph.{Distinct}
use uav_dag_offload_platform.Domain.Enums.{SubtaskStatus, subtask_status_eq}
use uav_dag_offload_platform.Db.Models.{Uuid, Datetime, DagSubtask, DagDependency}
use uav_dag_offload_platform.Db.Table.{find, all_rows, map_option}
use uav_dag_offload_platform.Db.Store.{subtask_key}
use uav_dag_offload_platform.Services.Unlock.{predecessors_of}
use uav_dag_offload_platform.Services.Unlock.Laws.{Statuses, has_status, is_free}
use uav_dag_offload_platform.Services.Tasks.Create.{
  SubtaskCreate, successor_ids, new_subtasks, new_dependencies,
}
use uav_dag_offload_platform.Services.Tasks.Initial.{
  is_nil, predecessors-nil, new_subtasks-status, new_subtasks-Distinct, names-new_subtasks,
}
use uav_dag_offload_platform.Services.Order.{IsInOrder}

-- Where nothing has succeeded, a subtask is free if it has no predecessor.
is_free-nil :
    (deps : List DagDependency) (status : Statuses) (v : Uuid)
    → ((p : Uuid) → has_status SubtaskStatus.success (status p) ≡ false)
    → is_free deps status v ≡ is_nil (predecessors_of v deps)
unfolding is_free
is_free-nil deps status v none_yet = go (predecessors_of v deps)
  where
    go :
        (ps : List Uuid)
        → all_rows (λ p. has_status SubtaskStatus.success (status p)) ps ≡ is_nil ps
    go [] = unfold all_rows is_nil in refl
    go (p ∷ ps) = unfold all_rows is_nil in ground (arith, none_yet p)

module _ (id : Uuid) (now : Datetime) (n : ℕ) (forms : List SubtaskCreate)
    (deps : List (String × String)) (ds : List DagDependency) (m : ℕ)
    (once : Distinct (map (λ form. form.external_id) forms))
    (made : new_dependencies id (new_subtasks id now (successor_ids deps) n forms) m deps
      ≡ some ds) where
  abbrev pub initial : Statuses
  initial v = map_option (λ r. r.status) (find v (new_subtasks id now (successor_ids deps) n forms))

  none_yet : (p : Uuid) → has_status SubtaskStatus.success (initial p) ≡ false
  none_yet p = elim (Option-cases (find p (new_subtasks id now (successor_ids deps) n forms))) [
    | inl gone ↦ ground (arith, gone)
    | inr (r, found) ↦
        ground (arith, found, (new_subtasks-status id now (successor_ids deps) n forms p r found).1)
  ]

  -- A new subtask waits exactly where it has a predecessor.
  status-free :
      (v : Uuid) (r : DagSubtask)
      → find v (new_subtasks id now (successor_ids deps) n forms) ≡ some r
      → initial v
        ≡ some (if is_free ds initial v then SubtaskStatus.ready else SubtaskStatus.waiting)
  status-free v r found =
      let nil =
        predecessors-nil id (new_subtasks id now (successor_ids deps) n forms) v r
          (new_subtasks-Distinct id now (successor_ids deps) n forms)
          (rw (names-new_subtasks id now (successor_ids deps) n forms) once) found m deps ds made in
      ground (
        arith,
        found,
        (new_subtasks-status id now (successor_ids deps) n forms v r found).1,
        nil,
        is_free-nil ds initial v none_yet,
      )

  pub status-nil :
      (v : Uuid)
      → initial v
        ≡ map_option
            (λ r.
              if is_nil (predecessors_of v ds) then SubtaskStatus.ready else SubtaskStatus.waiting)
            (find v (new_subtasks id now (successor_ids deps) n forms))
  status-nil v = elim (Option-cases (find v (new_subtasks id now (successor_ids deps) n forms))) [
    | inl gone ↦ ground (arith, gone)
    | inr (r, found) ↦
        let nil =
          predecessors-nil id (new_subtasks id now (successor_ids deps) n forms) v r
            (new_subtasks-Distinct id now (successor_ids deps) n forms)
            (rw (names-new_subtasks id now (successor_ids deps) n forms) once) found m deps ds
            made in
        ground
          (arith, found, (new_subtasks-status id now (successor_ids deps) n forms v r found).1, nil)
  ]

  pub initial-IsInOrder : IsInOrder ds initial
  initial-IsInOrder = record {
    started = λ v h.
        elim (Option-cases (find v (new_subtasks id now (successor_ids deps) n forms))) [
          | inl gone ↦ ground (arith, gone, h)
          | inr (r, found) ↦ ground (arith, status-free v r found, h)
        ];
    waiting = λ v h.
        elim (Option-cases (find v (new_subtasks id now (successor_ids deps) n forms))) [
          | inl gone ↦ ground (arith, gone, h)
          | inr (r, found) ↦ ground (arith, status-free v r found, h)
        ];
  }
