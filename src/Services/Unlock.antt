-- ===== src/Services/Unlock.antt =====
-- `ExecutionService._unlock_successors` of app/services/execution_service.py. It works on the rows
-- of the subtasks alone; `task.subtasks` are those with the task's id.
pub mod Laws
use uav_dag_offload_platform.Common.{
  ℕ, Bool, true, false, ◌&&◌, Option, none, some, List, [], ◌∷◌, eqb, if◌then◌else◌,
}
use uav_dag_offload_platform.Common.Equality.{◌==◌}
use uav_dag_offload_platform.Domain.Enums.{SubtaskStatus, subtask_status_eq}
use uav_dag_offload_platform.Domain.StateMachine.{subtask}
use uav_dag_offload_platform.Db.Models.{Uuid, DagSubtask, DagDependency}
use uav_dag_offload_platform.Db.Table.{where_, find, modify}
use uav_dag_offload_platform.Db.Store.{subtask_key}
use uav_dag_offload_platform.Core.Errors.{
  Exec, pure, raise, gets, or_else, modify_state, when, for_each, key_error, ◌>>=◌, ◌>>◌,
}
use uav_dag_offload_platform.Services.Transitions.{ensure_transition_allowed}

abbrev pub Rows : Type 0
Rows = List DagSubtask

-- task.subtasks
unfoldable pub subtasks_of : Uuid → Rows → Rows
subtasks_of task_id rows = where_ (λ r. eqb r.task_id task_id) rows

-- subtask_by_id[k]
unfoldable pub subtask_by_id : Uuid → Uuid → Exec Rows DagSubtask
unfolding subtasks_of
subtask_by_id task_id k rows = or_else (find k (subtasks_of task_id rows)) (raise key_error) rows

-- predecessor_ids: of the dependencies that have this successor
unfoldable pub predecessors_of : Uuid → List DagDependency → List Uuid
predecessors_of successor [] = []
predecessors_of successor (d ∷ deps) =
    let rest = predecessors_of successor deps in
    if eqb d.successor_subtask_id successor then d.predecessor_subtask_id ∷ rest else rest

-- all(subtask_by_id[p].status == SUCCESS for p in predecessor_ids), which stops at the first that
-- is not.
unfoldable pub all_success : Uuid → List Uuid → Exec Rows Bool
unfolding subtask_by_id
all_success task_id [] = pure true
all_success task_id (p ∷ rest) = do
  predecessor ← subtask_by_id task_id p
  elim (predecessor.status == SubtaskStatus.success) [
    | true ↦ all_success task_id rest
    | false ↦ pure false
  ]

abbrev pub set_ready : DagSubtask → DagSubtask
set_ready r = record r { status = SubtaskStatus.ready }

-- The body of the loop over `task.dependencies`.
unfoldable pub unlock : Uuid → List DagDependency → Uuid → DagDependency → Exec Rows (Unit {0})
unfolding subtask_by_id all_success predecessors_of ensure_transition_allowed
unlock task_id dependencies completed dependency =
    when (eqb dependency.predecessor_subtask_id completed) do
      successor ← subtask_by_id task_id dependency.successor_subtask_id
      when (successor.status == SubtaskStatus.waiting) do
        free ← all_success task_id (predecessors_of successor.id dependencies)
        when free do
          ensure_transition_allowed (subtask successor.status) (subtask SubtaskStatus.ready)
          modify_state (modify successor.id set_ready)

unfoldable pub unlock_successors : Uuid → List DagDependency → Uuid → Exec Rows (Unit {0})
unfolding unlock for_each
unlock_successors task_id dependencies completed =
    for_each dependencies (unlock task_id dependencies completed)
