-- ===== src/Domain/StateMachine.antt =====
-- app/domain/state_machine.py. A `State` is a member of one of five enumerations. Members are
-- strings, so the keys and the members of the sets of `ALLOWED_TRANSITIONS` are compared by text:
-- three entries of the dict display have the key "RUNNING", and the last one stays.
pub mod Tables
use uav_dag_offload_platform.Common.{
  ℕ, ◌≡◌, Bool, true, false, not, ◌||◌, String, Option, none, some, List, [], ◌∷◌, if◌then◌else◌,
}
use uav_dag_offload_platform.Common.Equality.{Eq, ◌==◌, string_eq}
use uav_dag_offload_platform.Domain.Enums.{
  value, TaskStatus, SubtaskStatus, NodeStatus, SchedulePlanStatus, ExecutionStatus,
  task_status_value, subtask_status_value, node_status_value, schedule_plan_status_value,
  execution_status_value,
}

pub data State : Type 0 where
  task : TaskStatus → State
  subtask : SubtaskStatus → State
  node : NodeStatus → State
  schedule_plan : SchedulePlanStatus → State
  execution : ExecutionStatus → State

abbrev pub text : State → String
text (task s) = task_status_value s
text (subtask s) = subtask_status_value s
text (node s) = node_status_value s
text (schedule_plan s) = schedule_plan_status_value s
text (execution s) = execution_status_value s

-- The dict display, in source order.
unfoldable pub allowed_transitions : List (State × List State)
allowed_transitions =
    (task TaskStatus.pending, task TaskStatus.scheduled ∷ task TaskStatus.canceled ∷ [])
    ∷ (task TaskStatus.scheduled, task TaskStatus.running ∷ task TaskStatus.canceled ∷ [])
    ∷ (
      task TaskStatus.running,
      task TaskStatus.success ∷ task TaskStatus.failed ∷ task TaskStatus.canceled ∷ [],
    )
    ∷ (
      subtask SubtaskStatus.waiting,
      subtask SubtaskStatus.ready ∷ subtask SubtaskStatus.canceled ∷ [],
    )
    ∷ (
      subtask SubtaskStatus.ready,
      subtask SubtaskStatus.dispatched ∷ subtask SubtaskStatus.canceled ∷ [],
    )
    ∷ (
      subtask SubtaskStatus.dispatched,
      subtask SubtaskStatus.running ∷ subtask SubtaskStatus.canceled ∷ [],
    )
    ∷ (
      subtask SubtaskStatus.running,
      subtask SubtaskStatus.success
          ∷ subtask SubtaskStatus.failed
          ∷ subtask SubtaskStatus.canceled
          ∷ [],
    )
    ∷ (subtask SubtaskStatus.failed, subtask SubtaskStatus.retrying ∷ [])
    ∷ (
      subtask SubtaskStatus.retrying,
      subtask SubtaskStatus.ready ∷ subtask SubtaskStatus.canceled ∷ [],
    )
    ∷ (node NodeStatus.online, node NodeStatus.busy ∷ node NodeStatus.offline ∷ [])
    ∷ (node NodeStatus.busy, node NodeStatus.online ∷ node NodeStatus.offline ∷ [])
    ∷ (node NodeStatus.offline, node NodeStatus.online ∷ [])
    ∷ (
      schedule_plan SchedulePlanStatus.generated,
      schedule_plan SchedulePlanStatus.applied ∷ schedule_plan SchedulePlanStatus.canceled ∷ [],
    )
    ∷ (schedule_plan SchedulePlanStatus.applied, schedule_plan SchedulePlanStatus.canceled ∷ [])
    ∷ (
      execution ExecutionStatus.running,
      execution ExecutionStatus.success
          ∷ execution ExecutionStatus.failed
          ∷ execution ExecutionStatus.timeout
          ∷ execution ExecutionStatus.canceled
          ∷ [],
    )
    ∷ []

-- Set membership, by text.
unfoldable pub in_set : List State → String → Bool
in_set [] t = false
in_set (s ∷ rest) t = text s == t || in_set rest t

abbrev later_entry : Bool → List State → Option (List State) → Option (List State)
later_entry _ entry (some later) = some later
later_entry true entry none = some entry
later_entry false entry none = none

-- ALLOWED_TRANSITIONS.get(current): of the entries with one key, the last one written.
unfoldable pub entry_of : List (State × List State) → String → Option (List State)
entry_of [] t = none
entry_of ((s, targets) ∷ rest) t = later_entry (text s == t) targets (entry_of rest t)

abbrev pub or_empty : Option (List State) → List State
or_empty none = []
or_empty (some targets) = targets

unfoldable pub can_transition : State → State → Bool
unfolding allowed_transitions in_set entry_of
can_transition current target =
    in_set (or_empty (entry_of allowed_transitions (text current))) (text target)
