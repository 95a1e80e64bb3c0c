-- ===== src/Domain/StateMachine/Tables.antt =====
-- The transitions of each kind of status, as docs/07_state_machine_design.md tables them, and that
-- app/domain/state_machine.py allows exactly these between two statuses of one kind.
use uav_dag_offload_platform.Common.{◌≡◌, Bool, true, false, refl, arith}
use uav_dag_offload_platform.Domain.Enums.{
  TaskStatus, SubtaskStatus, NodeStatus, SchedulePlanStatus, ExecutionStatus,
}
use uav_dag_offload_platform.Domain.StateMachine.{
  State, task, subtask, node, schedule_plan, execution, can_transition,
}

abbrev pub task_allows : TaskStatus → TaskStatus → Bool
task_allows TaskStatus.pending TaskStatus.scheduled = true
task_allows TaskStatus.pending TaskStatus.canceled = true
task_allows TaskStatus.scheduled TaskStatus.running = true
task_allows TaskStatus.scheduled TaskStatus.canceled = true
task_allows TaskStatus.running TaskStatus.success = true
task_allows TaskStatus.running TaskStatus.failed = true
task_allows TaskStatus.running TaskStatus.canceled = true
task_allows _ _ = false

abbrev pub subtask_allows : SubtaskStatus → SubtaskStatus → Bool
subtask_allows SubtaskStatus.waiting SubtaskStatus.ready = true
subtask_allows SubtaskStatus.waiting SubtaskStatus.canceled = true
subtask_allows SubtaskStatus.ready SubtaskStatus.dispatched = true
subtask_allows SubtaskStatus.ready SubtaskStatus.canceled = true
subtask_allows SubtaskStatus.dispatched SubtaskStatus.running = true
subtask_allows SubtaskStatus.dispatched SubtaskStatus.canceled = true
subtask_allows SubtaskStatus.running SubtaskStatus.success = true
subtask_allows SubtaskStatus.running SubtaskStatus.failed = true
subtask_allows SubtaskStatus.running SubtaskStatus.canceled = true
subtask_allows SubtaskStatus.failed SubtaskStatus.retrying = true
subtask_allows SubtaskStatus.retrying SubtaskStatus.ready = true
subtask_allows SubtaskStatus.retrying SubtaskStatus.canceled = true
subtask_allows _ _ = false

abbrev pub node_allows : NodeStatus → NodeStatus → Bool
node_allows NodeStatus.online NodeStatus.busy = true
node_allows NodeStatus.online NodeStatus.offline = true
node_allows NodeStatus.busy NodeStatus.online = true
node_allows NodeStatus.busy NodeStatus.offline = true
node_allows NodeStatus.offline NodeStatus.online = true
node_allows _ _ = false

abbrev pub plan_allows : SchedulePlanStatus → SchedulePlanStatus → Bool
plan_allows SchedulePlanStatus.generated SchedulePlanStatus.applied = true
plan_allows SchedulePlanStatus.generated SchedulePlanStatus.canceled = true
plan_allows SchedulePlanStatus.applied SchedulePlanStatus.canceled = true
plan_allows _ _ = false

abbrev pub execution_allows : ExecutionStatus → ExecutionStatus → Bool
execution_allows ExecutionStatus.running ExecutionStatus.running = false
execution_allows ExecutionStatus.running _ = true
execution_allows _ _ = false

pub can_transition-task : (a b : TaskStatus) → can_transition (task a) (task b) ≡ task_allows a b
unfolding can_transition
can_transition-task TaskStatus.pending TaskStatus.pending = refl
can_transition-task TaskStatus.pending _ = refl
can_transition-task TaskStatus.scheduled TaskStatus.pending = refl
can_transition-task TaskStatus.scheduled _ = refl
can_transition-task TaskStatus.running TaskStatus.pending = refl
can_transition-task TaskStatus.running _ = refl
can_transition-task TaskStatus.success TaskStatus.pending = refl
can_transition-task TaskStatus.success _ = refl
can_transition-task TaskStatus.failed TaskStatus.pending = refl
can_transition-task TaskStatus.failed _ = refl
can_transition-task TaskStatus.canceled TaskStatus.pending = refl
can_transition-task TaskStatus.canceled _ = refl

pub can_transition-subtask :
    (a b : SubtaskStatus) → can_transition (subtask a) (subtask b) ≡ subtask_allows a b
unfolding can_transition
can_transition-subtask SubtaskStatus.waiting SubtaskStatus.waiting = refl
can_transition-subtask SubtaskStatus.waiting _ = refl
can_transition-subtask SubtaskStatus.ready SubtaskStatus.waiting = refl
can_transition-subtask SubtaskStatus.ready _ = refl
can_transition-subtask SubtaskStatus.dispatched SubtaskStatus.waiting = refl
can_transition-subtask SubtaskStatus.dispatched _ = refl
can_transition-subtask SubtaskStatus.running SubtaskStatus.waiting = refl
can_transition-subtask SubtaskStatus.running _ = refl
can_transition-subtask SubtaskStatus.success SubtaskStatus.waiting = refl
can_transition-subtask SubtaskStatus.success _ = refl
can_transition-subtask SubtaskStatus.failed SubtaskStatus.waiting = refl
can_transition-subtask SubtaskStatus.failed _ = refl
can_transition-subtask SubtaskStatus.retrying SubtaskStatus.waiting = refl
can_transition-subtask SubtaskStatus.retrying _ = refl
can_transition-subtask SubtaskStatus.canceled SubtaskStatus.waiting = refl
can_transition-subtask SubtaskStatus.canceled _ = refl

pub can_transition-node : (a b : NodeStatus) → can_transition (node a) (node b) ≡ node_allows a b
unfolding can_transition
can_transition-node NodeStatus.online NodeStatus.online = refl
can_transition-node NodeStatus.online _ = refl
can_transition-node NodeStatus.busy NodeStatus.online = refl
can_transition-node NodeStatus.busy _ = refl
can_transition-node NodeStatus.offline NodeStatus.online = refl
can_transition-node NodeStatus.offline _ = refl

pub can_transition-plan :
    (a b : SchedulePlanStatus)
    → can_transition (schedule_plan a) (schedule_plan b) ≡ plan_allows a b
unfolding can_transition
can_transition-plan SchedulePlanStatus.generated SchedulePlanStatus.generated = refl
can_transition-plan SchedulePlanStatus.generated _ = refl
can_transition-plan SchedulePlanStatus.applied SchedulePlanStatus.generated = refl
can_transition-plan SchedulePlanStatus.applied _ = refl
can_transition-plan SchedulePlanStatus.canceled SchedulePlanStatus.generated = refl
can_transition-plan SchedulePlanStatus.canceled _ = refl

pub can_transition-execution :
    (a b : ExecutionStatus) → can_transition (execution a) (execution b) ≡ execution_allows a b
unfolding can_transition
can_transition-execution ExecutionStatus.running ExecutionStatus.running = refl
can_transition-execution ExecutionStatus.running _ = refl
can_transition-execution ExecutionStatus.success ExecutionStatus.running = refl
can_transition-execution ExecutionStatus.success _ = refl
can_transition-execution ExecutionStatus.failed ExecutionStatus.running = refl
can_transition-execution ExecutionStatus.failed _ = refl
can_transition-execution ExecutionStatus.timeout ExecutionStatus.running = refl
can_transition-execution ExecutionStatus.timeout _ = refl
can_transition-execution ExecutionStatus.canceled ExecutionStatus.running = refl
can_transition-execution ExecutionStatus.canceled _ = refl

-- The transitions between two statuses of one kind, by the tables of the design.
abbrev pub designed : State → State → Bool
designed (task a) (task b) = task_allows a b
designed (subtask a) (subtask b) = subtask_allows a b
designed (node a) (node b) = node_allows a b
designed (schedule_plan a) (schedule_plan b) = plan_allows a b
designed (execution a) (execution b) = execution_allows a b
designed _ _ = false

abbrev pub same_kind : State → State → Bool
same_kind (task a) (task b) = true
same_kind (subtask a) (subtask b) = true
same_kind (node a) (node b) = true
same_kind (schedule_plan a) (schedule_plan b) = true
same_kind (execution a) (execution b) = true
same_kind _ _ = false

-- Between two statuses of one kind the table, in which the entries of the three kinds that have the
-- status RUNNING fall together, allows exactly the transitions listed kind by kind in `designed`.
pub can_transition-designed :
    (a b : State) → same_kind a b ≡ true → can_transition a b ≡ designed a b
can_transition-designed (task a) (task b) h = can_transition-task a b
can_transition-designed (subtask a) (subtask b) h = can_transition-subtask a b
can_transition-designed (node a) (node b) h = can_transition-node a b
can_transition-designed (schedule_plan a) (schedule_plan b) h = can_transition-plan a b
can_transition-designed (execution a) (execution b) h = can_transition-execution a b
can_transition-designed _ _ h = ground arith
