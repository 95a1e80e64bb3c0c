-- ===== src/Examples/States.antt =====
-- Transitions of app/domain/state_machine.py, after tests/domain/test_state_machine.py.
use uav_dag_offload_platform.Common.{◌≡◌, refl, true}
use uav_dag_offload_platform.Domain.Enums.{TaskStatus, SubtaskStatus, ExecutionStatus}
use uav_dag_offload_platform.Domain.StateMachine.{State, can_transition}
use uav_dag_offload_platform.Domain.StateMachine.Tables.{can_transition-designed}

-- The entry of the running execution serves the running task too.
foreign_target :
    can_transition (State.task TaskStatus.running) (State.execution ExecutionStatus.timeout) ≡ true
unfolding can_transition
foreign_target = refl

can_transition-designed_example :
    can_transition (State.subtask SubtaskStatus.running) (State.subtask SubtaskStatus.canceled)
    ≡ true
can_transition-designed_example =
    can_transition-designed (State.subtask SubtaskStatus.running)
      (State.subtask SubtaskStatus.canceled) refl
