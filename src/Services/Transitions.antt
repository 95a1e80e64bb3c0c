-- ===== src/Services/Transitions.antt =====
-- `ensure_transition_allowed` of app/domain/state_machine.py, and the `try`/`except ValueError` round
-- it by which the services answer a conflict of states with status 409.
use uav_dag_offload_platform.Common.{if◌then◌else◌}
use uav_dag_offload_platform.Domain.StateMachine.{State, can_transition}
use uav_dag_offload_platform.Core.Errors.{ErrorCode, Exec, pure, raise, fail, value_error}

unfoldable pub ensure_transition_allowed : {S : Type 0} → State → State → Exec S (Unit {0})
ensure_transition_allowed current target =
    if can_transition current target then pure tt else raise value_error

-- The one exception that the body can raise is the `ValueError`.
unfoldable pub transition_or_conflict : {S : Type 0} → ErrorCode → State → State → Exec S (Unit {0})
transition_or_conflict code current target =
    if can_transition current target then pure tt else fail code 409
