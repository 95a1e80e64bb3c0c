-- ===== src/Domain.antt =====
-- app/domain: the enumerations, the state machine and the validation of task graphs.
pub mod Enums
pub mod StateMachine
pub mod Dag
