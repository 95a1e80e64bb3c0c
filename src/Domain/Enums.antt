-- ===== src/Domain/Enums.antt =====
-- app/domain/enums.py: the enumerations. `value` is the text of a member, which a `StrEnum` member
-- is compared and hashed by; two members of one enumeration never share it, so `==` between two of
-- them is equality of constructors, computed here on their positions.
use uav_dag_offload_platform.Common.{ℕ, String, ◌≡◌, true, arith, eqb}
use uav_dag_offload_platform.Common.Equality.{Eq}

pub eqb_refl : (n : ℕ) → eqb n n ≡ true
eqb_refl n = ground arith

-- The text of a member.
pub record StrEnum (A : Type 0) : Type 0 where
  pub value : A → String

abbrev pub value : {A : Type 0} ⦃s : StrEnum A⦄ → A → String
value ⦃s⦄ = s.value

pub data NodeType : Type 0 where
  uav edge : NodeType

abbrev pub node_type_value : NodeType → String
node_type_value NodeType.uav = "UAV"
node_type_value NodeType.edge = "EDGE"

instance abbrev pub node_type_str : StrEnum NodeType
node_type_str = record { value = node_type_value }

abbrev pub node_type_position : NodeType → ℕ
node_type_position NodeType.uav = 0
node_type_position NodeType.edge = 1

pub node_type_injective :
    (a b : NodeType) → eqb (node_type_position a) (node_type_position b) ≡ true → a ≡ b
node_type_injective a b h = ground arith

instance abbrev pub node_type_eq : Eq NodeType
node_type_eq = record {
  test = λ a b. eqb (node_type_position a) (node_type_position b);
  agrees = λ a b. (node_type_injective a b, λ p. rw p (eqb_refl (node_type_position b)));
}

pub data NodeStatus : Type 0 where
  online busy offline : NodeStatus

abbrev pub node_status_value : NodeStatus → String
node_status_value NodeStatus.online = "ONLINE"
node_status_value NodeStatus.busy = "BUSY"
node_status_value NodeStatus.offline = "OFFLINE"

instance abbrev pub node_status_str : StrEnum NodeStatus
node_status_str = record { value = node_status_value }

abbrev pub node_status_position : NodeStatus → ℕ
node_status_position NodeStatus.online = 0
node_status_position NodeStatus.busy = 1
node_status_position NodeStatus.offline = 2

pub node_status_injective :
    (a b : NodeStatus) → eqb (node_status_position a) (node_status_position b) ≡ true → a ≡ b
node_status_injective a b h = ground arith

instance abbrev pub node_status_eq : Eq NodeStatus
node_status_eq = record {
  test = λ a b. eqb (node_status_position a) (node_status_position b);
  agrees = λ a b. (node_status_injective a b, λ p. rw p (eqb_refl (node_status_position b)));
}

pub data WorkerStatus : Type 0 where
  online busy : WorkerStatus

abbrev pub worker_status_value : WorkerStatus → String
worker_status_value WorkerStatus.online = "ONLINE"
worker_status_value WorkerStatus.busy = "BUSY"

instance abbrev pub worker_status_str : StrEnum WorkerStatus
worker_status_str = record { value = worker_status_value }

abbrev pub worker_status_position : WorkerStatus → ℕ
worker_status_position WorkerStatus.online = 0
worker_status_position WorkerStatus.busy = 1

pub worker_status_injective :
    (a b : WorkerStatus) → eqb (worker_status_position a) (worker_status_position b) ≡ true → a ≡ b
worker_status_injective a b h = ground arith

instance abbrev pub worker_status_eq : Eq WorkerStatus
worker_status_eq = record {
  test = λ a b. eqb (worker_status_position a) (worker_status_position b);
  agrees = λ a b. (worker_status_injective a b, λ p. rw p (eqb_refl (worker_status_position b)));
}

pub data WorkerAlertType : Type 0 where
  celery_retry_exhausted : WorkerAlertType

abbrev pub worker_alert_type_value : WorkerAlertType → String
worker_alert_type_value WorkerAlertType.celery_retry_exhausted = "CELERY_RETRY_EXHAUSTED"

instance abbrev pub worker_alert_type_str : StrEnum WorkerAlertType
worker_alert_type_str = record { value = worker_alert_type_value }

abbrev pub worker_alert_type_position : WorkerAlertType → ℕ
worker_alert_type_position WorkerAlertType.celery_retry_exhausted = 0

pub worker_alert_type_injective :
    (a b : WorkerAlertType)
    → eqb (worker_alert_type_position a) (worker_alert_type_position b) ≡ true
    → a ≡ b
worker_alert_type_injective a b h = ground arith

instance abbrev pub worker_alert_type_eq : Eq WorkerAlertType
worker_alert_type_eq = record {
  test = λ a b. eqb (worker_alert_type_position a) (worker_alert_type_position b);
  agrees =
      λ a b. (worker_alert_type_injective a b, λ p. rw p (eqb_refl (worker_alert_type_position b)));
}

pub data AlertSeverity : Type 0 where
  warning error : AlertSeverity

abbrev pub alert_severity_value : AlertSeverity → String
alert_severity_value AlertSeverity.warning = "WARNING"
alert_severity_value AlertSeverity.error = "ERROR"

instance abbrev pub alert_severity_str : StrEnum AlertSeverity
alert_severity_str = record { value = alert_severity_value }

abbrev pub alert_severity_position : AlertSeverity → ℕ
alert_severity_position AlertSeverity.warning = 0
alert_severity_position AlertSeverity.error = 1

pub alert_severity_injective :
    (a b : AlertSeverity)
    → eqb (alert_severity_position a) (alert_severity_position b) ≡ true
    → a ≡ b
alert_severity_injective a b h = ground arith

instance abbrev pub alert_severity_eq : Eq AlertSeverity
alert_severity_eq = record {
  test = λ a b. eqb (alert_severity_position a) (alert_severity_position b);
  agrees = λ a b. (alert_severity_injective a b, λ p. rw p (eqb_refl (alert_severity_position b)));
}

pub data TaskStatus : Type 0 where
  pending scheduled running success failed canceled : TaskStatus

abbrev pub task_status_value : TaskStatus → String
task_status_value TaskStatus.pending = "PENDING"
task_status_value TaskStatus.scheduled = "SCHEDULED"
task_status_value TaskStatus.running = "RUNNING"
task_status_value TaskStatus.success = "SUCCESS"
task_status_value TaskStatus.failed = "FAILED"
task_status_value TaskStatus.canceled = "CANCELED"

instance abbrev pub task_status_str : StrEnum TaskStatus
task_status_str = record { value = task_status_value }

abbrev pub task_status_position : TaskStatus → ℕ
task_status_position TaskStatus.pending = 0
task_status_position TaskStatus.scheduled = 1
task_status_position TaskStatus.running = 2
task_status_position TaskStatus.success = 3
task_status_position TaskStatus.failed = 4
task_status_position TaskStatus.canceled = 5

pub task_status_injective :
    (a b : TaskStatus) → eqb (task_status_position a) (task_status_position b) ≡ true → a ≡ b
task_status_injective a b h = ground arith

instance abbrev pub task_status_eq : Eq TaskStatus
task_status_eq = record {
  test = λ a b. eqb (task_status_position a) (task_status_position b);
  agrees = λ a b. (task_status_injective a b, λ p. rw p (eqb_refl (task_status_position b)));
}

pub data SubtaskStatus : Type 0 where
  waiting ready dispatched running success failed retrying canceled : SubtaskStatus

abbrev pub subtask_status_value : SubtaskStatus → String
subtask_status_value SubtaskStatus.waiting = "WAITING"
subtask_status_value SubtaskStatus.ready = "READY"
subtask_status_value SubtaskStatus.dispatched = "DISPATCHED"
subtask_status_value SubtaskStatus.running = "RUNNING"
subtask_status_value SubtaskStatus.success = "SUCCESS"
subtask_status_value SubtaskStatus.failed = "FAILED"
subtask_status_value SubtaskStatus.retrying = "RETRYING"
subtask_status_value SubtaskStatus.canceled = "CANCELED"

instance abbrev pub subtask_status_str : StrEnum SubtaskStatus
subtask_status_str = record { value = subtask_status_value }

abbrev pub subtask_status_position : SubtaskStatus → ℕ
subtask_status_position SubtaskStatus.waiting = 0
subtask_status_position SubtaskStatus.ready = 1
subtask_status_position SubtaskStatus.dispatched = 2
subtask_status_position SubtaskStatus.running = 3
subtask_status_position SubtaskStatus.success = 4
subtask_status_position SubtaskStatus.failed = 5
subtask_status_position SubtaskStatus.retrying = 6
subtask_status_position SubtaskStatus.canceled = 7

pub subtask_status_injective :
    (a b : SubtaskStatus)
    → eqb (subtask_status_position a) (subtask_status_position b) ≡ true
    → a ≡ b
subtask_status_injective a b h = ground arith

instance abbrev pub subtask_status_eq : Eq SubtaskStatus
subtask_status_eq = record {
  test = λ a b. eqb (subtask_status_position a) (subtask_status_position b);
  agrees = λ a b. (subtask_status_injective a b, λ p. rw p (eqb_refl (subtask_status_position b)));
}

pub data SubtaskExecutionConstraint : Type 0 where
  offloadable local_only edge_only : SubtaskExecutionConstraint

abbrev pub subtask_execution_constraint_value : SubtaskExecutionConstraint → String
subtask_execution_constraint_value SubtaskExecutionConstraint.offloadable = "OFFLOADABLE"
subtask_execution_constraint_value SubtaskExecutionConstraint.local_only = "LOCAL_ONLY"
subtask_execution_constraint_value SubtaskExecutionConstraint.edge_only = "EDGE_ONLY"

instance abbrev pub subtask_execution_constraint_str : StrEnum SubtaskExecutionConstraint
subtask_execution_constraint_str = record { value = subtask_execution_constraint_value }

abbrev pub subtask_execution_constraint_position : SubtaskExecutionConstraint → ℕ
subtask_execution_constraint_position SubtaskExecutionConstraint.offloadable = 0
subtask_execution_constraint_position SubtaskExecutionConstraint.local_only = 1
subtask_execution_constraint_position SubtaskExecutionConstraint.edge_only = 2

pub subtask_execution_constraint_injective :
    (a b : SubtaskExecutionConstraint)
    → eqb (subtask_execution_constraint_position a) (subtask_execution_constraint_position b) ≡ true
    → a ≡ b
subtask_execution_constraint_injective a b h = ground arith

instance abbrev pub subtask_execution_constraint_eq : Eq SubtaskExecutionConstraint
subtask_execution_constraint_eq = record {
  test = λ a b.
      eqb (subtask_execution_constraint_position a) (subtask_execution_constraint_position b);
  agrees = λ a b. (
    subtask_execution_constraint_injective a b,
    λ p. rw p (eqb_refl (subtask_execution_constraint_position b)),
  );
}

pub data SchedulePlanStatus : Type 0 where
  generated applied canceled : SchedulePlanStatus

abbrev pub schedule_plan_status_value : SchedulePlanStatus → String
schedule_plan_status_value SchedulePlanStatus.generated = "GENERATED"
schedule_plan_status_value SchedulePlanStatus.applied = "APPLIED"
schedule_plan_status_value SchedulePlanStatus.canceled = "CANCELED"

instance abbrev pub schedule_plan_status_str : StrEnum SchedulePlanStatus
schedule_plan_status_str = record { value = schedule_plan_status_value }

abbrev pub schedule_plan_status_position : SchedulePlanStatus → ℕ
schedule_plan_status_position SchedulePlanStatus.generated = 0
schedule_plan_status_position SchedulePlanStatus.applied = 1
schedule_plan_status_position SchedulePlanStatus.canceled = 2

pub schedule_plan_status_injective :
    (a b : SchedulePlanStatus)
    → eqb (schedule_plan_status_position a) (schedule_plan_status_position b) ≡ true
    → a ≡ b
schedule_plan_status_injective a b h = ground arith

instance abbrev pub schedule_plan_status_eq : Eq SchedulePlanStatus
schedule_plan_status_eq = record {
  test = λ a b. eqb (schedule_plan_status_position a) (schedule_plan_status_position b);
  agrees = λ a b.
      (schedule_plan_status_injective a b, λ p. rw p (eqb_refl (schedule_plan_status_position b)));
}

pub data ExecutionStatus : Type 0 where
  running success failed timeout canceled : ExecutionStatus

abbrev pub execution_status_value : ExecutionStatus → String
execution_status_value ExecutionStatus.running = "RUNNING"
execution_status_value ExecutionStatus.success = "SUCCESS"
execution_status_value ExecutionStatus.failed = "FAILED"
execution_status_value ExecutionStatus.timeout = "TIMEOUT"
execution_status_value ExecutionStatus.canceled = "CANCELED"

instance abbrev pub execution_status_str : StrEnum ExecutionStatus
execution_status_str = record { value = execution_status_value }

abbrev pub execution_status_position : ExecutionStatus → ℕ
execution_status_position ExecutionStatus.running = 0
execution_status_position ExecutionStatus.success = 1
execution_status_position ExecutionStatus.failed = 2
execution_status_position ExecutionStatus.timeout = 3
execution_status_position ExecutionStatus.canceled = 4

pub execution_status_injective :
    (a b : ExecutionStatus)
    → eqb (execution_status_position a) (execution_status_position b) ≡ true
    → a ≡ b
execution_status_injective a b h = ground arith

instance abbrev pub execution_status_eq : Eq ExecutionStatus
execution_status_eq = record {
  test = λ a b. eqb (execution_status_position a) (execution_status_position b);
  agrees =
      λ a b. (execution_status_injective a b, λ p. rw p (eqb_refl (execution_status_position b)));
}

pub data SchedulerStrategyName : Type 0 where
  local_only random_offload greedy : SchedulerStrategyName

abbrev pub scheduler_strategy_name_value : SchedulerStrategyName → String
scheduler_strategy_name_value SchedulerStrategyName.local_only = "local_only"
scheduler_strategy_name_value SchedulerStrategyName.random_offload = "random_offload"
scheduler_strategy_name_value SchedulerStrategyName.greedy = "greedy"

instance abbrev pub scheduler_strategy_name_str : StrEnum SchedulerStrategyName
scheduler_strategy_name_str = record { value = scheduler_strategy_name_value }

abbrev pub scheduler_strategy_name_position : SchedulerStrategyName → ℕ
scheduler_strategy_name_position SchedulerStrategyName.local_only = 0
scheduler_strategy_name_position SchedulerStrategyName.random_offload = 1
scheduler_strategy_name_position SchedulerStrategyName.greedy = 2

pub scheduler_strategy_name_injective :
    (a b : SchedulerStrategyName)
    → eqb (scheduler_strategy_name_position a) (scheduler_strategy_name_position b) ≡ true
    → a ≡ b
scheduler_strategy_name_injective a b h = ground arith

instance abbrev pub scheduler_strategy_name_eq : Eq SchedulerStrategyName
scheduler_strategy_name_eq = record {
  test = λ a b. eqb (scheduler_strategy_name_position a) (scheduler_strategy_name_position b);
  agrees = λ a b. (
    scheduler_strategy_name_injective a b,
    λ p. rw p (eqb_refl (scheduler_strategy_name_position b)),
  );
}
