-- ===== src/Db/Migrations/Checks.antt =====
-- The check constraints that the revisions leave behind, against the enumerations of
-- app/domain/enums.py whose texts the columns hold.
use uav_dag_offload_platform.Common.{
  ◌≡◌, refl, String, true, Option, none, some, List, [], ◌∷◌, ◌++◌, if◌then◌else◌,
}
use uav_dag_offload_platform.Common.Equality.{◌==◌, string_eq}
use uav_dag_offload_platform.Domain.Dag.{contains}
use uav_dag_offload_platform.Domain.Enums.{
  StrEnum, NodeType, NodeStatus, WorkerStatus, WorkerAlertType, AlertSeverity, TaskStatus,
  SubtaskStatus, SubtaskExecutionConstraint, SchedulePlanStatus, ExecutionStatus,
  SchedulerStrategyName, node_type_str, node_status_str, worker_status_str, worker_alert_type_str,
  alert_severity_str, task_status_str, subtask_status_str, subtask_execution_constraint_str,
  schedule_plan_status_str, execution_status_str, scheduler_strategy_name_str,
}
use uav_dag_offload_platform.Db.Table.{All}
use uav_dag_offload_platform.Db.Migrations.{revisions}
use uav_dag_offload_platform.Db.Migrations.Operations.{
  Operation, Revision, Condition, Constraint, is_in, check, create_table, create_check, drop_check,
}

abbrev or_before : Option Condition → Option Condition → Option Condition
or_before none before = before
or_before (some c) before = some c

unfoldable pub check_in : String → List Constraint → Option Condition
check_in name [] = none
check_in name (check n condition ∷ constraints) =
    let rest = check_in name constraints in if n == name then some condition else rest
check_in name (c ∷ constraints) = check_in name constraints

-- The condition of a named check after these operations, if it is there.
unfoldable pub check_after : String → List Operation → Option Condition → Option Condition
unfolding check_in
check_after name [] before = before
check_after name (create_table table columns constraints ∷ ops) before =
    check_after name ops (or_before (check_in name constraints) before)
check_after name (create_check n table condition ∷ ops) before =
    check_after name ops (if n == name then some condition else before)
check_after name (drop_check n table ∷ ops) before =
    check_after name ops (if n == name then none else before)
check_after name (o ∷ ops) before = check_after name ops before

unfoldable pub upgrades : List Revision → List Operation
upgrades [] = []
upgrades (r ∷ rs) = r.upgrade ++ upgrades rs

-- The named check admits for the column just the texts of the enumeration.
pub record Admits (A : Type 0) ⦃s : StrEnum A⦄ (name field : String) : Type 0 where
  pub texts : List String
  pub checked : check_after name (upgrades revisions) none ≡ some (is_in field texts)
  pub every_member : (a : A) → contains texts (s.value a) ≡ true
  pub only_members : All (λ t. (a : A) × (s.value a ≡ t)) texts

pub record ChecksEnumerations : Type 0 where
  pub node_types : Admits NodeType "ck_nodes_node_type" "node_type"
  pub node_statuses : Admits NodeStatus "ck_nodes_status" "status"
  pub task_statuses : Admits TaskStatus "ck_dag_tasks_status" "status"
  pub subtask_statuses : Admits SubtaskStatus "ck_dag_subtasks_status" "status"
  pub constraints :
      Admits SubtaskExecutionConstraint "ck_dag_subtasks_execution_constraint"
        "execution_constraint"
  pub strategies : Admits SchedulerStrategyName "ck_schedule_plans_strategy_name" "strategy_name"
  pub plan_statuses : Admits SchedulePlanStatus "ck_schedule_plans_status" "status"
  pub execution_statuses : Admits ExecutionStatus "ck_execution_records_status" "status"
  pub worker_statuses : Admits WorkerStatus "ck_worker_heartbeats_status" "status"
  pub alert_types : Admits WorkerAlertType "ck_worker_alerts_alert_type" "alert_type"
  pub severities : Admits AlertSeverity "ck_worker_alerts_severity" "severity"

node_types-Admits : Admits NodeType "ck_nodes_node_type" "node_type"
unfolding check_after upgrades contains
node_types-Admits = record {
  texts = "UAV" ∷ "EDGE" ∷ [];
  checked = refl;
  every_member = elim [ NodeType.uav ↦ refl | NodeType.edge ↦ refl ];
  only_members = ((NodeType.uav, refl), ((NodeType.edge, refl), tt));
}

node_statuses-Admits : Admits NodeStatus "ck_nodes_status" "status"
unfolding check_after upgrades contains
node_statuses-Admits = record {
  texts = "ONLINE" ∷ "BUSY" ∷ "OFFLINE" ∷ [];
  checked = refl;
  every_member = elim [
    | NodeStatus.online ↦ refl
    | NodeStatus.busy ↦ refl
    | NodeStatus.offline ↦ refl
  ];
  only_members =
      ((NodeStatus.online, refl), ((NodeStatus.busy, refl), ((NodeStatus.offline, refl), tt)));
}

task_statuses-Admits : Admits TaskStatus "ck_dag_tasks_status" "status"
unfolding check_after upgrades contains
task_statuses-Admits = record {
  texts = "PENDING" ∷ "SCHEDULED" ∷ "RUNNING" ∷ "SUCCESS" ∷ "FAILED" ∷ "CANCELED" ∷ [];
  checked = refl;
  every_member = elim [
    | TaskStatus.pending ↦ refl
    | TaskStatus.scheduled ↦ refl
    | TaskStatus.running ↦ refl
    | TaskStatus.success ↦ refl
    | TaskStatus.failed ↦ refl
    | TaskStatus.canceled ↦ refl
  ];
  only_members = (
    (TaskStatus.pending, refl),
    (
      (TaskStatus.scheduled, refl),
      (
        (TaskStatus.running, refl),
        (
          (TaskStatus.success, refl),
          ((TaskStatus.failed, refl), ((TaskStatus.canceled, refl), tt)),
        ),
      ),
    ),
  );
}

subtask_statuses-Admits : Admits SubtaskStatus "ck_dag_subtasks_status" "status"
unfolding check_after upgrades contains
subtask_statuses-Admits = record {
  texts =
      "WAITING" ∷ "READY" ∷ "DISPATCHED" ∷ "RUNNING" ∷ "SUCCESS" ∷ "FAILED" ∷ "RETRYING"
      ∷ "CANCELED" ∷ [];
  checked = refl;
  every_member = elim [
    | SubtaskStatus.waiting ↦ refl
    | SubtaskStatus.ready ↦ refl
    | SubtaskStatus.dispatched ↦ refl
    | SubtaskStatus.running ↦ refl
    | SubtaskStatus.success ↦ refl
    | SubtaskStatus.failed ↦ refl
    | SubtaskStatus.retrying ↦ refl
    | SubtaskStatus.canceled ↦ refl
  ];
  only_members = (
    (SubtaskStatus.waiting, refl),
    (
      (SubtaskStatus.ready, refl),
      (
        (SubtaskStatus.dispatched, refl),
        (
          (SubtaskStatus.running, refl),
          (
            (SubtaskStatus.success, refl),
            (
              (SubtaskStatus.failed, refl),
              ((SubtaskStatus.retrying, refl), ((SubtaskStatus.canceled, refl), tt)),
            ),
          ),
        ),
      ),
    ),
  );
}

constraints-Admits :
    Admits SubtaskExecutionConstraint "ck_dag_subtasks_execution_constraint" "execution_constraint"
unfolding check_after upgrades contains
constraints-Admits = record {
  texts = "OFFLOADABLE" ∷ "LOCAL_ONLY" ∷ "EDGE_ONLY" ∷ [];
  checked = refl;
  every_member = elim [
    | SubtaskExecutionConstraint.offloadable ↦ refl
    | SubtaskExecutionConstraint.local_only ↦ refl
    | SubtaskExecutionConstraint.edge_only ↦ refl
  ];
  only_members = (
    (SubtaskExecutionConstraint.offloadable, refl),
    (
      (SubtaskExecutionConstraint.local_only, refl),
      ((SubtaskExecutionConstraint.edge_only, refl), tt),
    ),
  );
}

strategies-Admits : Admits SchedulerStrategyName "ck_schedule_plans_strategy_name" "strategy_name"
unfolding check_after upgrades contains
strategies-Admits = record {
  texts = "local_only" ∷ "random_offload" ∷ "greedy" ∷ [];
  checked = refl;
  every_member = elim [
    | SchedulerStrategyName.local_only ↦ refl
    | SchedulerStrategyName.random_offload ↦ refl
    | SchedulerStrategyName.greedy ↦ refl
  ];
  only_members = (
    (SchedulerStrategyName.local_only, refl),
    ((SchedulerStrategyName.random_offload, refl), ((SchedulerStrategyName.greedy, refl), tt)),
  );
}

plan_statuses-Admits : Admits SchedulePlanStatus "ck_schedule_plans_status" "status"
unfolding check_after upgrades contains
plan_statuses-Admits = record {
  texts = "GENERATED" ∷ "APPLIED" ∷ "CANCELED" ∷ [];
  checked = refl;
  every_member = elim [
    | SchedulePlanStatus.generated ↦ refl
    | SchedulePlanStatus.applied ↦ refl
    | SchedulePlanStatus.canceled ↦ refl
  ];
  only_members = (
    (SchedulePlanStatus.generated, refl),
    ((SchedulePlanStatus.applied, refl), ((SchedulePlanStatus.canceled, refl), tt)),
  );
}

execution_statuses-Admits : Admits ExecutionStatus "ck_execution_records_status" "status"
unfolding check_after upgrades contains
execution_statuses-Admits = record {
  texts = "RUNNING" ∷ "SUCCESS" ∷ "FAILED" ∷ "TIMEOUT" ∷ "CANCELED" ∷ [];
  checked = refl;
  every_member = elim [
    | ExecutionStatus.running ↦ refl
    | ExecutionStatus.success ↦ refl
    | ExecutionStatus.failed ↦ refl
    | ExecutionStatus.timeout ↦ refl
    | ExecutionStatus.canceled ↦ refl
  ];
  only_members = (
    (ExecutionStatus.running, refl),
    (
      (ExecutionStatus.success, refl),
      (
        (ExecutionStatus.failed, refl),
        ((ExecutionStatus.timeout, refl), ((ExecutionStatus.canceled, refl), tt)),
      ),
    ),
  );
}

worker_statuses-Admits : Admits WorkerStatus "ck_worker_heartbeats_status" "status"
unfolding check_after upgrades contains
worker_statuses-Admits = record {
  texts = "ONLINE" ∷ "BUSY" ∷ [];
  checked = refl;
  every_member = elim [ WorkerStatus.online ↦ refl | WorkerStatus.busy ↦ refl ];
  only_members = ((WorkerStatus.online, refl), ((WorkerStatus.busy, refl), tt));
}

alert_types-Admits : Admits WorkerAlertType "ck_worker_alerts_alert_type" "alert_type"
unfolding check_after upgrades contains
alert_types-Admits = record {
  texts = "CELERY_RETRY_EXHAUSTED" ∷ [];
  checked = refl;
  every_member = elim [ WorkerAlertType.celery_retry_exhausted ↦ refl ];
  only_members = ((WorkerAlertType.celery_retry_exhausted, refl), tt);
}

severities-Admits : Admits AlertSeverity "ck_worker_alerts_severity" "severity"
unfolding check_after upgrades contains
severities-Admits = record {
  texts = "WARNING" ∷ "ERROR" ∷ [];
  checked = refl;
  every_member = elim [ AlertSeverity.warning ↦ refl | AlertSeverity.error ↦ refl ];
  only_members = ((AlertSeverity.warning, refl), ((AlertSeverity.error, refl), tt));
}

-- After all revisions each status, type, constraint and strategy column admits just the texts of its
-- enumeration: no member is refused by the database, and no text that is not a member gets in.
pub revisions-ChecksEnumerations : ChecksEnumerations
revisions-ChecksEnumerations = record {
  node_types = node_types-Admits;
  node_statuses = node_statuses-Admits;
  task_statuses = task_statuses-Admits;
  subtask_statuses = subtask_statuses-Admits;
  constraints = constraints-Admits;
  strategies = strategies-Admits;
  plan_statuses = plan_statuses-Admits;
  execution_statuses = execution_statuses-Admits;
  worker_statuses = worker_statuses-Admits;
  alert_types = alert_types-Admits;
  severities = severities-Admits;
}
