-- ===== src/Services/Scheduling.antt =====
-- app/services/scheduling_service.py with app/repositories/schedule_repository.py: a plan for the ready
-- subtasks of a task. The strategies are those of Scheduler, over floats `F` and a random generator `G`.
pub mod Assigned
pub mod Comparison
use uav_dag_offload_platform.Common.{
  ℕ, suc, ◌+◌, String, Bool, true, false, Option, none, some, List, [], ◌∷◌, ◌++◌, map, length,
  if◌then◌else◌,
}
use uav_dag_offload_platform.Common.Equality.{◌==◌}
use uav_dag_offload_platform.Common.Int.{ℤ, pos}
use uav_dag_offload_platform.Domain.Enums.{
  TaskStatus, SubtaskStatus, NodeStatus, NodeType, SchedulePlanStatus, SchedulerStrategyName,
  task_status_eq, subtask_status_eq, node_type_eq,
}
use uav_dag_offload_platform.Domain.StateMachine.{State}
use uav_dag_offload_platform.Db.Models
use uav_dag_offload_platform.Db.Models.{Uuid, Datetime, DagTask, DagSubtask, Node, NodeStatusRecord}
use uav_dag_offload_platform.Db.Table.{where_, count_where, modify}
use uav_dag_offload_platform.Db.Store.{Store, task_key}
use uav_dag_offload_platform.Core.Errors.{
  ErrorCode, Exec, ok, pure, fail, raise, gets, task_state_conflict, no_schedulable_subtask,
  no_available_node, overflow_error, ◌>>=◌, ◌>>◌,
}
use uav_dag_offload_platform.Scheduler.Floats.{FloatOps}
use uav_dag_offload_platform.Scheduler.Base.{
  SchedulableSubtask, NodeSnapshot, Duration, PlanItem, Plan, Outcome, Object, Options,
}
use uav_dag_offload_platform.Scheduler.Greedy.{greedy_plan}
use uav_dag_offload_platform.Scheduler.Offload.{RandomOps, local_plan, random_plan, int_of}
use uav_dag_offload_platform.Services.Transitions.{transition_or_conflict}
use uav_dag_offload_platform.Services.Unlock.{subtasks_of}
use uav_dag_offload_platform.Services.Tasks.{get_task}
use uav_dag_offload_platform.Services.Nodes.{list_by_status, get_latest_status_record}

-- `_ensure_task_can_schedule`
unfoldable pub ensure_task_can_schedule : TaskStatus → Exec Store (Unit {0})
unfolding transition_or_conflict
ensure_task_can_schedule status =
    if status == TaskStatus.running
    then pure tt
    else transition_or_conflict task_state_conflict (State.task status)
        (State.task TaskStatus.scheduled)

module _ {F : Type 0} ⦃f : FloatOps F⦄ where
  -- float(value) of a column with two decimal places
  abbrev pub float_of : ℕ → F
  float_of hundredths = f.literal hundredths 2

  abbrev pub schedulable : DagSubtask → SchedulableSubtask F
  schedulable r = record {
    id = r.id;
    external_id = r.external_id;
    compute_load = float_of r.compute_load;
    input_data_size_mb = float_of r.input_data_size_mb;
    output_data_size_mb = float_of r.output_data_size_mb;
    execution_constraint = r.execution_constraint;
  }

  -- `_build_schedulable_subtasks`
  unfoldable pub build_schedulable_subtasks : List DagSubtask → List (SchedulableSubtask F)
  unfolding where_
  build_schedulable_subtasks rows =
      map schedulable (where_ (λ r. r.status == SubtaskStatus.ready) rows)

  abbrev pub float_option_of : Option ℕ → Option F
  float_option_of none = none
  float_option_of (some n) = some (float_of n)

  abbrev pub snapshot_of : Node → Option NodeStatusRecord → NodeSnapshot F
  snapshot_of node none = record {
    id = node.id;
    name = node.name;
    node_type = node.node_type;
    status = node.status;
    cpu_capacity = float_of node.cpu_capacity;
    memory_capacity_mb = node.memory_capacity_mb;
    cpu_usage_percent = f.literal 0 0;
    memory_usage_percent = f.literal 0 0;
    battery_level = none;
    bandwidth_mbps = none;
    current_load = none;
    queue_length = none;
  }
  snapshot_of node (some latest) = record {
    id = node.id;
    name = node.name;
    node_type = node.node_type;
    status = node.status;
    cpu_capacity = float_of node.cpu_capacity;
    memory_capacity_mb = node.memory_capacity_mb;
    cpu_usage_percent = float_of latest.cpu_usage;
    memory_usage_percent = float_of latest.memory_usage;
    battery_level = float_option_of latest.battery_level;
    bandwidth_mbps = float_option_of latest.bandwidth_mbps;
    current_load = latest.current_load;
    queue_length = latest.queue_length;
  }

  -- `_load_node_snapshots`
  unfoldable pub load_node_snapshots : Store → List (NodeSnapshot F)
  unfolding list_by_status get_latest_status_record
  load_node_snapshots s =
      map (λ node. snapshot_of node (get_latest_status_record node.id s.node_status_records))
        (list_by_status NodeStatus.online s.nodes)

  -- int(estimated_transfer_duration_ms), and round(x, 4) as a column with four places keeps it:
  -- `to_column` is the database's conversion.
  module _ (to_column : F → ℤ) where
    abbrev pub stored_item : Uuid → Uuid → PlanItem F → ℤ → Models.SchedulePlanItem
    stored_item id plan_id item transfer = record {
      id = id;
      plan_id = plan_id;
      subtask_id = item.subtask_id;
      assigned_node_id = item.assigned_node_id;
      estimated_compute_duration_ms = some item.estimated_compute_duration_ms;
      estimated_transfer_duration_ms = some transfer;
      estimated_energy = some (to_column item.estimated_energy);
      decision_reason = none;
    }

    abbrev pub prepend_item :
        Uuid
        → Uuid
        → PlanItem F
        → Option ℤ
        → Option (List Models.SchedulePlanItem)
        → Option (List Models.SchedulePlanItem)
    prepend_item id plan_id item (some transfer) (some rest) =
        some (stored_item id plan_id item transfer ∷ rest)
    prepend_item id plan_id item _ _ = none

    -- `none` where `int` raises an OverflowError.
    unfoldable pub stored_items :
        Uuid → Uuid → List (PlanItem F) → Option (List Models.SchedulePlanItem)
    stored_items id plan_id [] = some []
    stored_items id plan_id (item ∷ items) =
        prepend_item id plan_id item (int_of item.estimated_transfer_duration_ms)
          (stored_items (suc id) plan_id items)

    abbrev pub stored_plan : Uuid → Uuid → Datetime → Plan F → Models.SchedulePlan
    stored_plan id task_id now plan = record {
      id = id;
      task_id = task_id;
      strategy_name = plan.strategy_name;
      status = SchedulePlanStatus.generated;
      estimated_total_duration_ms = int_of plan.estimated_total_duration_ms;
      estimated_total_energy = some (to_column plan.estimated_total_energy);
      created_at = now;
      applied_at = none;
    }

    abbrev pub schedule_task_row : Datetime → DagTask → DagTask
    schedule_task_row now t = record t { status = TaskStatus.scheduled; scheduled_at = some now }

    -- The rest of `_persist_plan`; the plan gets the next id, and its items those after it.
    abbrev pub save_plan :
        Datetime → DagTask → Plan F → List Models.SchedulePlanItem → Exec Store Models.SchedulePlan
    save_plan now task plan items s =
        let saved = stored_plan s.next_uuid task.id now plan in
        (
          ok saved,
          record s {
            next_uuid = suc s.next_uuid + length items;
            tasks =
                if task.status == TaskStatus.pending
                then modify task.id (schedule_task_row now) s.tasks
                else s.tasks;
            schedule_plans = s.schedule_plans ++ saved ∷ [];
            schedule_plan_items = s.schedule_plan_items ++ items;
          },
        )

    -- `_persist_plan`
    unfoldable pub persist_plan : Datetime → DagTask → Plan F → Exec Store Models.SchedulePlan
    unfolding stored_items
    persist_plan now task plan s = elim (stored_items (suc s.next_uuid) s.next_uuid plan.items) [
      | some items ↦ save_plan now task plan items s
      | none ↦ (raise overflow_error) s
    ]

-- What became of `strategy.generate_plan`, its scheduling errors answered with status 409. An
-- arithmetic exception passes through; whatever its class, it stands as an OverflowError here.
abbrev pub plan_or_conflict : {A : Type 0} → Outcome A → Exec Store A
plan_or_conflict (Outcome.done plan) = pure plan
plan_or_conflict Outcome.no_schedulable_subtask = fail no_schedulable_subtask 409
plan_or_conflict Outcome.no_available_node = fail no_available_node 409
plan_or_conflict Outcome.arithmetic_error = raise overflow_error

module _ {F G : Type 0} ⦃f : FloatOps F⦄ (name_before : String → String → Bool)
    (random : RandomOps G) where
  -- self.strategies
  unfoldable pub run_strategy :
      SchedulerStrategyName
      → List (SchedulableSubtask F)
      → List (NodeSnapshot F)
      → Options F
      → Outcome (Plan F)
  unfolding local_plan random_plan greedy_plan
  run_strategy SchedulerStrategyName.local_only = local_plan name_before
  run_strategy SchedulerStrategyName.random_offload = random_plan random
  run_strategy SchedulerStrategyName.greedy = greedy_plan name_before

  -- `generate_plan`, for the name of a strategy: one of the enumeration, all of which have one.
  unfoldable pub generate_plan :
      (to_column : F → ℤ) (now : Datetime) (id : Uuid) (strategy_name : SchedulerStrategyName)
      (options : Options F)
      → Exec Store Models.SchedulePlan
  unfolding get_task ensure_task_can_schedule subtasks_of build_schedulable_subtasks
      load_node_snapshots run_strategy persist_plan
  generate_plan to_column now id strategy_name options = do
    task ← get_task id
    ensure_task_can_schedule task.status
    subtasks ← gets (λ s. build_schedulable_subtasks (subtasks_of id s.subtasks))
    node_snapshots ← gets load_node_snapshots
    plan ← plan_or_conflict (run_strategy strategy_name subtasks node_snapshots options)
    persist_plan to_column now task plan
