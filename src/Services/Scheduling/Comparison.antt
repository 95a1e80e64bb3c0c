-- ===== src/Services/Scheduling/Comparison.antt =====
-- `compare_strategies` of app/services/scheduling_service.py: what each strategy would plan.
use uav_dag_offload_platform.Common.{
  ℕ, String, Bool, true, false, Option, none, some, List, [], ◌∷◌, length,
}
use uav_dag_offload_platform.Common.Equality.{◌==◌}
use uav_dag_offload_platform.Common.Int.{pos}
use uav_dag_offload_platform.Domain.Enums.{
  NodeType, SchedulerStrategyName, task_status_eq, subtask_status_eq, node_type_eq,
}
use uav_dag_offload_platform.Db.Models.{Uuid}
use uav_dag_offload_platform.Db.Table.{count_where}
use uav_dag_offload_platform.Db.Store.{Store, task_key}
use uav_dag_offload_platform.Core.Errors.{
  ErrorCode, Exec, pure, raise, gets, no_schedulable_subtask, no_available_node, overflow_error,
  ◌>>=◌, ◌>>◌,
}
use uav_dag_offload_platform.Scheduler.Floats.{FloatOps}
use uav_dag_offload_platform.Scheduler.Base.{
  SchedulableSubtask, NodeSnapshot, Duration, Plan, Outcome, Object, Options,
}
use uav_dag_offload_platform.Scheduler.Offload.{RandomOps}
use uav_dag_offload_platform.Services.Unlock.{subtasks_of}
use uav_dag_offload_platform.Services.Tasks.{get_task}
use uav_dag_offload_platform.Services.Scheduling.{
  build_schedulable_subtasks, load_node_snapshots, run_strategy,
}

-- `_comparison_options`
abbrev pub comparison_options : {F : Type 0} → SchedulerStrategyName → Options F
comparison_options SchedulerStrategyName.random_offload = some (("seed", Object.int (pos 0)) ∷ [])
comparison_options _ = some []

module _ {A : Type 0} where
  -- The first of two calls that fails ends both.
  abbrev pub both : Outcome A → Outcome (List A) → Outcome (List A)
  both (Outcome.done x) (Outcome.done xs) = Outcome.done (x ∷ xs)
  both Outcome.no_schedulable_subtask rest = Outcome.no_schedulable_subtask
  both Outcome.no_available_node rest = Outcome.no_available_node
  both Outcome.arithmetic_error rest = Outcome.arithmetic_error
  both (Outcome.done x) rest = rest

pub record ScheduleComparisonItem (F : Type 0) : Type 0 where
  pub strategy_name : SchedulerStrategyName
  pub feasible : Bool
  pub failure_code : Option ErrorCode
  pub schedulable_subtask_count : ℕ
  pub estimated_total_duration_ms : Option Duration
  pub estimated_total_energy : Option F
  pub local_assignment_count : ℕ
  pub edge_assignment_count : ℕ

module _ {F : Type 0} where
  abbrev pub infeasible : SchedulerStrategyName → ErrorCode → ℕ → ScheduleComparisonItem F
  infeasible name code count = record {
    strategy_name = name;
    feasible = false;
    failure_code = some code;
    schedulable_subtask_count = count;
    estimated_total_duration_ms = none;
    estimated_total_energy = none;
    local_assignment_count = 0;
    edge_assignment_count = 0;
  }

  -- The item of one strategy; an arithmetic exception leaves the comparison.
  unfoldable pub comparison_item :
      SchedulerStrategyName → ℕ → Outcome (Plan F) → Outcome (ScheduleComparisonItem F)
  unfolding count_where
  comparison_item name count (Outcome.done plan) = Outcome.done (record {
    strategy_name = name;
    feasible = true;
    failure_code = none;
    schedulable_subtask_count = count;
    estimated_total_duration_ms = some plan.estimated_total_duration_ms;
    estimated_total_energy = some plan.estimated_total_energy;
    local_assignment_count = count_where (λ i. i.assigned_node_type == NodeType.uav) plan.items;
    edge_assignment_count = count_where (λ i. i.assigned_node_type == NodeType.edge) plan.items;
  })
  comparison_item name count Outcome.no_schedulable_subtask =
      Outcome.done (infeasible name no_schedulable_subtask count)
  comparison_item name count Outcome.no_available_node =
      Outcome.done (infeasible name no_available_node count)
  comparison_item name count Outcome.arithmetic_error = Outcome.arithmetic_error

module _ {F G : Type 0} ⦃f : FloatOps F⦄ (name_before : String → String → Bool)
    (random : RandomOps G) where
  -- The loop over `self.strategies.items()`.
  unfoldable pub compare_each :
      List (SchedulableSubtask F)
      → List (NodeSnapshot F)
      → List SchedulerStrategyName
      → Outcome (List (ScheduleComparisonItem F))
  unfolding run_strategy comparison_item
  compare_each subtasks nodes [] = Outcome.done []
  compare_each subtasks nodes (name ∷ names) =
      both
        (comparison_item name (length subtasks)
          (run_strategy name_before random name subtasks nodes (comparison_options name)))
        (compare_each subtasks nodes names)

  abbrev pub answered :
      Outcome (List (ScheduleComparisonItem F)) → Exec Store (List (ScheduleComparisonItem F))
  answered (Outcome.done items) = pure items
  answered _ = raise overflow_error

  unfoldable pub compare_strategies : Uuid → Exec Store (List (ScheduleComparisonItem F))
  unfolding get_task subtasks_of build_schedulable_subtasks load_node_snapshots compare_each
  compare_strategies id = do
    get_task id
    subtasks ← gets (λ s. build_schedulable_subtasks (subtasks_of id s.subtasks))
    node_snapshots ← gets load_node_snapshots
    answered (
        compare_each subtasks node_snapshots (
          SchedulerStrategyName.local_only ∷ SchedulerStrategyName.random_offload
          ∷ SchedulerStrategyName.greedy ∷ []))
