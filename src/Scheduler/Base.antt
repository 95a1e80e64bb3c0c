-- ===== src/Scheduler/Base.antt =====
-- app/scheduler/base.py: what a strategy works on and returns. A plan's float fields are over a type
-- of floats `F`. The text of a decision's reason is kept as the values printed into it.
use uav_dag_offload_platform.Common.{ℕ, String, Option, none, some, List, [], ◌∷◌, if◌then◌else◌}
use uav_dag_offload_platform.Common.Equality.{◌==◌, string_eq}
use uav_dag_offload_platform.Common.Int.{ℤ}
use uav_dag_offload_platform.Domain.Enums.{
  NodeType, NodeStatus, SubtaskExecutionConstraint, SchedulerStrategyName,
}
use uav_dag_offload_platform.Db.Models.{Uuid}

module _ (F : Type 0) where
  pub record SchedulableSubtask : Type 0 where
    pub id : Uuid
    pub external_id : String
    pub compute_load : F
    pub input_data_size_mb : F
    pub output_data_size_mb : F
    pub execution_constraint : SubtaskExecutionConstraint

  pub record NodeSnapshot : Type 0 where
    pub id : Uuid
    pub name : String
    pub node_type : NodeType
    pub status : NodeStatus
    pub cpu_capacity : F
    pub memory_capacity_mb : ℕ
    pub cpu_usage_percent : F
    pub memory_usage_percent : F
    pub battery_level : Option F
    pub bandwidth_mbps : Option F
    pub current_load : Option ℕ
    pub queue_length : Option ℕ

-- int | float: a number of milliseconds, or `inf`.
pub data Duration : Type 0 where
  whole : ℤ → Duration
  infinite : Duration

pub data Reason : Type 0 where
  lowest_estimated_cost : ℤ → Duration → Reason
  local_only_strategy random_offload_strategy : Reason

module _ (F : Type 0) where
  pub record PlanItem : Type 0 where
    pub subtask_id : Uuid
    pub subtask_external_id : String
    pub assigned_node_id : Uuid
    pub assigned_node_name : String
    pub assigned_node_type : NodeType
    pub estimated_compute_duration_ms : ℤ
    pub estimated_transfer_duration_ms : Duration
    pub estimated_energy : F
    pub decision_reason : Reason

  pub record Plan : Type 0 where
    pub strategy_name : SchedulerStrategyName
    pub items : List PlanItem
    pub estimated_total_duration_ms : Duration
    pub estimated_total_energy : F

-- What `generate_plan` comes to: a value, one of the scheduling errors, or an arithmetic exception.
pub data Outcome (A : Type 0) : Type 0 where
  done : A → Outcome A
  no_schedulable_subtask no_available_node arithmetic_error : Outcome A

module _ {A B : Type 0} where
  infixl 10 ◌>>=◌
  abbrev pub ◌>>=◌ : Outcome A → (A → Outcome B) → Outcome B
  done a >>= k = k a
  no_schedulable_subtask >>= k = no_schedulable_subtask
  no_available_node >>= k = no_available_node
  arithmetic_error >>= k = arithmetic_error

module _ {A : Type 0} where
  abbrev pub calculated : Option A → Outcome A
  calculated none = arithmetic_error
  calculated (some a) = done a

-- The values of `options`; a bool is an int.
pub data Object (F : Type 0) : Type 0 where
  int : ℤ → Object F
  float : F → Object F
  other : Object F

abbrev pub Options : Type 0 → Type 0
Options F = Option (List (String × Object F))

unfoldable pub lookup : {A : Type 0} → String → List (String × A) → Option A
lookup key [] = none
lookup key (entry ∷ entries) = if entry.0 == key then some entry.1 else lookup key entries

-- `options is None or key not in options`, or else options[key]
unfoldable pub option_value : {F : Type 0} → String → Options F → Option (Object F)
unfolding lookup
option_value key none = none
option_value key (some entries) = lookup key entries
