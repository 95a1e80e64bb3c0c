-- ===== src/Scheduler/Estimation.antt =====
-- app/scheduler/estimation.py: what an assignment of a subtask to a node costs.
use uav_dag_offload_platform.Common.{String, Bool, true, ◌||◌, Option, none, some, if◌then◌else◌}
use uav_dag_offload_platform.Common.Equality.{◌==◌}
use uav_dag_offload_platform.Common.Int.{ℤ, pos, ◌+ℤ◌}
use uav_dag_offload_platform.Domain.Enums.{
  NodeType, SubtaskExecutionConstraint, node_type_eq, subtask_execution_constraint_eq,
}
use uav_dag_offload_platform.Scheduler.Floats.{FloatOps, max_float, min_float, ◌>>=◌}
use uav_dag_offload_platform.Scheduler.Base.{
  SchedulableSubtask, NodeSnapshot, Duration, whole, infinite, Object, int, float, other, Options,
  option_value,
}

pub record CandidateEstimate (F : Type 0) : Type 0 where
  pub node : NodeSnapshot F
  pub compute_duration_ms : ℤ
  pub transfer_duration_ms : Duration
  pub energy : F
  pub score : F

unfoldable pub node_matches_constraint : {F : Type 0} → SchedulableSubtask F → NodeSnapshot F → Bool
node_matches_constraint subtask node =
    if subtask.execution_constraint == SubtaskExecutionConstraint.local_only
    then node.node_type == NodeType.uav
    else if subtask.execution_constraint == SubtaskExecutionConstraint.edge_only
    then node.node_type == NodeType.edge
    else true

module _ {F : Type 0} ⦃f : FloatOps F⦄ where
  unfoldable pub compute_duration_ms_for : SchedulableSubtask F → NodeSnapshot F → Option ℤ
  compute_duration_ms_for subtask node = do
    usage_ratio ←
        f.div (min_float (max_float node.cpu_usage_percent (f.literal 0 0)) (f.literal 95 0))
          (f.literal 100 0)
    seconds ←
        f.div subtask.compute_load (f.mul node.cpu_capacity (f.sub (f.literal 1 0) usage_ratio))
    f.round (f.mul seconds (f.literal 1000 0))

  -- round(input_data_size_mb / bandwidth * 1000), or `inf` where `bandwidth <= 0`
  abbrev pub transfer_over : F → F → Option Duration
  transfer_over size bandwidth =
      if f.lt bandwidth (f.literal 0 0) || f.same bandwidth (f.literal 0 0)
      then some infinite
      else do
        seconds ← f.div size bandwidth
        ms ← f.round (f.mul seconds (f.literal 1000 0))
        some (whole ms)

  unfoldable pub transfer_duration_ms_for : SchedulableSubtask F → NodeSnapshot F → Option Duration
  transfer_duration_ms_for subtask node =
      if node.node_type == NodeType.uav || f.same subtask.input_data_size_mb (f.literal 0 0)
      then some (whole (pos 0))
      else elim node.bandwidth_mbps [
        | none ↦ some infinite
        | some bandwidth ↦ transfer_over subtask.input_data_size_mb bandwidth
      ]

  -- ms / 1000
  abbrev pub seconds_of : Duration → Option F
  seconds_of (whole ms) = f.div_int ms 1000
  seconds_of infinite = some f.inf

  unfoldable pub estimate_energy : ℤ → Duration → NodeSnapshot F → Option F
  estimate_energy compute_duration_ms transfer_duration_ms node = do
    compute_seconds ← f.div_int compute_duration_ms 1000
    transfer_seconds ← seconds_of transfer_duration_ms
    some (
        if node.node_type == NodeType.uav
        then f.mul compute_seconds (f.literal 20 1)
        else f.add (f.mul compute_seconds (f.literal 4 1)) (f.mul transfer_seconds (f.literal 8 1)))

  -- compute_duration_ms + transfer_duration_ms
  unfoldable pub total_of : ℤ → Duration → F
  unfolding ◌+ℤ◌
  total_of compute (whole ms) = f.of_int (compute +ℤ ms)
  total_of compute infinite = f.add (f.of_int compute) f.inf

  unfoldable pub estimate_candidate :
      SchedulableSubtask F → NodeSnapshot F → F → Option (CandidateEstimate F)
  unfolding compute_duration_ms_for transfer_duration_ms_for estimate_energy total_of
  estimate_candidate subtask node energy_cost_weight = do
    compute ← compute_duration_ms_for subtask node
    transfer ← transfer_duration_ms_for subtask node
    energy ← estimate_energy compute transfer node
    some (record {
      node = node;
      compute_duration_ms = compute;
      transfer_duration_ms = transfer;
      energy = energy;
      score = f.add (total_of compute transfer) (f.mul energy_cost_weight energy);
    })

  abbrev pub number_or : F → Option (Object F) → F
  number_or default none = default
  number_or default (some (int n)) = f.of_int n
  number_or default (some (float x)) = x
  number_or default (some other) = default

  unfoldable pub float_option : Options F → String → F → F
  unfolding option_value
  float_option options key default = number_or default (option_value key options)
