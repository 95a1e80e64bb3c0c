-- ===== src/Examples/Scheduling.antt =====
-- Two nodes and two subtasks for the strategies of app/scheduler, over floats kept in thousandths.
use Prim.Native.Nat.{◌/◌}
use uav_dag_offload_platform.Common.{
  ℕ, zero, suc, ◌+◌, ◌-◌, ◌*◌, ◌≡◌, refl, String, Bool, false, ◌&&◌, Option, none, some, List, [],
  ◌∷◌, eqb, ltb, length,
}
use uav_dag_offload_platform.Common.Int.{pos, pos_part}
use uav_dag_offload_platform.Domain.Enums.{
  NodeType, NodeStatus, SubtaskExecutionConstraint, SchedulerStrategyName,
}
use uav_dag_offload_platform.Scheduler.Floats.{FloatOps}
use uav_dag_offload_platform.Scheduler.Base.{
  SchedulableSubtask, NodeSnapshot, Plan, Outcome, done, whole, infinite,
}
use uav_dag_offload_platform.Scheduler.Estimation.{CandidateEstimate, node_matches_constraint}
use uav_dag_offload_platform.Scheduler.Greedy.{
  is_online, has_capacity, finite_candidates, select_best_candidate,
}
use uav_dag_offload_platform.Scheduler.Offload.{RandomOps, is_online_uav, local_plan}
use uav_dag_offload_platform.Scheduler.Choice.{Pairs}
use uav_dag_offload_platform.Scheduler.Plans.{Assigns, local_plan-Assigns}
use uav_dag_offload_platform.Services.Scheduling.{run_strategy}
use uav_dag_offload_platform.Services.Scheduling.Assigned.{run_strategy-Assigns}

abbrev pub quotient : ℕ → ℕ → Option ℕ
quotient x zero = none
quotient x (suc y) = some (x / suc y)

abbrev digits : ℕ → ℕ → ℕ
digits n zero = n * 1000
digits n (suc zero) = n * 100
digits n (suc (suc zero)) = n * 10
digits n (suc (suc (suc places))) = n

abbrev sum_of : List ℕ → ℕ
sum_of [] = 0
sum_of (x ∷ xs) = x + sum_of xs

instance abbrev pub thousandths : FloatOps ℕ
thousandths = record {
  add = λ x y. x + y;
  sub = λ x y. x - y;
  mul = λ x y. x * y / 1000;
  div = λ x y. quotient (x * 1000) y;
  lt = ltb;
  same = eqb;
  isfinite = λ x. ltb x 1000000000000;
  inf = 1000000000000;
  literal = digits;
  of_int = λ n. pos_part n * 1000;
  div_int = λ n m. quotient (pos_part n * 1000) m;
  round = λ x. some (pos ((x + 500) / 1000));
  round_4 = λ x. x;
  sum = sum_of;
}

-- A generator that draws the last index.
abbrev last_index : RandomOps ℕ
last_index = record { seeded = λ seed. 0; below = λ n g. (n - 1, suc g) }

abbrev no_name_before : String → String → Bool
no_name_before a b = false

abbrev node : ℕ → String → NodeType → NodeStatus → NodeSnapshot ℕ
node id name node_type status = record {
  id = id;
  name = name;
  node_type = node_type;
  status = status;
  cpu_capacity = 2000000;
  memory_capacity_mb = 1024;
  cpu_usage_percent = 50000;
  memory_usage_percent = 0;
  battery_level = none;
  bandwidth_mbps = some 100000;
  current_load = none;
  queue_length = some 2;
}

abbrev nodes : List (NodeSnapshot ℕ)
nodes =
    node 1 "drone" NodeType.uav NodeStatus.online
    ∷ node 2 "edge" NodeType.edge NodeStatus.online
    ∷ node 3 "parked" NodeType.uav NodeStatus.offline
    ∷ []

abbrev subtask : ℕ → SubtaskExecutionConstraint → SchedulableSubtask ℕ
subtask id constraint = record {
  id = id;
  external_id = "detect";
  compute_load = 4000000;
  input_data_size_mb = 50000;
  output_data_size_mb = 1000;
  execution_constraint = constraint;
}

abbrev anywhere : SchedulableSubtask ℕ
anywhere = subtask 10 SubtaskExecutionConstraint.offloadable

abbrev on_the_edge : SchedulableSubtask ℕ
on_the_edge = subtask 11 SubtaskExecutionConstraint.edge_only

abbrev value_or : {A : Type 0} → A → Outcome A → A
value_or a (done b) = b
value_or a _ = a

abbrev empty_plan : SchedulerStrategyName → Plan ℕ
empty_plan name = record {
  strategy_name = name;
  items = [];
  estimated_total_duration_ms = infinite;
  estimated_total_energy = 0;
}

abbrev drawn : Plan ℕ
unfolding run_strategy
drawn = value_or (empty_plan SchedulerStrategyName.random_offload) (
    run_strategy no_name_before last_index SchedulerStrategyName.random_offload
      (anywhere ∷ on_the_edge ∷ []) nodes none)

drawn_returned :
    run_strategy no_name_before last_index SchedulerStrategyName.random_offload
      (anywhere ∷ on_the_edge ∷ [])
      nodes
      none
    ≡ done drawn
unfolding drawn run_strategy
drawn_returned = refl

run_strategy-Assigns_example :
    Pairs
      (Assigns (λ n. is_online n && has_capacity n) nodes)
      (anywhere ∷ on_the_edge ∷ [])
      drawn.items
run_strategy-Assigns_example =
    run_strategy-Assigns no_name_before last_index SchedulerStrategyName.random_offload
      (anywhere ∷ on_the_edge ∷ []) nodes none drawn drawn_returned

abbrev local : Plan ℕ
unfolding local_plan
local =
    value_or (empty_plan SchedulerStrategyName.local_only)
      (local_plan no_name_before (anywhere ∷ []) nodes none)

local_returned : local_plan no_name_before (anywhere ∷ []) nodes none ≡ done local
unfolding local local_plan
local_returned = refl

local_plan-Assigns_example : Pairs (Assigns is_online_uav nodes) (anywhere ∷ []) local.items
local_plan-Assigns_example =
    local_plan-Assigns no_name_before (anywhere ∷ []) nodes none local local_returned

-- A constraint that no node satisfies.
nowhere : local_plan no_name_before (on_the_edge ∷ []) nodes none ≡ Outcome.no_available_node
unfolding local_plan
nowhere = refl

abbrev estimate : ℕ → NodeSnapshot ℕ → ℕ → ℕ → CandidateEstimate ℕ
estimate score n ms energy = record {
  node = n;
  compute_duration_ms = pos ms;
  transfer_duration_ms = whole (pos 0);
  energy = energy;
  score = score;
}

abbrev no_estimate : CandidateEstimate ℕ
no_estimate = estimate 0 (node 1 "drone" NodeType.uav NodeStatus.online) 0 0

abbrev candidates : List (CandidateEstimate ℕ)
unfolding finite_candidates node_matches_constraint
candidates = value_or [] (
    finite_candidates (λ n. has_capacity n && node_matches_constraint anywhere n) anywhere nodes
      200)

abbrev picked : CandidateEstimate ℕ
unfolding select_best_candidate
picked = value_or no_estimate (select_best_candidate no_name_before anywhere nodes 200)

two_candidates : length candidates ≡ 3
unfolding candidates finite_candidates
two_candidates = refl
