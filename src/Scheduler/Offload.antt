-- ===== src/Scheduler/Offload.antt =====
-- app/scheduler/local_only.py and random_offload.py. Python's `Random` is a parameter: its states, how
-- it is seeded, and the index that `choice` draws below a length.
use uav_dag_offload_platform.Common.{
  ℕ, zero, suc, String, Bool, ◌&&◌, Option, none, some, List, [], ◌∷◌, length, if◌then◌else◌,
}
use uav_dag_offload_platform.Common.Equality.{◌==◌}
use uav_dag_offload_platform.Common.Int.{ℤ}
use uav_dag_offload_platform.Domain.Dag.{is_empty}
use uav_dag_offload_platform.Domain.Enums.{NodeType, SchedulerStrategyName, node_type_eq}
use uav_dag_offload_platform.Db.Table.{where_}
use uav_dag_offload_platform.Scheduler.Floats.{FloatOps}
use uav_dag_offload_platform.Scheduler.Base.{
  SchedulableSubtask, NodeSnapshot, Duration, whole, infinite, Reason, PlanItem, Plan, Outcome,
  done, Object, int, float, other, Options, calculated, option_value, ◌>>=◌,
}
use uav_dag_offload_platform.Scheduler.Estimation.{
  CandidateEstimate, node_matches_constraint, float_option,
}
use uav_dag_offload_platform.Scheduler.Greedy.{
  min_of, finite_candidates, has_capacity, is_online, new_item, plan_of, item_each, duration_before,
}

-- int(transfer_duration_ms)
abbrev pub int_of : Duration → Option ℤ
int_of (whole n) = some n
int_of infinite = none

module _ {F : Type 0} ⦃f : FloatOps F⦄ where
  abbrev pub is_online_uav : NodeSnapshot F → Bool
  is_online_uav node = is_online node && (node.node_type == NodeType.uav && has_capacity node)

  -- The item of a candidate, whose transfer duration is made an int.
  abbrev pub int_item : Reason → SchedulableSubtask F → CandidateEstimate F → Outcome (PlanItem F)
  int_item reason subtask c = do
    transfer ← calculated (int_of c.transfer_duration_ms)
    done (new_item (whole transfer) reason subtask c)

  module _ (name_before : String → String → Bool) where
    unfoldable pub local_item :
        List (NodeSnapshot F) → F → SchedulableSubtask F → Outcome (PlanItem F)
    unfolding finite_candidates node_matches_constraint duration_before min_of
    local_item nodes weight subtask = do
      candidates ← finite_candidates (node_matches_constraint subtask) subtask nodes weight
      candidate ← min_of (duration_before name_before) candidates
      int_item Reason.local_only_strategy subtask candidate

    -- `LocalOnlyScheduler.generate_plan`
    unfoldable pub local_plan :
        List (SchedulableSubtask F) → List (NodeSnapshot F) → Options F → Outcome (Plan F)
    unfolding where_ float_option item_each local_item plan_of
    local_plan subtasks nodes options =
        if is_empty subtasks
        then Outcome.no_schedulable_subtask
        else let online_uavs = where_ is_online_uav nodes in
          if is_empty online_uavs then Outcome.no_available_node else do
            items ←
                item_each
                  (local_item online_uavs
                    (float_option options "energy_cost_weight" (f.literal 2 1)))
                  subtasks
            done (plan_of SchedulerStrategyName.local_only items)

-- Python's `Random` with states `G`.
pub record RandomOps (G : Type 0) : Type 0 where
  pub seeded : Option ℤ → G
  pub below : ℕ → G → ℕ × G

-- xs[i]; an IndexError ends the schedule as an arithmetic exception does.
unfoldable pub get_elem? : {A : Type 0} → List A → ℕ → Option A
get_elem? [] i = none
get_elem? (x ∷ xs) zero = some x
get_elem? (x ∷ xs) (suc i) = get_elem? xs i

-- `_seed_option`
abbrev pub seed_value : {F : Type 0} → Option (Object F) → Option ℤ
seed_value none = none
seed_value (some (int n)) = some n
seed_value (some (float x)) = none
seed_value (some other) = none

unfoldable pub seed_option : {F : Type 0} → Options F → Option ℤ
unfolding option_value
seed_option options = seed_value (option_value "seed" options)

module _ {F G : Type 0} ⦃f : FloatOps F⦄ (random : RandomOps G) where
  -- random.choice(candidates), after the test that there are any
  unfoldable pub choice : List (CandidateEstimate F) → G → Outcome (CandidateEstimate F × G)
  unfolding get_elem?
  choice [] g = Outcome.no_available_node
  choice (c ∷ cs) g =
      let (i, g') = random.below (length (c ∷ cs)) g in
      do candidate ← calculated (get_elem? (c ∷ cs) i); done (candidate, g')

  unfoldable pub random_items :
      List (NodeSnapshot F) → F → G → List (SchedulableSubtask F) → Outcome (List (PlanItem F))
  unfolding choice finite_candidates node_matches_constraint
  random_items nodes weight g [] = done []
  random_items nodes weight g (subtask ∷ subtasks) = do
    candidates ← finite_candidates (node_matches_constraint subtask) subtask nodes weight
    drawn ← choice candidates g
    item ← int_item Reason.random_offload_strategy subtask drawn.0
    items ← random_items nodes weight drawn.1 subtasks
    done (item ∷ items)

  -- `RandomOffloadScheduler.generate_plan`
  unfoldable pub random_plan :
      List (SchedulableSubtask F) → List (NodeSnapshot F) → Options F → Outcome (Plan F)
  unfolding where_ float_option random_items plan_of seed_option
  random_plan subtasks nodes options =
      if is_empty subtasks
      then Outcome.no_schedulable_subtask
      else let online_nodes = where_ (λ node. is_online node && has_capacity node) nodes in
        if is_empty online_nodes then Outcome.no_available_node else do
          items ←
              random_items online_nodes (float_option options "energy_cost_weight" (f.literal 2 1))
                (random.seeded (seed_option options)) subtasks
          done (plan_of SchedulerStrategyName.random_offload items)
