-- ===== src/Scheduler/Greedy.antt =====
-- app/scheduler/greedy.py and local_only.py: for each subtask the least of its finite candidates.
-- Comparing node names is a parameter.
use uav_dag_offload_platform.Common.{
  ℕ, String, Bool, not, ◌&&◌, ◌||◌, Option, none, some, List, [], ◌∷◌, map, ltb, eqb, if◌then◌else◌,
}
use uav_dag_offload_platform.Common.Equality.{◌==◌}
use uav_dag_offload_platform.Common.Int.{pos, ltb_ℤ, ◌+ℤ◌}
use uav_dag_offload_platform.Domain.Dag.{is_empty}
use uav_dag_offload_platform.Domain.Enums.{
  NodeStatus, SchedulerStrategyName, node_type_eq, node_status_eq,
}
use uav_dag_offload_platform.Db.Table.{where_}
use uav_dag_offload_platform.Scheduler.Floats.{FloatOps}
use uav_dag_offload_platform.Scheduler.Base.{
  SchedulableSubtask, NodeSnapshot, Duration, whole, infinite, Reason, PlanItem, Plan, Outcome,
  done, Options, calculated, ◌>>=◌,
}
use uav_dag_offload_platform.Scheduler.Estimation.{
  CandidateEstimate, node_matches_constraint, estimate_candidate, float_option,
}

-- min(xs, key=...): the first of the least ones, by a test on the keys.
unfoldable pub min_from : {A : Type 0} → (A → A → Bool) → A → List A → A
min_from before best [] = best
min_from before best (x ∷ xs) = min_from before (if before x best then x else best) xs

unfoldable pub min_of : {A : Type 0} → (A → A → Bool) → List A → Outcome A
unfolding min_from
min_of before [] = Outcome.no_available_node
min_of before (x ∷ xs) = done (min_from before x xs)

-- value or 0
abbrev pub or_zero : Option ℕ → ℕ
or_zero none = 0
or_zero (some n) = n

unfoldable pub add_duration : Duration → Duration → Duration
unfolding ◌+ℤ◌
add_duration (whole a) (whole b) = whole (a +ℤ b)
add_duration _ _ = infinite

module _ {F : Type 0} ⦃f : FloatOps F⦄ where
  -- estimate_candidate for each of the nodes
  unfoldable pub estimate_each :
      SchedulableSubtask F → List (NodeSnapshot F) → F → Outcome (List (CandidateEstimate F))
  unfolding estimate_candidate
  estimate_each subtask [] weight = done []
  estimate_each subtask (node ∷ nodes) weight = do
    candidate ← calculated (estimate_candidate subtask node weight)
    candidates ← estimate_each subtask nodes weight
    done (candidate ∷ candidates)

  -- Both comprehensions: the estimates of the nodes that pass, without those of infinite score.
  unfoldable pub finite_candidates :
      (NodeSnapshot F → Bool)
      → SchedulableSubtask F
      → List (NodeSnapshot F)
      → F
      → Outcome (List (CandidateEstimate F))
  unfolding where_ estimate_each
  finite_candidates passes subtask nodes weight = do
    candidates ← estimate_each subtask (where_ passes nodes) weight
    done (where_ (λ c. f.isfinite c.score) candidates)

  abbrev pub has_capacity : NodeSnapshot F → Bool
  has_capacity node = f.lt (f.literal 0 0) node.cpu_capacity

  abbrev pub is_online : NodeSnapshot F → Bool
  is_online node = node.status == NodeStatus.online

  abbrev pub new_item : Duration → Reason → SchedulableSubtask F → CandidateEstimate F → PlanItem F
  new_item transfer reason subtask candidate = record {
    subtask_id = subtask.id;
    subtask_external_id = subtask.external_id;
    assigned_node_id = candidate.node.id;
    assigned_node_name = candidate.node.name;
    assigned_node_type = candidate.node.node_type;
    estimated_compute_duration_ms = candidate.compute_duration_ms;
    estimated_transfer_duration_ms = transfer;
    estimated_energy = f.round_4 candidate.energy;
    decision_reason = reason;
  }

  -- sum(compute + transfer for item in items)
  unfoldable pub total_duration : List (PlanItem F) → Duration
  unfolding add_duration
  total_duration [] = whole (pos 0)
  total_duration (item ∷ items) =
      add_duration
        (add_duration (whole item.estimated_compute_duration_ms)
          item.estimated_transfer_duration_ms)
        (total_duration items)

  unfoldable pub plan_of : SchedulerStrategyName → List (PlanItem F) → Plan F
  unfolding total_duration
  plan_of name items = record {
    strategy_name = name;
    items = items;
    estimated_total_duration_ms = total_duration items;
    estimated_total_energy = f.round_4 (f.sum (map (λ item. item.estimated_energy) items));
  }

  -- for subtask in subtasks: items.append(...)
  unfoldable pub item_each :
      (SchedulableSubtask F → Outcome (PlanItem F))
      → List (SchedulableSubtask F)
      → Outcome (List (PlanItem F))
  item_each item_for [] = done []
  item_each item_for (subtask ∷ subtasks) = do
    item ← item_for subtask
    items ← item_each item_for subtasks
    done (item ∷ items)

  -- The end of both keys: queue length, load and name.
  module _ (name_before : String → String → Bool) where
    abbrev pub node_before : NodeSnapshot F → NodeSnapshot F → Bool
    node_before a b =
        ltb (or_zero a.queue_length) (or_zero b.queue_length)
        || (eqb (or_zero a.queue_length) (or_zero b.queue_length)
            && (ltb (or_zero a.current_load) (or_zero b.current_load)
                || (eqb (or_zero a.current_load) (or_zero b.current_load)
                    && name_before a.name b.name)))

    unfoldable pub score_before : CandidateEstimate F → CandidateEstimate F → Bool
    score_before a b = f.lt a.score b.score || (f.same a.score b.score && node_before a.node b.node)

    unfoldable pub duration_before : CandidateEstimate F → CandidateEstimate F → Bool
    duration_before a b =
        ltb_ℤ a.compute_duration_ms b.compute_duration_ms
        || (not (ltb_ℤ b.compute_duration_ms a.compute_duration_ms) && node_before a.node b.node)

    -- `GreedyScheduler._select_best_candidate`
    unfoldable pub select_best_candidate :
        SchedulableSubtask F → List (NodeSnapshot F) → F → Outcome (CandidateEstimate F)
    unfolding finite_candidates node_matches_constraint score_before min_of
    select_best_candidate subtask nodes weight = do
      candidates ←
          finite_candidates (λ node. has_capacity node && node_matches_constraint subtask node)
            subtask nodes weight
      min_of score_before candidates

    unfoldable pub greedy_item :
        List (NodeSnapshot F) → F → SchedulableSubtask F → Outcome (PlanItem F)
    unfolding select_best_candidate
    greedy_item nodes weight subtask = do
      c ← select_best_candidate subtask nodes weight
      done (
          new_item c.transfer_duration_ms
            (Reason.lowest_estimated_cost c.compute_duration_ms c.transfer_duration_ms) subtask c)

    -- `GreedyScheduler.generate_plan`
    unfoldable pub greedy_plan :
        List (SchedulableSubtask F) → List (NodeSnapshot F) → Options F → Outcome (Plan F)
    unfolding where_ float_option item_each greedy_item plan_of
    greedy_plan subtasks nodes options =
        if is_empty subtasks
        then Outcome.no_schedulable_subtask
        else let online_nodes = where_ is_online nodes in
          if is_empty online_nodes then Outcome.no_available_node else do
            items ←
                item_each
                  (greedy_item online_nodes
                    (float_option options "energy_cost_weight" (f.literal 2 1)))
                  subtasks
            done (plan_of SchedulerStrategyName.greedy items)
