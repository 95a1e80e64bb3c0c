-- ===== src/Services/Scheduling/Assigned.antt =====
-- What a plan promises, whichever strategy made it.
use uav_dag_offload_platform.Common.{◌≡◌, String, Bool, true, ◌&&◌, List, [], ◌∷◌, arith}
use uav_dag_offload_platform.Domain.Enums.{SchedulerStrategyName}
use uav_dag_offload_platform.Scheduler.Floats.{FloatOps}
use uav_dag_offload_platform.Scheduler.Base.{
  SchedulableSubtask, NodeSnapshot, PlanItem, Plan, done, Options,
}
use uav_dag_offload_platform.Scheduler.Greedy.{is_online, has_capacity}
use uav_dag_offload_platform.Scheduler.Offload.{RandomOps, is_online_uav}
use uav_dag_offload_platform.Scheduler.Choice.{Pairs}
use uav_dag_offload_platform.Scheduler.Plans.{
  Assigns, greedy_plan-Assigns, local_plan-Assigns, random_plan-Assigns,
}
use uav_dag_offload_platform.Services.Scheduling.{run_strategy}

module _ {A B : Type 0} where
  Pairs-map :
      (R S : A → B → Type 0)
      → ((a : A) (b : B) → R a b → S a b)
      → (xs : List A) (ys : List B) → Pairs R xs ys
      → Pairs S xs ys
  Pairs-map R S f [] [] pairs = tt
  Pairs-map R S f (x ∷ xs) (y ∷ ys) pairs = (f x y pairs.0, Pairs-map R S f xs ys pairs.1)
  Pairs-map R S f [] (y ∷ ys) pairs = absurd pairs
  Pairs-map R S f (x ∷ xs) [] pairs = absurd pairs

module _ {F G : Type 0} ⦃f : FloatOps F⦄ (name_before : String → String → Bool)
    (random : RandomOps G) where
  Assigns-weaker :
      (passes weaker : NodeSnapshot F → Bool) (nodes : List (NodeSnapshot F))
      → ((node : NodeSnapshot F) → passes node ≡ true → weaker node ≡ true)
      → (s : SchedulableSubtask F) (i : PlanItem F) → Assigns passes nodes s i
      → Assigns weaker nodes s i
  Assigns-weaker passes weaker nodes implied s i (node, m, passed, fits, id, node_id, node_type) =
      (node, m, implied node passed, fits, id, node_id, node_type)

  -- A plan of any strategy has one item for each subtask, in their order, whose node is one of those
  -- given, online, of positive capacity, and allowed by the subtask's constraint.
  pub run_strategy-Assigns :
      (name : SchedulerStrategyName) (subtasks : List (SchedulableSubtask F))
      (nodes : List (NodeSnapshot F)) (options : Options F) (plan : Plan F)
      → run_strategy name_before random name subtasks nodes options ≡ done plan
      → Pairs (Assigns (λ node. is_online node && has_capacity node) nodes) subtasks plan.items
  unfolding run_strategy
  run_strategy-Assigns SchedulerStrategyName.local_only subtasks nodes options plan h =
      Pairs-map (Assigns is_online_uav nodes)
        (Assigns (λ node. is_online node && has_capacity node) nodes)
        (Assigns-weaker is_online_uav (λ node. is_online node && has_capacity node) nodes
          (λ node p. ground (arith, p)))
        subtasks plan.items (local_plan-Assigns name_before subtasks nodes options plan h)
  run_strategy-Assigns SchedulerStrategyName.random_offload subtasks nodes options plan h =
      random_plan-Assigns random subtasks nodes options plan h
  run_strategy-Assigns SchedulerStrategyName.greedy subtasks nodes options plan h =
      greedy_plan-Assigns name_before subtasks nodes options plan h
