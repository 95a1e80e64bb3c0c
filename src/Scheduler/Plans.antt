-- ===== src/Scheduler/Plans.antt =====
-- What a plan of each strategy promises: one item for each subtask, in their order, on a node that may
-- run it.
use uav_dag_offload_platform.Common.{
  ◌≡◌, refl, String, Bool, true, ◌&&◌, List, [], ◌∷◌, arith, length, if◌then◌else◌,
}
use uav_dag_offload_platform.Domain.Dag.{is_empty}
use uav_dag_offload_platform.Domain.Enums.{SchedulerStrategyName}
use uav_dag_offload_platform.Db.Table.{where_}
use uav_dag_offload_platform.Scheduler.Floats.{FloatOps}
use mathlib.Core.Path.{subst}
use uav_dag_offload_platform.Scheduler.Base.{
  SchedulableSubtask, NodeSnapshot, Reason, PlanItem, Plan, Outcome, done, Options, ◌>>=◌,
}
use uav_dag_offload_platform.Scheduler.Estimation.{
  CandidateEstimate, node_matches_constraint, float_option,
}
use uav_dag_offload_platform.Scheduler.Greedy.{
  min_of, finite_candidates, has_capacity, is_online, item_each, plan_of, score_before,
  duration_before, select_best_candidate, greedy_item, greedy_plan,
}
use uav_dag_offload_platform.Scheduler.Offload.{
  RandomOps, is_online_uav, int_item, local_item, local_plan, choice, random_items, random_plan,
  seed_option,
}
use uav_dag_offload_platform.Scheduler.Choice.{
  bind-eq-done, Pairs, In, In-where, get_elem?-In, min_of-In,
}
use uav_dag_offload_platform.Scheduler.Candidates.{
  done-injective, finite_candidates-In, min_of-node,
}

module _ {F : Type 0} where
  -- The item assigns the subtask to one of the nodes, which passes the test and the constraint.
  abbrev pub Assigns :
      (NodeSnapshot F → Bool) → List (NodeSnapshot F) → SchedulableSubtask F → PlanItem F → Type 0
  Assigns passes nodes subtask item =
      (node : NodeSnapshot F) × In node nodes
      × (passes node ≡ true)
      × (node_matches_constraint subtask node ≡ true)
      × (item.subtask_id ≡ subtask.id)
      × (item.assigned_node_id ≡ node.id)
      × (item.assigned_node_type ≡ node.node_type)

module _ {F : Type 0} ⦃f : FloatOps F⦄ where
  item_each-step :
      (R : SchedulableSubtask F → PlanItem F → Type 0) (s : SchedulableSubtask F)
      (ss : List (SchedulableSubtask F)) (o : Outcome (PlanItem F))
      (rest : Outcome (List (PlanItem F))) (is : List (PlanItem F))
      → ((i : PlanItem F) → o ≡ done i → R s i)
      → ((js : List (PlanItem F)) → rest ≡ done js → Pairs R ss js)
      → (o >>= λ i. rest >>= λ js. done (i ∷ js)) ≡ done is
      → Pairs R (s ∷ ss) is
  item_each-step R s ss (done i) (done js) is first others h =
      subst (Pairs R (s ∷ ss)) (done-injective h) (first i refl, others js refl)
  item_each-step R s ss _ _ is first others h = absurd (ground (arith, h))

  -- A loop whose every item is related to its subtask.
  item_each-Pairs :
      (R : SchedulableSubtask F → PlanItem F → Type 0)
      (item_for : SchedulableSubtask F → Outcome (PlanItem F))
      → ((s : SchedulableSubtask F) (i : PlanItem F) → item_for s ≡ done i → R s i)
      → (ss : List (SchedulableSubtask F)) (is : List (PlanItem F))
      → item_each item_for ss ≡ done is
      → Pairs R ss is
  unfolding item_each
  item_each-Pairs R item_for each [] is h = subst (Pairs R []) (done-injective h) tt
  item_each-Pairs R item_for each (s ∷ ss) is h =
      item_each-step R s ss (item_for s) (item_each item_for ss) is (each s)
        (item_each-Pairs R item_for each ss) h

  plan_of-items :
      (a b : Bool) (name : SchedulerStrategyName) (o : Outcome (List (PlanItem F))) (plan : Plan F)
      → (if a
          then Outcome.no_schedulable_subtask
          else if b
          then Outcome.no_available_node
          else (o >>= λ is. done (plan_of name is)))
        ≡ done plan
      → o ≡ done plan.items
  unfolding plan_of
  plan_of-items a b name o plan h = ground (arith, h)

  abbrev weight : Options F → F
  weight options = float_option options "energy_cost_weight" (f.literal 2 1)

  candidate_item-Assigns :
      (reason : Reason) (subtask : SchedulableSubtask F) (nodes : List (NodeSnapshot F))
      (weight : F) (cs : List (CandidateEstimate F)) (c : CandidateEstimate F) (item : PlanItem F)
      → finite_candidates (node_matches_constraint subtask) subtask nodes weight ≡ done cs
      → In c cs
      → int_item reason subtask c ≡ done item
      → Assigns (λ node. true) nodes subtask item
  candidate_item-Assigns reason subtask nodes weight cs c item found m made =
      let (m', passes) =
        finite_candidates-In (node_matches_constraint subtask) subtask nodes weight cs c found m in
      (c.node, m', refl, passes, ground (arith, made), ground (arith, made), ground (arith, made))

  -- Of the nodes that the strategy selected first.
  Assigns-where :
      (test passes both : NodeSnapshot F → Bool) (nodes : List (NodeSnapshot F))
      (subtask : SchedulableSubtask F) (item : PlanItem F)
      → ((node : NodeSnapshot F) → test node ≡ true → passes node ≡ true → both node ≡ true)
      → Assigns passes (where_ test nodes) subtask item
      → Assigns both nodes subtask item
  Assigns-where test passes both nodes subtask item joined
        (node, m, passed, fits, subtask_id, node_id, node_type) =
      let (m', tested) = In-where test node nodes m in
      (node, m', joined node tested passed, fits, subtask_id, node_id, node_type)

  module _ (name_before : String → String → Bool) where
    greedy_item-Assigns :
        (nodes : List (NodeSnapshot F)) (weight : F) (subtask : SchedulableSubtask F)
        (item : PlanItem F)
        → greedy_item name_before nodes weight subtask ≡ done item
        → Assigns has_capacity nodes subtask item
    unfolding greedy_item select_best_candidate
    greedy_item-Assigns nodes weight subtask item h =
        let (c, best, made) =
          bind-eq-done (select_best_candidate name_before subtask nodes weight) _ item h in
        let (m, passes) =
          min_of-node (score_before name_before)
            (λ node. has_capacity node && node_matches_constraint subtask node) subtask nodes weight
            c best in
        (
          c.node,
          m,
          ground (arith, passes),
          ground (arith, passes),
          ground (arith, made),
          ground (arith, made),
          ground (arith, made),
        )

    -- The nodes of a plan are online and have capacity; they are among those given.
    pub greedy_plan-Assigns :
        (subtasks : List (SchedulableSubtask F)) (nodes : List (NodeSnapshot F))
        (options : Options F) (plan : Plan F)
        → greedy_plan name_before subtasks nodes options ≡ done plan
        → Pairs (Assigns (λ node. is_online node && has_capacity node) nodes) subtasks plan.items
    unfolding greedy_plan
    greedy_plan-Assigns subtasks nodes options plan h =
        item_each-Pairs _ (greedy_item name_before (where_ is_online nodes) (weight options))
          (λ s i made.
            Assigns-where is_online has_capacity _ nodes s i (λ node a b. ground (arith, a, b))
              (greedy_item-Assigns (where_ is_online nodes) (weight options) s i made))
          subtasks plan.items
          (plan_of-items (is_empty subtasks) (is_empty (where_ is_online nodes))
            SchedulerStrategyName.greedy _ plan h)

    local_item-Assigns :
        (nodes : List (NodeSnapshot F)) (weight : F) (subtask : SchedulableSubtask F)
        (item : PlanItem F)
        → local_item name_before nodes weight subtask ≡ done item
        → Assigns (λ node. true) nodes subtask item
    unfolding local_item
    local_item-Assigns nodes weight subtask item h =
        let (cs, found, rest) =
          bind-eq-done (finite_candidates (node_matches_constraint subtask) subtask nodes weight) _
            item h in
        let (c, picked, made) =
          bind-eq-done (min_of (duration_before name_before) cs) _ item rest in
        candidate_item-Assigns Reason.local_only_strategy subtask nodes weight cs c item found
          (min_of-In (duration_before name_before) cs c picked) made

    -- A plan of the local-only strategy has one item for each subtask, in their order, whose node is
    -- one of those given, an online UAV of positive capacity, and allowed by the constraint.
    pub local_plan-Assigns :
        (subtasks : List (SchedulableSubtask F)) (nodes : List (NodeSnapshot F))
        (options : Options F) (plan : Plan F)
        → local_plan name_before subtasks nodes options ≡ done plan
        → Pairs (Assigns is_online_uav nodes) subtasks plan.items
    unfolding local_plan
    local_plan-Assigns subtasks nodes options plan h =
        item_each-Pairs _ (local_item name_before (where_ is_online_uav nodes) (weight options))
          (λ s i made.
            Assigns-where is_online_uav (λ _. true) _ nodes s i (λ node a b. a)
              (local_item-Assigns (where_ is_online_uav nodes) (weight options) s i made))
          subtasks plan.items
          (plan_of-items (is_empty subtasks) (is_empty (where_ is_online_uav nodes))
            SchedulerStrategyName.local_only _ plan h)

module _ {F G : Type 0} ⦃f : FloatOps F⦄ (random : RandomOps G) where
  choice-In :
      (cs : List (CandidateEstimate F)) (g g' : G) (c : CandidateEstimate F)
      → choice random cs g ≡ done (c, g')
      → In c cs
  unfolding choice
  choice-In [] g g' c h = absurd (ground (arith, h))
  choice-In (x ∷ xs) g g' c h =
      get_elem?-In (x ∷ xs) (random.below (length (x ∷ xs)) g).0 c (ground (arith, h))

  random_items-Pairs :
      (test : NodeSnapshot F → Bool) (nodes : List (NodeSnapshot F)) (weight : F) (g : G)
      (ss : List (SchedulableSubtask F)) (is : List (PlanItem F))
      → random_items random (where_ test nodes) weight g ss ≡ done is
      → Pairs (Assigns test nodes) ss is
  unfolding random_items
  random_items-Pairs test nodes weight g [] is h =
      subst (Pairs (Assigns test nodes) []) (done-injective h) tt
  random_items-Pairs test nodes weight g (s ∷ ss) is h =
      let (cs, found, h1) =
        bind-eq-done (finite_candidates (node_matches_constraint s) s (where_ test nodes) weight) _
          is h in
      let (drawn, picked, h2) = bind-eq-done (choice random cs g) _ is h1 in
      item_each-step (Assigns test nodes) s ss (int_item Reason.random_offload_strategy s drawn.0)
        (random_items random (where_ test nodes) weight drawn.1 ss) is
        (λ i made.
          Assigns-where test (λ _. true) test nodes s i (λ node a b. a)
            (candidate_item-Assigns Reason.random_offload_strategy s (where_ test nodes) weight cs
              drawn.0 i found (choice-In cs g drawn.1 drawn.0 picked) made))
        (random_items-Pairs test nodes weight drawn.1 ss) h2

  -- The nodes of a plan are online and have capacity, whatever was drawn.
  pub random_plan-Assigns :
      (subtasks : List (SchedulableSubtask F)) (nodes : List (NodeSnapshot F)) (options : Options F)
      (plan : Plan F)
      → random_plan random subtasks nodes options ≡ done plan
      → Pairs (Assigns (λ node. is_online node && has_capacity node) nodes) subtasks plan.items
  unfolding random_plan
  random_plan-Assigns subtasks nodes options plan h =
      random_items-Pairs (λ node. is_online node && has_capacity node) nodes (weight options)
        (random.seeded (seed_option options)) subtasks plan.items
        (plan_of-items (is_empty subtasks)
          (is_empty (where_ (λ node. is_online node && has_capacity node) nodes))
          SchedulerStrategyName.random_offload _ plan h)
