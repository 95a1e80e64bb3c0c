-- ===== src/Domain/Dag/Correct.antt =====
-- What `validate_dag` of app/domain/dag.py accepts and what it rejects.
use uav_dag_offload_platform.Common.{
  ℕ, zero, suc, ◌≤◌, ◌<◌, ◌≡◌, ◌≢◌, refl, inl, inr, true, false, Option, none, some, List, [], ◌∷◌,
  arith, length, eqb, Bool-cases, if◌then◌else◌,
}
use uav_dag_offload_platform.Common.Equality.{Eq, ◌==◌, beq_refl}
use uav_dag_offload_platform.Domain.Dag.{
  DagError, cycle, Verdict, valid, invalid, contains, check_dependencies, roots, visit,
  search_order, is_empty, validate_dag,
}
use uav_dag_offload_platform.Domain.Dag.Graph.{
  Distinct, has_edge, pending, pending-predecessor, occurrences, length-le_of_Distinct,
  Distinct-of_length, length-of_Distinct,
}
use uav_dag_offload_platform.Domain.Dag.Counts.{initial_counts}
use uav_dag_offload_platform.Domain.Dag.Loop.{IsOrdered}
use uav_dag_offload_platform.Domain.Dag.Visit.{Outcome, run-Outcome}

module _ {K : Type 0} ⦃e : Eq K⦄ where
  -- A numbering of the subtasks in which every dependency leads upwards.
  pub record Ranking (deps : List (K × K)) : Type 0 where
    pub rank : K → ℕ
    pub rises : (u v : K) → has_edge deps u v ≡ true → rank u < rank v

  -- A way along the dependencies, of one edge or more.
  pub data Reaches (deps : List (K × K)) (u : K) : K → Type 0 where
    edge : (v : K) → has_edge deps u v ≡ true → Reaches deps u v
    onward : {v : K} (w : K) → Reaches deps u v → has_edge deps v w ≡ true → Reaches deps u w

  Reaches-rises :
      {deps : List (K × K)} (r : Ranking deps) {u v : K} → Reaches deps u v → r.rank u < r.rank v
  Reaches-rises r (edge v h) = r.rises _ v h
  Reaches-rises r (onward w way h) = omega (arith, Reaches-rises r way, r.rises _ w h)

  -- Both ends of every dependency are subtasks.
  abbrev pub AllKnown : List K → List (K × K) → Type 0
  AllKnown ids deps =
      (u v : K) → has_edge deps u v ≡ true → (contains ids u ≡ true) × (contains ids v ≡ true)

  check_sound :
      (ids : List K) (deps : List (K × K)) → check_dependencies ids deps ≡ none → AllKnown ids deps
  unfolding check_dependencies has_edge
  check_sound ids [] h u v i = ground arith
  check_sound ids ((a, b) ∷ rest) h u v i = ground (
    arith,
    check_sound ids rest,
    check_sound ids rest (ground arith) u v,
    e.agrees a u,
    e.agrees b v,
  )

  check_complete :
      (ids : List K) (deps : List (K × K))
      → AllKnown ids deps
      → ((u : K) → has_edge deps u u ≡ false)
      → check_dependencies ids deps ≡ none
  unfolding check_dependencies has_edge
  check_complete ids [] all loop = refl
  check_complete ids ((a, b) ∷ rest) all loop = ground (
    arith,
    all a b,
    loop a,
    beq_refl a,
    beq_refl b,
    e.agrees a b,
    e.agrees b a,
    check_complete ids rest (λ u v h. all u v (ground arith)) (λ u. ground (arith, loop u)),
  )

  -- The position from the end of the list.
  height : List K → K → ℕ
  height [] v = 0
  height (x ∷ xs) v = if x == v then length xs else height xs v

  height-lt : (xs : List K) (v : K) → contains xs v ≡ true → height xs v < length xs
  unfolding height contains
  height-lt [] v h = ground arith
  height-lt (x ∷ xs) v h = ground (arith, height-lt xs v)

  -- A task that was visited has all of its predecessors visited.
  predecessor-visited :
      (deps : List (K × K)) (done : List K) (u v : K)
      → IsOrdered deps done
      → contains done v ≡ true
      → has_edge deps u v ≡ true
      → contains done u ≡ true
  unfolding contains
  predecessor-visited deps [] u v ordered h i = ground arith
  predecessor-visited deps (x ∷ xs) u v ordered h i =
      ground (arith, predecessor-visited deps xs u v ordered.1, ordered.0 u, e.agrees x v)

  height-rises :
      (deps : List (K × K)) (done : List K) (u v : K)
      → Distinct done
      → IsOrdered deps done
      → contains done v ≡ true
      → has_edge deps u v ≡ true
      → height done u < height done v
  unfolding height contains
  height-rises deps [] u v once ordered h i = ground arith
  height-rises deps (x ∷ xs) u v once ordered h i = ground (
    arith,
    height-rises deps xs u v once.1 ordered.1,
    ordered.0 u,
    predecessor-visited deps xs u v ordered.1,
    height-lt xs u,
    height-lt xs v,
    once.0,
    e.agrees x v,
    e.agrees x u,
  )

  module _ (ids : List K) (deps : List (K × K)) (once : Distinct ids)
      (all : AllKnown ids deps) where
    outcome :
        Outcome ids deps
          (λ u v h. (all u v h).1)
          (visit (length ids) deps (initial_counts ids deps) (roots (initial_counts ids deps)) 0)
    outcome = run-Outcome ids deps (λ u v h. (all u v h).1) once

    abbrev reached : List K
    reached = outcome.done

    search_order_lem :
        search_order ids deps
        ≡ some (if eqb (length reached) (length ids) then valid else invalid cycle)
    unfolding search_order initial_counts
    search_order_lem = ground (arith, outcome.returns)

    reached-le : length reached ≤ length ids
    unfolding contains
    reached-le =
        length-le_of_Distinct reached ids outcome.inv.once_done
          (λ v h. ground (arith, outcome.inv.member v))

    -- If as many tasks were visited as there are, all were.
    reached-all :
        length reached ≡ length ids → (v : K) → contains ids v ≡ true → contains reached v ≡ true
    unfolding contains
    reached-all full v h = elim (Bool-cases (contains reached v)) [
      | inl seen ↦ seen
      | inr missed ↦ absurd (
          omega (
            arith,
            length-le_of_Distinct (v ∷ reached) ids (missed, outcome.inv.once_done)
                (λ w k. ground (arith, outcome.inv.member w, e.agrees v w)),
          ))
    ]

    Ranking-of_search : search_order ids deps ≡ some valid → Ranking deps
    Ranking-of_search h =
        let full : length reached ≡ length ids = ground (arith, search_order_lem) in
        record {
          rank = height reached;
          rises = λ u v i.
              height-rises deps reached u v outcome.inv.once_done outcome.inv.ordered
                (reached-all full v (all u v i).1) i;
        }

    -- A task that is left has a predecessor that is left, of a lower rank.
    descend :
        (r : Ranking deps) (bound : ℕ) (v : K)
        → r.rank v < bound
        → contains ids v ≡ true
        → contains reached v ≡ true
    descend r zero v h i = absurd (omega arith)
    descend r (suc bound) v h i = elim (Bool-cases (contains reached v)) [
      | inl seen ↦ seen
      | inr missed ↦
          let (u, edge_in, left) = pending-predecessor reached deps v (waits missed) in
          ground (arith, descend r bound u (omega (arith, r.rises u v edge_in)) (all u v edge_in).0)
    ]
      where
        waits : contains reached v ≡ false → 0 < pending reached deps v
        waits missed = unfold contains occurrences in ground (arith, outcome.inv.complete v i)

    search-of_Ranking : Ranking deps → search_order ids deps ≡ some valid
    search-of_Ranking r = ground (
      arith,
      search_order_lem,
      reached-le,
      length-le_of_Distinct ids reached once (λ v. descend r (suc (r.rank v)) v (omega arith)),
    )

  -- What a caller may count on of an accepted graph.
  pub record IsDag (ids : List K) (deps : List (K × K)) : Type 0 where
    pub some_subtask : is_empty ids ≡ false
    pub distinct : Distinct ids
    pub known : AllKnown ids deps
    pub ranking : Ranking deps

  abbrev order_checks : List K → List (K × K) → Option DagError → Option Verdict
  order_checks ids deps none = search_order ids deps
  order_checks ids deps (some error) = some (invalid error)

  validate_dag_lem :
      (ids : List K) (deps : List (K × K))
      → is_empty ids ≡ false
      → Distinct ids
      → validate_dag ids deps ≡ order_checks ids deps (check_dependencies ids deps)
  unfolding validate_dag
  validate_dag_lem ids deps h once = ground (arith, length-of_Distinct ids once)

  -- An accepted graph is a DAG: it has subtasks, named once each, all dependencies are between them,
  -- and in some order of the subtasks every dependency rises.
  pub validate_dag_sound :
      (ids : List K) (deps : List (K × K)) → validate_dag ids deps ≡ some valid → IsDag ids deps
  validate_dag_sound ids deps h =
      let once = Distinct-of_length ids (unfold validate_dag in ground arith) in
      let nonempty : is_empty ids ≡ false = unfold validate_dag in ground arith in
      let passed : check_dependencies ids deps ≡ none =
        ground (arith, validate_dag_lem ids deps nonempty once) in
      let all = check_sound ids deps passed in
      record {
        some_subtask = nonempty;
        distinct = once;
        known = all;
        ranking =
            Ranking-of_search ids deps once all
              (ground (arith, validate_dag_lem ids deps nonempty once));
      }

  -- Every DAG is accepted: some subtasks, named once each, known endpoints, and an order of the
  -- subtasks in which every dependency rises.
  pub validate_dag_complete :
      (ids : List K) (deps : List (K × K)) → IsDag ids deps → validate_dag ids deps ≡ some valid
  validate_dag_complete ids deps g = ground (
    arith,
    validate_dag_lem ids deps g.some_subtask g.distinct,
    check_complete ids deps g.known (λ u. ground (arith, g.ranking.rises u u)),
    search-of_Ranking ids deps g.distinct g.known g.ranking,
  )

  -- No way along the dependencies of an accepted graph leads back to where it began.
  pub validate_dag-acyclic :
      (ids : List K) (deps : List (K × K)) (v : K)
      → validate_dag ids deps ≡ some valid
      → ¬ Reaches deps v v
  validate_dag-acyclic ids deps v h way =
      omega (arith, Reaches-rises (validate_dag_sound ids deps h).ranking way)

  -- The loop never runs out of fuel: every input gets a verdict.
  pub validate_dag_total : (ids : List K) (deps : List (K × K)) → validate_dag ids deps ≢ none
  validate_dag_total ids deps h =
      let once = Distinct-of_length ids (unfold validate_dag in ground arith) in
      let nonempty : is_empty ids ≡ false = unfold validate_dag in ground arith in
      let passed : check_dependencies ids deps ≡ none =
        ground (arith, validate_dag_lem ids deps nonempty once) in
      ground (
        arith,
        validate_dag_lem ids deps nonempty once,
        search_order_lem ids deps once (check_sound ids deps passed),
      )
