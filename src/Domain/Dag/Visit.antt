-- ===== src/Domain/Dag/Visit.antt =====
-- The run of the `while queue` loop from the first queue to the last: it ends within its fuel, and
-- what it has then visited.
use uav_dag_offload_platform.Common.{
  ℕ, zero, suc, ◌+◌, ◌≤◌, ◌≡◌, refl, true, false, Option, some, List, [], ◌∷◌, arith, length,
}
use uav_dag_offload_platform.Common.Equality.{Eq, beq_refl}
use uav_dag_offload_platform.Domain.Dag.{
  Counts, contains, count_of, roots, is_zero_count, successors, release, visit,
}
use uav_dag_offload_platform.Domain.Dag.Graph.{
  Distinct, has_edge, pending, pending-cons, occurrences, contains-successors,
  length-le_of_Distinct, done_of_pending,
}
use uav_dag_offload_platform.Domain.Dag.Counts.{
  initial_counts, count_of-initial_counts, count_of-absent, contains-initial_roots,
  initial_roots-Distinct,
}
use uav_dag_offload_platform.Domain.Dag.Loop.{Inv, release_all-Inv}

module _ {K : Type 0} ⦃e : Eq K⦄ (ids : List K) (deps : List (K × K))
    (known : (u v : K) → has_edge deps u v ≡ true → contains ids v ≡ true) where
  -- Taking a task from the queue turns its outgoing edges over to the inner loop.
  pop-Inv :
      (done queue : List K) (c : K) (d : Counts K)
      → Inv ids deps done (c ∷ queue) [] d
      → Inv ids deps (c ∷ done) queue (successors c deps) d
  unfolding contains occurrences
  pop-Inv done queue c d inv = record {
    counts = λ v h. ground (arith, inv.counts v h, split v);
    member = λ v h. ground (arith, inv.member v, e.agrees c v);
    free = λ v h. ground (arith, inv.free v, split v, e.agrees c v);
    complete = λ v h z. ground (arith, inv.complete v h, split v, e.agrees c v);
    once_done = (fresh, inv.once_done);
    once_queue = inv.once_queue.1;
    apart = λ v h. ground (arith, inv.apart v, inv.once_queue.0, e.agrees c v);
    ordered = (
      λ u h. done_of_pending done deps u c h (ground (arith, inv.free c, beq_refl c)),
      inv.ordered,
    );
  }
    where
      fresh : contains done c ≡ false
      fresh = ground (arith, inv.apart c, beq_refl c)

      split :
          (v : K)
          → pending done deps v ≡ pending (c ∷ done) deps v + occurrences v (successors c deps)
      split v = pending-cons done deps c v fresh

  room :
      (done queue : List K) (c : K) (d : Counts K)
      → Inv ids deps done (c ∷ queue) [] d
      → suc (length done) ≤ length ids
  unfolding contains
  room done queue c d inv =
      length-le_of_Distinct (c ∷ done) ids (ground (arith, inv.apart c, beq_refl c), inv.once_done)
        (λ v h. ground (arith, inv.member v, e.agrees c v))

  -- Where the loop stands when the queue is empty.
  pub record Outcome (result : Option ℕ) : Type 0 where
    pub done : List K
    pub counts : Counts K
    pub returns : result ≡ some (length done)
    pub inv : Inv ids deps done [] [] counts

  visit-Outcome :
      (fuel : ℕ) (done queue : List K) (d : Counts K)
      → Inv ids deps done queue [] d
      → length ids ≤ length done + fuel
      → Outcome (visit fuel deps d queue (length done))
  unfolding visit
  visit-Outcome fuel done [] d inv enough = record {
    done = done;
    counts = d;
    returns = refl;
    inv = inv;
  }
  visit-Outcome zero done (c ∷ queue) d inv enough = absurd (omega (arith, room done queue c d inv))
  visit-Outcome (suc fuel) done (c ∷ queue) d inv enough =
      let next = release (successors c deps) d queue in
      visit-Outcome fuel (c ∷ done) next.1 next.0
        (release_all-Inv ids deps (c ∷ done) (successors c deps) queue d
          (λ s h. known c s (ground (arith, contains-successors deps c s)))
          (pop-Inv done queue c d inv))
        (omega arith)

  initial-Inv :
      Distinct ids → Inv ids deps [] (roots (initial_counts ids deps)) [] (initial_counts ids deps)
  unfolding contains occurrences
  initial-Inv once = record {
    counts = λ v h. ground (arith, count_of-initial_counts ids deps v h);
    member = λ v h. ground (arith, root v, count_of-absent ids deps v);
    free = λ v h.
        ground (arith, root v, count_of-initial_counts ids deps v, count_of-absent ids deps v);
    complete = λ v h z. ground (arith, root v, count_of-initial_counts ids deps v h);
    once_done = tt;
    once_queue = initial_roots-Distinct ids deps once;
    apart = λ v h. ground arith;
    ordered = tt;
  }
    where
      root :
          (v : K)
          → contains (roots (initial_counts ids deps)) v
            ≡ is_zero_count (count_of (initial_counts ids deps) v)
      root v = contains-initial_roots ids deps v once

  -- With as much fuel as there are subtasks the loop ends, and it has visited exactly the tasks of
  -- `done`.
  pub run-Outcome :
      Distinct ids
      → Outcome
          (visit (length ids) deps (initial_counts ids deps) (roots (initial_counts ids deps)) 0)
  run-Outcome once =
      visit-Outcome (length ids) [] (roots (initial_counts ids deps)) (initial_counts ids deps)
        (initial-Inv once) (omega arith)
