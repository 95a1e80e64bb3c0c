-- ===== src/Domain/Dag/Loop.antt =====
-- The `while queue` loop of app/domain/dag.py: its invariant, kept by both loops. `done` holds the
-- tasks taken from the queue so far, the latest first; the code keeps only their number.
use uav_dag_offload_platform.Common.{
  ◌+◌, ◌≡◌, inl, inr, true, false, ◌&&◌, ◌||◌, some, List, [], ◌∷◌, ◌++◌, arith, if◌then◌else◌,
  Bool-cases,
}
use uav_dag_offload_platform.Common.Int.{pos, pred_ℤ}
use uav_dag_offload_platform.Common.Equality.{Eq, ◌==◌, beq_refl}
use uav_dag_offload_platform.Domain.Dag.{Counts, contains, count_of, update, is_zero_count, release}
use uav_dag_offload_platform.Domain.Dag.Graph.{
  Distinct, Distinct-snoc, has_edge, pending, occurrences, contains-append,
}
use uav_dag_offload_platform.Domain.Dag.Counts.{count_of-update}

module _ {K : Type 0} ⦃e : Eq K⦄ where
  -- Every task in `done` has its predecessors further down.
  abbrev pub IsOrdered : List (K × K) → List K → Type 0
  IsOrdered deps [] = Unit {0}
  IsOrdered deps (v ∷ rest) =
      ((u : K) → has_edge deps u v ≡ true → contains rest u ≡ true) × IsOrdered deps rest

module _ {K : Type 0} ⦃e : Eq K⦄ (ids : List K) (deps : List (K × K)) where
  -- `left` are the outgoing edges of the current task that the inner loop has still to release.
  pub record Inv (done queue left : List K) (d : Counts K) : Type 0 where
    pub counts :
        (v : K)
        → contains ids v ≡ true
        → count_of d v ≡ some (pos (pending done deps v + occurrences v left))
    pub member : (v : K) → (contains done v || contains queue v) ≡ true → contains ids v ≡ true
    pub free :
        (v : K)
        → (contains done v || contains queue v) ≡ true
        → pending done deps v + occurrences v left ≡ 0
    pub complete :
        (v : K)
        → contains ids v ≡ true
        → pending done deps v + occurrences v left ≡ 0
        → (contains done v || contains queue v) ≡ true
    pub once_done : Distinct done
    pub once_queue : Distinct queue
    pub apart : (v : K) → contains done v ≡ true → contains queue v ≡ false
    pub ordered : IsOrdered deps done

  -- The queue after one round of the inner loop.
  abbrev enqueue : K → Counts K → List K → List K
  enqueue s d queue = if is_zero_count (count_of d s) then queue ++ s ∷ [] else queue

  module _ (done queue left : List K) (s : K) (d : Counts K) (inv : Inv done queue (s ∷ left) d)
      (known : contains ids s ≡ true) where
    abbrev d' : Counts K
    d' = update pred_ℤ s d

    abbrev queue' : List K
    queue' = enqueue s d' queue

    after : count_of d' s ≡ some (pos (pending done deps s + occurrences s left))
    unfolding occurrences
    after = ground (arith, count_of-update pred_ℤ s s d, beq_refl s, inv.counts s known)

    absent : (contains done s || contains queue s) ≡ false
    unfolding occurrences
    absent = ground (arith, inv.free s, beq_refl s)

    contains-queue' :
        (v : K)
        → contains queue' v ≡ (contains queue v || (is_zero_count (count_of d' s) && s == v))
    unfolding contains
    contains-queue' v = ground (arith, contains-append queue (s ∷ []) v)

    release_counts :
        (v : K)
        → contains ids v ≡ true
        → count_of d' v ≡ some (pos (pending done deps v + occurrences v left))
    unfolding occurrences
    release_counts v h = ground (arith, count_of-update pred_ℤ s v d, inv.counts v h, e.agrees s v)

    release_free :
        (v : K)
        → (contains done v || contains queue' v) ≡ true
        → pending done deps v + occurrences v left ≡ 0
    unfolding occurrences
    release_free v h = ground (arith, contains-queue' v, inv.free v, e.agrees s v, after)

    release_complete :
        (v : K)
        → contains ids v ≡ true
        → pending done deps v + occurrences v left ≡ 0
        → (contains done v || contains queue' v) ≡ true
    unfolding occurrences
    release_complete v h z =
        ground (arith, contains-queue' v, inv.complete v h, e.agrees s v, after)

    release-Inv : Inv done queue' left d'
    release-Inv = record {
      counts = release_counts;
      member = λ v h. ground (arith, contains-queue' v, inv.member v, e.agrees s v, known);
      free = release_free;
      complete = release_complete;
      once_done = inv.once_done;
      once_queue = elim (Bool-cases (is_zero_count (count_of d' s))) [
        | inl fresh ↦ rw fresh (Distinct-snoc queue s inv.once_queue (ground (arith, absent)))
        | inr waits ↦ rw waits inv.once_queue
      ];
      apart = λ v h. ground (arith, contains-queue' v, inv.apart v h, absent, e.agrees s v);
      ordered = inv.ordered;
    }

  pub release_all-Inv :
      (done : List K) (left : List K) (queue : List K) (d : Counts K)
      → ((s : K) → contains left s ≡ true → contains ids s ≡ true)
      → Inv done queue left d
      → Inv done (release left d queue).1 [] (release left d queue).0
  unfolding release
  release_all-Inv done [] queue d known inv = inv
  release_all-Inv done (s ∷ left) queue d known inv =
      release_all-Inv done left (enqueue s (update pred_ℤ s d) queue) (update pred_ℤ s d)
        (λ t h. known t (unfold contains in ground (arith, h)))
        (release-Inv done queue left s d inv (known s (unfold contains in rw beq_refl)))
