-- ===== src/Domain/Dag/Counts.antt =====
-- The dict `incoming_count` of app/domain/dag.py: what the loops write into it.
use uav_dag_offload_platform.Common.{
  ℕ, suc, ◌+◌, ◌≡◌, refl, true, false, Option, none, some, List, [], ◌∷◌, arith, if◌then◌else◌,
}
use uav_dag_offload_platform.Common.Int.{ℤ, pos, succ_ℤ}
use uav_dag_offload_platform.Common.Equality.{Eq, ◌==◌}
use uav_dag_offload_platform.Domain.Dag.{
  Counts, contains, count_of, update, zero_counts, count_incoming, roots, is_zero_count,
}
use uav_dag_offload_platform.Domain.Dag.Graph.{Distinct, pending}

abbrev pub map_count : (ℤ → ℤ) → Option ℤ → Option ℤ
map_count f none = none
map_count f (some n) = some (f n)

module _ {K : Type 0} ⦃e : Eq K⦄ where
  keys : Counts K → List K
  keys [] = []
  keys ((j, n) ∷ d) = j ∷ keys d

  pub count_of-update :
      (f : ℤ → ℤ) (k j : K) (d : Counts K)
      → count_of (update f k d) j ≡ (if k == j then map_count f (count_of d j) else count_of d j)
  unfolding count_of update
  count_of-update f k j [] = ground arith
  count_of-update f k j ((i, n) ∷ d) =
      ground (arith, count_of-update f k j d, e.agrees i k, e.agrees i j, e.agrees k j)

  keys-update : (f : ℤ → ℤ) (k : K) (d : Counts K) → keys (update f k d) ≡ keys d
  unfolding keys update
  keys-update f k [] = refl
  keys-update f k ((i, n) ∷ d) = ground (arith, keys-update f k d)

  keys-count_incoming : (deps : List (K × K)) (d : Counts K) → keys (count_incoming deps d) ≡ keys d
  unfolding count_incoming
  keys-count_incoming [] d = refl
  keys-count_incoming ((a, b) ∷ rest) d =
      rw (keys-count_incoming rest (update succ_ℤ b d)) (keys-update succ_ℤ b d)

  keys-zero_counts : (ids : List K) → keys (zero_counts ids) ≡ ids
  unfolding keys zero_counts
  keys-zero_counts [] = refl
  keys-zero_counts (x ∷ xs) = rw (keys-zero_counts xs)

  count_of-zero_counts :
      (ids : List K) (v : K) → contains ids v ≡ true → count_of (zero_counts ids) v ≡ some (pos 0)
  unfolding count_of zero_counts contains
  count_of-zero_counts [] v h = ground arith
  count_of-zero_counts (x ∷ xs) v h = ground (arith, count_of-zero_counts xs v)

  count_of-count_incoming :
      (deps : List (K × K)) (d : Counts K) (v : K) (n : ℕ)
      → count_of d v ≡ some (pos n)
      → count_of (count_incoming deps d) v ≡ some (pos (n + pending [] deps v))
  unfolding count_incoming pending contains
  count_of-count_incoming [] d v n h = ground arith
  count_of-count_incoming ((a, b) ∷ rest) d v n h = ground (
    arith,
    count_of-update succ_ℤ b v d,
    count_of-count_incoming rest (update succ_ℤ b d) v n,
    count_of-count_incoming rest (update succ_ℤ b d) v (suc n),
  )

  contains-keys :
      (d : Counts K) (v : K) (n : ℤ) → count_of d v ≡ some n → contains (keys d) v ≡ true
  unfolding count_of contains keys
  contains-keys [] v n h = ground arith
  contains-keys ((j, m) ∷ d) v n h = ground (arith, contains-keys d v n)

  absent_of_keys :
      (d : Counts K) (v : K) → contains (keys d) v ≡ false → contains (roots d) v ≡ false
  unfolding roots contains keys
  absent_of_keys [] v h = refl
  absent_of_keys ((j, m) ∷ d) v h = ground (arith, absent_of_keys d v)

  contains-roots :
      (d : Counts K) (v : K)
      → Distinct (keys d)
      → contains (roots d) v ≡ is_zero_count (count_of d v)
  unfolding roots contains count_of keys
  contains-roots [] v once = refl
  contains-roots ((j, n) ∷ d) v once =
      ground (arith, contains-roots d v once.1, e.agrees j v, once.0, absent_of_keys d j)

  roots-Distinct : (d : Counts K) → Distinct (keys d) → Distinct (roots d)
  unfolding roots keys
  roots-Distinct [] once = tt
  roots-Distinct ((j, n) ∷ d) once =
      ground (arith, roots-Distinct d once.1, absent_of_keys d j once.0)

  -- The counters after the first loop: the in-degrees.
  unfoldable pub initial_counts : List K → List (K × K) → Counts K
  initial_counts ids deps = count_incoming deps (zero_counts ids)

  pub count_of-initial_counts :
      (ids : List K) (deps : List (K × K)) (v : K)
      → contains ids v ≡ true
      → count_of (initial_counts ids deps) v ≡ some (pos (pending [] deps v))
  unfolding initial_counts
  count_of-initial_counts ids deps v h =
      ground
        (arith, count_of-count_incoming deps (zero_counts ids) v 0 (count_of-zero_counts ids v h))

  pub count_of-absent :
      (ids : List K) (deps : List (K × K)) (v : K)
      → contains ids v ≡ false
      → count_of (initial_counts ids deps) v ≡ none
  unfolding initial_counts
  count_of-absent ids deps v h =
      let d = count_incoming deps (zero_counts ids) in
      elim (count_of d v) as (λ o. count_of d v ≡ o → o ≡ none) [
        | none ↦ λ _. refl
        | some n ↦ λ found. ground (
          arith,
          contains-keys d v n found,
          keys-count_incoming deps (zero_counts ids),
          keys-zero_counts ids,
        )
      ]
        refl

  initial-keys : (ids : List K) (deps : List (K × K)) → keys (initial_counts ids deps) ≡ ids
  unfolding initial_counts
  initial-keys ids deps = rw (keys-count_incoming deps (zero_counts ids)) (keys-zero_counts ids)

  pub contains-initial_roots :
      (ids : List K) (deps : List (K × K)) (v : K)
      → Distinct ids
      → contains (roots (initial_counts ids deps)) v
        ≡ is_zero_count (count_of (initial_counts ids deps) v)
  contains-initial_roots ids deps v once =
      contains-roots (initial_counts ids deps) v (rw (initial-keys ids deps) once)

  pub initial_roots-Distinct :
      (ids : List K) (deps : List (K × K))
      → Distinct ids
      → Distinct (roots (initial_counts ids deps))
  initial_roots-Distinct ids deps once =
      roots-Distinct (initial_counts ids deps) (rw (initial-keys ids deps) once)
