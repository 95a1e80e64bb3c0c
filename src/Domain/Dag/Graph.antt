-- ===== src/Domain/Dag/Graph.antt =====
-- Graph vocabulary for app/domain/dag.py: edges, in-degrees over the tasks that are left, distinct
-- lists and rankings. The specification of `validate_dag` is stated in these words.
use uav_dag_offload_platform.Common.{
  ℕ, suc, ◌+◌, ◌≤◌, ◌<◌, ◌≡◌, refl, inl, inr, Bool, true, false, ◌&&◌, ◌||◌, not, List, [], ◌∷◌,
  ◌++◌, arith, length, if◌then◌else◌, Bool-cases,
}
use uav_dag_offload_platform.Common.Equality.{Eq, ◌==◌, beq_refl}
use uav_dag_offload_platform.Domain.Dag.{contains, set_of, successors}

abbrev pub one_if : Bool → ℕ → ℕ
one_if true n = suc n
one_if false n = n

module _ {K : Type 0} ⦃e : Eq K⦄ where
  abbrev pub Distinct : List K → Type 0
  Distinct [] = Unit {0}
  Distinct (x ∷ xs) = (contains xs x ≡ false) × Distinct xs

  unfoldable pub has_edge : List (K × K) → K → K → Bool
  has_edge [] u v = false
  has_edge ((a, b) ∷ rest) u v = (a == u && b == v) || has_edge rest u v

  -- How many dependencies of `v` have a predecessor outside `done`.
  unfoldable pub pending : List K → List (K × K) → K → ℕ
  pending done [] v = 0
  pending done ((a, b) ∷ rest) v = one_if (b == v && not (contains done a)) (pending done rest v)

  unfoldable pub occurrences : K → List K → ℕ
  occurrences v [] = 0
  occurrences v (x ∷ xs) = one_if (x == v) (occurrences v xs)

  unfoldable pub remove : K → List K → List K
  remove a [] = []
  remove a (x ∷ xs) = if x == a then xs else x ∷ remove a xs

  pub contains-append :
      (xs ys : List K) (a : K) → contains (xs ++ ys) a ≡ (contains xs a || contains ys a)
  unfolding contains
  contains-append [] ys a = refl
  contains-append (x ∷ xs) ys a = ground (arith, contains-append xs ys a)

  contains-remove_ne :
      (xs : List K) (a b : K) → (a == b) ≡ false → contains (remove a xs) b ≡ contains xs b
  unfolding contains remove
  contains-remove_ne [] a b h = refl
  contains-remove_ne (x ∷ xs) a b h =
      ground (arith, contains-remove_ne xs a b h, e.agrees x a, e.agrees x b, e.agrees a b)

  length-remove :
      (xs : List K) (a : K) → contains xs a ≡ true → suc (length (remove a xs)) ≡ length xs
  unfolding contains remove
  length-remove [] a h = ground arith
  length-remove (x ∷ xs) a h = ground (arith, length-remove xs a)

  -- Distinct members of `ys` are at most as many as `ys` has.
  pub length-le_of_Distinct :
      (xs ys : List K)
      → Distinct xs
      → ((a : K) → contains xs a ≡ true → contains ys a ≡ true)
      → length xs ≤ length ys
  unfolding contains
  length-le_of_Distinct [] ys once sub = omega arith
  length-le_of_Distinct (x ∷ xs) ys once sub =
      let here = sub x (rw beq_refl) in
      omega (
        arith,
        length-le_of_Distinct xs (remove x ys) once.1 (rest once.0),
        length-remove ys x here,
      )
    where
      rest :
          contains xs x ≡ false → (a : K) → contains xs a ≡ true → contains (remove x ys) a ≡ true
      rest absent a h = ground (arith, sub a, contains-remove_ne ys x a, e.agrees x a)

  pub Distinct-snoc :
      (xs : List K) (a : K) → Distinct xs → contains xs a ≡ false → Distinct (xs ++ a ∷ [])
  unfolding contains
  Distinct-snoc [] a once absent = (refl, tt)
  Distinct-snoc (x ∷ xs) a once absent = (
    ground (arith, contains-append xs (a ∷ []) x, e.agrees a x, beq_refl x, once.0),
    Distinct-snoc xs a once.1 (ground arith),
  )

  pub set_of-contains : (xs : List K) (a : K) → contains (set_of xs) a ≡ contains xs a
  unfolding contains set_of
  set_of-contains [] a = refl
  set_of-contains (x ∷ xs) a =
      ground (arith, set_of-contains xs a, set_of-contains xs x, e.agrees x a)

  pub length-set_of : (xs : List K) → length (set_of xs) ≤ length xs
  unfolding set_of
  length-set_of [] = omega arith
  length-set_of (x ∷ xs) = ground (arith, length-set_of xs)

  -- `len(xs) == len(set(xs))` exactly when no item occurs twice.
  pub Distinct-of_length : (xs : List K) → length xs ≡ length (set_of xs) → Distinct xs
  unfolding set_of
  Distinct-of_length [] h = tt
  Distinct-of_length (x ∷ xs) h = (
    ground (arith, length-set_of xs, set_of-contains xs x),
    Distinct-of_length xs (ground (arith, length-set_of xs)),
  )

  pub length-of_Distinct : (xs : List K) → Distinct xs → length xs ≡ length (set_of xs)
  unfolding set_of
  length-of_Distinct [] once = refl
  length-of_Distinct (x ∷ xs) once =
      ground (arith, once.0, set_of-contains xs x, length-of_Distinct xs once.1)

  -- Taking `c` out of the tasks that are left releases its outgoing edges.
  pub pending-cons :
      (done : List K) (deps : List (K × K)) (c v : K)
      → contains done c ≡ false
      → pending done deps v ≡ pending (c ∷ done) deps v + occurrences v (successors c deps)
  unfolding pending occurrences successors contains
  pending-cons done [] c v h = omega arith
  pending-cons done ((a, b) ∷ rest) c v h =
      ground (arith, pending-cons done rest c v h, e.agrees c a, e.agrees a c)

  pub done_of_pending :
      (done : List K) (deps : List (K × K)) (u v : K)
      → has_edge deps u v ≡ true
      → pending done deps v ≡ 0
      → contains done u ≡ true
  unfolding pending has_edge
  done_of_pending done [] u v h z = ground arith
  done_of_pending done ((a, b) ∷ rest) u v h z =
      ground (arith, done_of_pending done rest u v, e.agrees a u, e.agrees b v)

  pub pending-predecessor :
      (done : List K) (deps : List (K × K)) (v : K)
      → 0 < pending done deps v
      → (u : K) × (has_edge deps u v ≡ true) × (contains done u ≡ false)
  unfolding pending has_edge
  pending-predecessor done [] v h = ground arith
  pending-predecessor done ((a, b) ∷ rest) v h =
      elim (Bool-cases (b == v && not (contains done a))) [
        | inl now ↦ (a, ground (arith, beq_refl a), ground arith)
        | inr later ↦
            let (u, edge, left) = pending-predecessor done rest v (ground arith) in
            (u, ground arith, left)
      ]

  pub contains-successors :
      (deps : List (K × K)) (c v : K) → contains (successors c deps) v ≡ has_edge deps c v
  unfolding successors has_edge contains
  contains-successors [] c v = refl
  contains-successors ((a, b) ∷ rest) c v = ground (arith, contains-successors rest c v)

  pub occurrences-zero : (xs : List K) (v : K) → contains xs v ≡ false → occurrences v xs ≡ 0
  unfolding occurrences contains
  occurrences-zero [] v h = refl
  occurrences-zero (x ∷ xs) v h = ground (arith, occurrences-zero xs v)
