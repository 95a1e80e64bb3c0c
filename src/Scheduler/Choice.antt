-- ===== src/Scheduler/Choice.antt =====
-- What the strategies pick from: members of lists, and the least of the candidates.
use uav_dag_offload_platform.Common.{
  ℕ, zero, suc, ◌≡◌, refl, ap, ◌∙◌, ◌⊎◌, inl, inr, Bool, true, false, some, List, [], ◌∷◌, arith,
  if◌then◌else◌,
}
use mathlib.Core.Path.{subst}
use uav_dag_offload_platform.Db.Table.{where_, All}
use uav_dag_offload_platform.Scheduler.Base.{Outcome, done, ◌>>=◌}
use uav_dag_offload_platform.Scheduler.Greedy.{min_from, min_of}
use uav_dag_offload_platform.Scheduler.Offload.{get_elem?}

module _ {A B : Type 0} where
  -- Of a block that returns the first part returns.
  pub bind-eq-done :
      (m : Outcome A) (k : A → Outcome B) (b : B)
      → (m >>= k) ≡ done b
      → (a : A) × (m ≡ done a) × (k a ≡ done b)
  bind-eq-done (done a) k b h = (a, refl, h)
  bind-eq-done Outcome.no_schedulable_subtask k b h = absurd (ground (arith, h))
  bind-eq-done Outcome.no_available_node k b h = absurd (ground (arith, h))
  bind-eq-done Outcome.arithmetic_error k b h = absurd (ground (arith, h))

  -- Related element by element, and of one length.
  abbrev pub Pairs : (A → B → Type 0) → List A → List B → Type 0
  Pairs R [] [] = Unit {0}
  Pairs R (x ∷ xs) (y ∷ ys) = R x y × Pairs R xs ys
  Pairs R _ _ = ⊥

module _ {A : Type 0} where
  abbrev pub In : A → List A → Type 0
  In x [] = ⊥
  In x (y ∷ ys) = (x ≡ y) ⊎ In x ys

  In-where-step :
      (test : A → Bool) (x r : A) (rows rest : List A) (b : Bool)
      → test r ≡ b
      → (In x rest → In x rows × (test x ≡ true))
      → In x (if b then r ∷ rest else rest)
      → In x (r ∷ rows) × (test x ≡ true)
  In-where-step test x r rows rest true t ih (inl p) = (inl p, ap test p ∙ t)
  In-where-step test x r rows rest true t ih (inr m) = (inr (ih m).0, (ih m).1)
  In-where-step test x r rows rest false t ih m = (inr (ih m).0, (ih m).1)

  pub In-where :
      (test : A → Bool) (x : A) (rows : List A)
      → In x (where_ test rows)
      → In x rows × (test x ≡ true)
  unfolding where_
  In-where test x [] m = absurd m
  In-where test x (r ∷ rows) m =
      In-where-step test x r rows (where_ test rows) (test r) refl (In-where test x rows) m

  pub get_elem?-In : (xs : List A) (i : ℕ) (x : A) → get_elem? xs i ≡ some x → In x xs
  unfolding get_elem?
  get_elem?-In [] i x h = absurd (ground (arith, h))
  get_elem?-In (y ∷ ys) zero x h = inl (ground (arith, h))
  get_elem?-In (y ∷ ys) (suc i) x h = inr (get_elem?-In ys i x h)

  module _ (before : A → A → Bool) where
    min_from-In : (best : A) (xs : List A) → In (min_from before best xs) (best ∷ xs)
    unfolding min_from
    min_from-In best [] = inl refl
    min_from-In best (x ∷ xs) =
        split (before x best) (min_from-In (if before x best then x else best) xs)
      where
        split : (b : Bool) → {m : A} → In m ((if b then x else best) ∷ xs) → In m (best ∷ x ∷ xs)
        split true (inl p) = inr (inl p)
        split false (inl p) = inl p
        split true (inr m) = inr (inr m)
        split false (inr m) = inr (inr m)

    min_of-empty : (x : A) → min_of before [] ≡ done x → ⊥
    unfolding min_of
    min_of-empty x h = ground (arith, h)

    min_of-cons :
        (y : A) (ys : List A) (x : A) → min_of before (y ∷ ys) ≡ done x → min_from before y ys ≡ x
    unfolding min_of
    min_of-cons y ys x h = ground (arith, h)

    pub min_of-In : (xs : List A) (x : A) → min_of before xs ≡ done x → In x xs
    min_of-In [] x h = absurd (min_of-empty x h)
    min_of-In (y ∷ ys) x h = subst (λ z. In z (y ∷ ys)) (min_of-cons y ys x h) (min_from-In y ys)

    module _ (irreflexive : (a : A) → before a a ≡ false)
        (transitive : (a b c : A) → before a b ≡ true → before b c ≡ true → before a c ≡ true) where
      min_from-best :
          (best c : A) (xs : List A)
          → before c best ≡ false
          → before c (min_from before best xs) ≡ false
      unfolding min_from
      min_from-best best c [] h = h
      min_from-best best c (x ∷ xs) h =
          min_from-best (if before x best then x else best) c xs
            (ground (arith, h, transitive c x best))

      min_from-least :
          (best : A) (xs : List A) → All (λ c. before c (min_from before best xs) ≡ false) xs
      unfolding min_from
      min_from-least best [] = tt
      min_from-least best (x ∷ xs) = (
        min_from-best (if before x best then x else best) x xs (ground (arith, irreflexive x)),
        min_from-least (if before x best then x else best) xs,
      )

      -- No candidate comes before the one picked.
      pub min_of-least :
          (xs : List A) (x : A) → min_of before xs ≡ done x → All (λ c. before c x ≡ false) xs
      min_of-least [] x h = tt
      min_of-least (y ∷ ys) x h =
          subst (λ z. All (λ c. before c z ≡ false) (y ∷ ys)) (min_of-cons y ys x h)
            (min_from-best y y ys (irreflexive y), min_from-least y ys)
