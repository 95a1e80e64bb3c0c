-- ===== src/Scheduler/Candidates.antt =====
-- The candidates of a subtask, of which a strategy picks one: what is estimated, and for which nodes.
use uav_dag_offload_platform.Common.{
  ◌≡◌, refl, ap, ◌∙◌, inl, inr, Bool, true, Option, none, some, List, [], ◌∷◌, arith,
}
use uav_dag_offload_platform.Db.Table.{where_}
use uav_dag_offload_platform.Scheduler.Floats.{FloatOps}
use mathlib.Core.Path.{subst⁻¹}
use uav_dag_offload_platform.Scheduler.Base.{
  SchedulableSubtask, NodeSnapshot, Outcome, done, calculated, ◌>>=◌,
}
use uav_dag_offload_platform.Scheduler.Estimation.{CandidateEstimate, estimate_candidate}
use uav_dag_offload_platform.Scheduler.Greedy.{min_of, estimate_each, finite_candidates}
use uav_dag_offload_platform.Scheduler.Choice.{bind-eq-done, In, In-where, min_of-In}

module _ {A : Type 0} where
  pub done-injective : {a b : A} → done a ≡ done b → a ≡ b
  done-injective h = ground (arith, h)

  calculated-eq-done : (o : Option A) (a : A) → calculated o ≡ done a → o ≡ some a
  calculated-eq-done none a h = absurd (ground (arith, h))
  calculated-eq-done (some x) a h = ground (arith, h)

module _ {F : Type 0} ⦃f : FloatOps F⦄ where
  -- A candidate is about the node it was estimated for.
  estimate_candidate-node :
      (subtask : SchedulableSubtask F) (node : NodeSnapshot F) (weight : F)
      (c : CandidateEstimate F)
      → estimate_candidate subtask node weight ≡ some c
      → c.node ≡ node
  unfolding estimate_candidate
  estimate_candidate-node subtask node weight c h = ground (arith, h)

  estimate_each-step :
      (node : NodeSnapshot F) (nodes : List (NodeSnapshot F)) (o : Option (CandidateEstimate F))
      (rest : Outcome (List (CandidateEstimate F))) (cs : List (CandidateEstimate F))
      (c : CandidateEstimate F)
      → ((x : CandidateEstimate F) → o ≡ some x → x.node ≡ node)
      → ((xs : List (CandidateEstimate F)) → rest ≡ done xs → In c xs → In c.node nodes)
      → (calculated o >>= λ x. rest >>= λ xs. done (x ∷ xs)) ≡ done cs
      → In c cs
      → In c.node (node ∷ nodes)
  estimate_each-step node nodes (some x) (done xs) cs c about ih h m =
      split (subst⁻¹ (λ l. In c l) (done-injective h) m)
    where
      split : In c (x ∷ xs) → In c.node (node ∷ nodes)
      split (inl p) = inl (ap (λ c. c.node) p ∙ about x refl)
      split (inr n) = inr (ih xs refl n)
  estimate_each-step node nodes _ _ cs c about ih h m = absurd (ground (arith, h))

  estimate_each-In :
      (subtask : SchedulableSubtask F) (nodes : List (NodeSnapshot F)) (weight : F)
      (cs : List (CandidateEstimate F)) (c : CandidateEstimate F)
      → estimate_each subtask nodes weight ≡ done cs
      → In c cs
      → In c.node nodes
  unfolding estimate_each
  estimate_each-In subtask [] weight cs c h m = absurd (subst⁻¹ (λ l. In c l) (done-injective h) m)
  estimate_each-In subtask (node ∷ nodes) weight cs c h m =
      estimate_each-step node nodes (estimate_candidate subtask node weight)
        (estimate_each subtask nodes weight) cs c
        (λ x. estimate_candidate-node subtask node weight x)
        (λ xs h' m'. estimate_each-In subtask nodes weight xs c h' m') h m

  finite_candidates-step :
      (passes : NodeSnapshot F → Bool) (nodes : List (NodeSnapshot F))
      (o : Outcome (List (CandidateEstimate F))) (cs : List (CandidateEstimate F))
      (c : CandidateEstimate F)
      → ((xs : List (CandidateEstimate F)) → o ≡ done xs → In c xs → In c.node nodes)
      → (o >>= λ xs. done (where_ (λ x. f.isfinite x.score) xs)) ≡ done cs
      → In c cs
      → In c.node nodes
  finite_candidates-step passes nodes (done xs) cs c about h m =
      about xs refl
        (In-where (λ x. f.isfinite x.score) c xs (subst⁻¹ (λ l. In c l) (done-injective h) m)).0
  finite_candidates-step passes nodes _ cs c about h m = absurd (ground (arith, h))

  -- Every candidate is for one of the nodes that pass.
  pub finite_candidates-In :
      (passes : NodeSnapshot F → Bool) (subtask : SchedulableSubtask F)
      (nodes : List (NodeSnapshot F)) (weight : F) (cs : List (CandidateEstimate F))
      (c : CandidateEstimate F)
      → finite_candidates passes subtask nodes weight ≡ done cs
      → In c cs
      → In c.node nodes × (passes c.node ≡ true)
  unfolding finite_candidates
  finite_candidates-In passes subtask nodes weight cs c h m = In-where passes c.node nodes (
      finite_candidates-step passes (where_ passes nodes)
        (estimate_each subtask (where_ passes nodes) weight) cs c
        (λ xs. estimate_each-In subtask (where_ passes nodes) weight xs c) h m)

  pub min_of-node :
      (before : CandidateEstimate F → CandidateEstimate F → Bool) (passes : NodeSnapshot F → Bool)
      (subtask : SchedulableSubtask F) (nodes : List (NodeSnapshot F)) (weight : F)
      (c : CandidateEstimate F)
      → (finite_candidates passes subtask nodes weight >>= min_of before) ≡ done c
      → In c.node nodes × (passes c.node ≡ true)
  min_of-node before passes subtask nodes weight c h =
      let (cs, found, picked) =
        bind-eq-done (finite_candidates passes subtask nodes weight) (min_of before) c h in
      finite_candidates-In passes subtask nodes weight cs c found (min_of-In before cs c picked)
