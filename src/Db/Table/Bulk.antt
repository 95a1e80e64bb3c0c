-- ===== src/Db/Table/Bulk.antt =====
-- Loops that change the objects of a query one by one: together they change the selected rows.
use uav_dag_offload_platform.Common.{
  ℕ, ◌≡◌, refl, sym, ap, ◌∙◌, Bool, true, false, List, [], ◌∷◌, arith, eqb_iff, if◌then◌else◌,
}
use uav_dag_offload_platform.Common.Equality.{nat_eq}
use uav_dag_offload_platform.Domain.Dag.{contains}
use uav_dag_offload_platform.Domain.Dag.Graph.{Distinct}
use uav_dag_offload_platform.Db.Table.{HasId, where_, modify, All}

module _ {A : Type 0} ⦃h : HasId A⦄ where
  unfoldable pub keys : List A → List ℕ
  keys [] = []
  keys (r ∷ rows) = h.key r ∷ keys rows

  -- One write for each object of the list.
  unfoldable pub modify_each : List A → (A → A) → List A → List A
  modify_each [] f rows = rows
  modify_each (r ∷ rs) f rows = modify_each rs f (modify (h.key r) f rows)

module _ {A : Type 0} where
  -- update(A).where(test)
  unfoldable pub update_where : (A → Bool) → (A → A) → List A → List A
  update_where test f [] = []
  update_where test f (r ∷ rows) = (if test r then f r else r) ∷ update_where test f rows

  update_where-cong :
      (p q : A → Bool) (f : A → A) (rows : List A)
      → All (λ r. p r ≡ q r) rows
      → update_where p f rows ≡ update_where q f rows
  unfolding update_where
  update_where-cong p q f [] same = refl
  update_where-cong p q f (r ∷ rows) same =
      ground (arith, same.0, update_where-cong p q f rows same.1)

  pub update_where-All :
      (test : A → Bool) (f : A → A) (P : A → Type 0) (rows : List A)
      → ((r : A) → test r ≡ true → P (f r))
      → ((r : A) → test r ≡ false → P r)
      → All P (update_where test f rows)
  unfolding update_where
  update_where-All test f P [] changed kept = tt
  update_where-All test f P (r ∷ rows) changed kept =
      (split (test r) (changed r) (kept r), update_where-All test f P rows changed kept)
    where
      split : (b : Bool) → (b ≡ true → P (f r)) → (b ≡ false → P r) → P (if b then f r else r)
      split true x y = x refl
      split false x y = y refl

module _ {A : Type 0} ⦃h : HasId A⦄ (f : A → A) (same_key : (r : A) → h.key (f r) ≡ h.key r)
    (twice : (r : A) → f (f r) ≡ f r) where
  update-modify :
      (k : ℕ) (ks : List ℕ) (rows : List A)
      → update_where (λ r. contains ks (h.key r)) f (modify k f rows)
        ≡ update_where (λ r. contains (k ∷ ks) (h.key r)) f rows
  unfolding update_where modify contains
  update-modify k ks [] = refl
  update-modify k ks (r ∷ rows) = ground (
    arith,
    same_key r,
    twice r,
    update-modify k ks rows,
    eqb_iff k (h.key r),
    eqb_iff (h.key r) k,
  )

  update-none : (rows : List A) → update_where (λ r. contains [] (h.key r)) f rows ≡ rows
  unfolding update_where contains
  update-none [] = refl
  update-none (r ∷ rows) = ap (λ l. r ∷ l) (update-none rows)

  modify_each-keys :
      (rs rows : List A)
      → modify_each rs f rows ≡ update_where (λ r. contains (keys rs) (h.key r)) f rows
  unfolding modify_each keys
  modify_each-keys [] rows = sym (update-none rows)
  modify_each-keys (r ∷ rs) rows =
      modify_each-keys rs (modify (h.key r) f rows) ∙ update-modify (h.key r) (keys rs) rows

module _ {A : Type 0} ⦃h : HasId A⦄ (test : A → Bool) where
  absent-where :
      (k : ℕ) (rows : List A)
      → contains (keys rows) k ≡ false
      → contains (keys (where_ test rows)) k ≡ false
  unfolding keys where_ contains
  absent-where k [] h = refl
  absent-where k (r ∷ rows) h = ground (arith, absent-where k rows)

  All-present :
      (x : A) (xs rows : List A)
      → contains (keys rows) (h.key x) ≡ false
      → All (λ r. contains (keys (where_ test xs)) (h.key r) ≡ test r) rows
      → All (λ r. contains (keys (where_ test (x ∷ xs))) (h.key r) ≡ test r) rows
  unfolding keys where_ contains
  All-present x xs [] fresh all = tt
  All-present x xs (r ∷ rows) fresh all = (
    ground (arith, all.0, eqb_iff (h.key x) (h.key r), eqb_iff (h.key r) (h.key x)),
    All-present x xs rows (ground arith) all.1,
  )

  -- With distinct keys the keys of the selected rows select just those rows.
  selected :
      (rows : List A)
      → Distinct (keys rows)
      → All (λ r. contains (keys (where_ test rows)) (h.key r) ≡ test r) rows
  unfolding keys
  selected [] once = tt
  selected (r ∷ rows) once = (
    unfold where_ contains in
        ground (arith, absent-where (h.key r) rows once.0, eqb_iff (h.key r) (h.key r)),
    All-present r rows rows once.0 (selected rows once.1),
  )

  -- Writing to the objects of a query one after the other writes to the rows that it selects.
  pub modify_each-where :
      (f : A → A) (rows : List A)
      → ((r : A) → h.key (f r) ≡ h.key r)
      → ((r : A) → f (f r) ≡ f r)
      → Distinct (keys rows)
      → modify_each (where_ test rows) f rows ≡ update_where test f rows
  modify_each-where f rows same twice once =
      modify_each-keys f same twice (where_ test rows) rows
      ∙ update_where-cong _ test f rows (selected rows once)
