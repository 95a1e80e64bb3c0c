-- ===== src/Db/Table.antt =====
-- A table is a list of rows. Rows are found and changed by primary key, and selected by a test.
pub mod Bulk
use uav_dag_offload_platform.Common.{
  ℕ, ◌≡◌, refl, Bool, true, false, ◌&&◌, Option, none, some, List, [], ◌∷◌, arith, eqb, length,
  if◌then◌else◌,
}

-- The primary key of a mapped class.
pub record HasId (A : Type 0) : Type 0 where
  pub key : A → ℕ

abbrev pub map_option {ℓ κ} : {A : Type ℓ} {B : Type κ} → (A → B) → Option A → Option B
map_option f none = none
map_option f (some a) = some (f a)

module _ {A : Type 0} where
  -- select(A).where(test)
  unfoldable pub where_ : (A → Bool) → List A → List A
  where_ test [] = []
  where_ test (r ∷ rows) = let rest = where_ test rows in if test r then r ∷ rest else rest

  -- The first row that a query yields.
  unfoldable pub first : (A → Bool) → List A → Option A
  first test [] = none
  first test (r ∷ rows) = if test r then some r else first test rows

  -- all(test(r) for r in rows)
  unfoldable pub all_rows : (A → Bool) → List A → Bool
  all_rows test [] = true
  all_rows test (r ∷ rows) = test r && all_rows test rows

  -- select(func.count()).where(test)
  unfoldable pub count_where : (A → Bool) → List A → ℕ
  count_where test rows = length (where_ test rows)

  abbrev pub All : (A → Type 0) → List A → Type 0
  All P [] = Unit {0}
  All P (r ∷ rows) = P r × All P rows

module _ {A : Type 0} ⦃h : HasId A⦄ where
  -- db.get(A, k)
  unfoldable pub find : ℕ → List A → Option A
  unfolding first
  find k rows = first (λ r. eqb (h.key r) k) rows

  -- Attribute writes on the object of a primary key.
  unfoldable pub modify : ℕ → (A → A) → List A → List A
  modify k f [] = []
  modify k f (r ∷ rows) = (if eqb (h.key r) k then f r else r) ∷ modify k f rows

  pub find-modify :
      (k j : ℕ) (f : A → A) (rows : List A)
      → ((r : A) → h.key (f r) ≡ h.key r)
      → find j (modify k f rows) ≡ (if eqb k j then map_option f (find j rows) else find j rows)
  unfolding find modify
  find-modify k j f [] same = ground arith
  find-modify k j f (r ∷ rows) same = ground (arith, same r, find-modify k j f rows same)

  pub find-key : (k : ℕ) (rows : List A) (r : A) → find k rows ≡ some r → h.key r ≡ k
  unfolding find
  find-key k [] r' found = ground arith
  find-key k (r ∷ rows) r' found = ground (arith, find-key k rows r')

  pub length-modify : (k : ℕ) (f : A → A) (rows : List A) → length (modify k f rows) ≡ length rows
  unfolding modify
  length-modify k f [] = refl
  length-modify k f (r ∷ rows) = ground (arith, length-modify k f rows)

  -- Every row keeps a property that each row and each changed row has.
  pub modify-All :
      (P : A → Type 0) (k : ℕ) (f : A → A) (rows : List A)
      → ((r : A) → h.key r ≡ k → P r → P (f r))
      → All P rows
      → All P (modify k f rows)
  unfolding modify
  modify-All P k f [] keep all = tt
  modify-All P k f (r ∷ rows) keep all =
      (step (eqb (h.key r) k) (λ t. ground arith), modify-All P k f rows keep all.1)
    where
      step : (b : Bool) → (b ≡ true → h.key r ≡ k) → P (if b then f r else r)
      step true same = keep r (same refl) all.0
      step false same = all.0
