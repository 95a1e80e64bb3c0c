-- ===== src/Core/Errors.antt =====
-- app/core/errors.py, and methods that change the session's objects and may raise: what was written
-- before a raise stays in the session, so the store comes back beside the error too. Of an
-- `AppError` the code and the status are kept; the message and the details only inform.
use uav_dag_offload_platform.Common.{
  ℕ, ◌≡◌, refl, arith, Bool, true, false, Option, none, some, List, [], ◌∷◌,
}

pub data ErrorCode : Type 0 where
  task_not_found subtask_not_found schedule_plan_not_found execution_not_found node_not_found :
      ErrorCode
  task_state_conflict subtask_state_conflict schedule_plan_state_conflict execution_state_conflict :
      ErrorCode
  schedule_plan_task_mismatch no_executable_plan_item dag_validation_failed node_name_conflict :
      ErrorCode
  no_schedulable_subtask no_available_node scheduler_strategy_not_found : ErrorCode

pub record AppError : Type 0 where
  pub code : ErrorCode
  pub status_code : ℕ

pub data Exception : Type 0 where
  app_error : AppError → Exception
  value_error key_error attribute_error overflow_error : Exception

pub data Result (A : Type 0) : Type 0 where
  ok : A → Result A
  raised : Exception → Result A

-- A method that works on a state `S`: the session's store, or a part of it.
abbrev pub Exec : Type 0 → Type 0 → Type 0
Exec S A = S → Result A × S

module _ {S A : Type 0} where
  abbrev pub fail : ErrorCode → ℕ → Exec S A
  fail code status s = (raised (app_error (record { code = code; status_code = status })), s)

  abbrev pub pure : A → Exec S A
  pure value store = (ok value, store)

  abbrev pub raise : Exception → Exec S A
  raise e s = (raised e, s)

  abbrev pub gets : (S → A) → Exec S A
  gets query store = (ok (query store), store)

  -- The value of an `Option`, or else the other action.
  abbrev pub or_else : Option A → Exec S A → Exec S A
  or_else none m = m
  or_else (some a) m = pure a

abbrev pub modify_state : {S : Type 0} → (S → S) → Exec S (Unit {0})
modify_state f s = (ok tt, f s)

abbrev pub when : {S : Type 0} → Bool → Exec S (Unit {0}) → Exec S (Unit {0})
when true m s = m s
when false m s = (ok tt, s)

module _ {S A B : Type 0} where
  abbrev pub continue : (outcome : Result A) (rest : A → Exec S B) → Exec S B
  continue (raised e) rest store = (raised e, store)
  continue (ok value) rest store = rest value store

  infixl 10 ◌>>=◌
  abbrev pub ◌>>=◌ : (first : Exec S A) (rest : A → Exec S B) → Exec S B
  ◌>>=◌ first rest store = let (outcome, after) = first store in continue outcome rest after

  infixl 10 ◌>>◌
  abbrev pub ◌>>◌ : (first : Exec S A) (second : Exec S B) → Exec S B
  first >> second = first >>= λ ignored. second

module _ {S A B : Type 0} where
  continue-eq-ok :
      (r : Result A) (f : A → Exec S B) (s : S) (p : Result B × S) (b : B)
      → continue r f s ≡ p
      → p.0 ≡ ok b
      → (a : A) × (r ≡ ok a) × (f a s ≡ p)
  continue-eq-ok (ok a) f s p b h o = (a, refl, h)
  continue-eq-ok (raised e) f s p b h o = absurd (ground (arith, h))

  -- Of a block that returns both parts return.
  pub bind-eq-ok :
      (m : Exec S A) (f : A → Exec S B) (s s' : S) (b : B)
      → (m >>= f) s ≡ (ok b, s')
      → (a : A) × (s1 : S) × (m s ≡ (ok a, s1)) × (f a s1 ≡ (ok b, s'))
  bind-eq-ok m f s s' b h =
      let (a, returns, rest) = continue-eq-ok (m s).0 f (m s).1 (ok b, s') b h refl in
      (a, (m s).1, λ i. (returns i, (m s).1), rest)

module _ {S A : Type 0} where
  -- for x in xs: body(x)
  unfoldable pub for_each : List A → (A → Exec S (Unit {0})) → Exec S (Unit {0})
  for_each [] body = pure tt
  for_each (x ∷ xs) body = do body x; for_each xs body

  -- `get_db` and a handler's `db.commit()`: what is left in the database. An exception rolls all
  -- changes of the request back.
  unfoldable pub committed : Exec S A → S → S
  committed m s = let (r, s') = m s in elim r [ ok _ ↦ s' | raised _ ↦ s ]

-- What an action does to a predicate on the state, whether it returns or raises.
abbrev pub Keeps : {S A : Type 0} → (S → Type 0) → Exec S A → Type 0
Keeps {S} P m = (s : S) → P s → P (m s).1

module _ {S A B : Type 0} (P : S → Type 0) where
  continue-Keeps :
      (r : Result A) (f : A → Exec S B)
      → ((a : A) → Keeps P (f a))
      → (s : S) → P s
      → P (continue r f s).1
  continue-Keeps (ok a) f rest s h = rest a s h
  continue-Keeps (raised e) f rest s h = h

  -- A block keeps what both of its parts keep.
  pub bind-Keeps :
      (m : Exec S A) (f : A → Exec S B) → Keeps P m → ((a : A) → Keeps P (f a)) → Keeps P (m >>= f)
  bind-Keeps m f first rest s h = continue-Keeps (m s).0 f rest (m s).1 (first s h)

-- A loop keeps what each round keeps.
pub for_each-Keeps :
    {S A : Type 0} (P : S → Type 0) (xs : List A) (body : A → Exec S (Unit {0}))
    → ((a : A) → Keeps P (body a))
    → Keeps P (for_each xs body)
unfolding for_each
for_each-Keeps P [] body each s h = h
for_each-Keeps P (x ∷ xs) body each s h =
    bind-Keeps P (body x) (λ _. for_each xs body) (each x) (λ _. for_each-Keeps P xs body each) s h
