-- ===== src/Scheduler/Floats.antt =====
-- Python's floats as the schedulers use them: an interface, which the strategies take as an instance.
-- `none` stands for an arithmetic exception (ZeroDivisionError, OverflowError).
use uav_dag_offload_platform.Common.{ℕ, Bool, Option, none, some, List, if◌then◌else◌}
use uav_dag_offload_platform.Common.Int.{ℤ}

pub record FloatOps (F : Type 0) : Type 0 where
  pub add : F → F → F
  pub sub : F → F → F
  pub mul : F → F → F
  -- x / y
  pub div : F → F → Option F
  -- x < y, x == y
  pub lt : F → F → Bool
  pub same : F → F → Bool
  pub isfinite : F → Bool
  pub inf : F
  -- The literal of these digits with so many places: `literal 4 1` is 0.4.
  pub literal : ℕ → ℕ → F
  -- float(n), and n / m on ints
  pub of_int : ℤ → F
  pub div_int : ℤ → ℕ → Option F
  -- round(x) and round(x, 4)
  pub round : F → Option ℤ
  pub round_4 : F → F
  -- sum(xs)
  pub sum : List F → F

module _ {F : Type 0} ⦃f : FloatOps F⦄ where
  -- max(x, y) and min(x, y)
  abbrev pub max_float : F → F → F
  max_float x y = if f.lt x y then y else x

  abbrev pub min_float : F → F → F
  min_float x y = if f.lt y x then y else x

module _ {A B : Type 0} where
  infixl 10 ◌>>=◌
  abbrev pub ◌>>=◌ : (number : Option A) (rest : A → Option B) → Option B
  some value >>= rest = rest value
  none >>= rest = none
