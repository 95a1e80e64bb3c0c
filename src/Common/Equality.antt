-- ===== src/Common/Equality.antt =====
-- Python's `==` on the key types of the program: an interface with its one law.
use text.Mathlib.Text.{◌==◌ as equal_strings}
use text.Mathlib.TextEquality.{eq_iff as equal_strings_iff}
use Prim.Native.Nat.{ℕ}
use Prim.Native.String.{String}
use mathlib.Core.Path.{◌≡◌, refl}
use mathlib.Core.Logic.{◌↔◌}
use mathlib.Core.Bool.{Bool, true}
use uav_dag_offload_platform.Common.Tests.{eqb, eqb_iff}

pub record Eq {ℓ} (K : Type ℓ) : Type ℓ where
  pub test : (x y : K) → Bool
  pub agrees : (x y : K) → (test x y ≡ true) ↔ (x ≡ y)

module _ {ℓ} {K : Type ℓ} ⦃keys : Eq K⦄ where
  infix 50 ◌==◌
  abbrev pub ◌==◌ : (x y : K) → Bool
  x == y = keys.test x y

  pub beq_refl : (x : K) → (x == x) ≡ true
  beq_refl x = (keys.agrees x x).1 refl

instance abbrev pub nat_eq : Eq ℕ
nat_eq = record { test = eqb; agrees = eqb_iff }

instance abbrev pub string_eq : Eq String
string_eq = record { agrees = equal_strings_iff; test = equal_strings }
