-- ===== src/Examples/Migrations.antt =====
-- The revisions run on a schema of which only the number of its tables, indexes and added columns
-- and the checks of each table are kept.
use uav_dag_offload_platform.Common.{
  ℕ, ◌+◌, ◌-◌, ◌≡◌, refl, String, Option, none, some, List, arith, Bool-cases, inl, inr,
}
use uav_dag_offload_platform.Common.Equality.{◌==◌, string_eq}
use uav_dag_offload_platform.Db.Migrations.{revisions}
use uav_dag_offload_platform.Db.Migrations.Operations.{
  Operation, Column, Constraint, Condition, create_table, drop_table, create_index, drop_index,
  add_column, drop_column, create_check, drop_check, alter_server_default,
}
use uav_dag_offload_platform.Db.Migrations.Schema.{Database, check_after}
use uav_dag_offload_platform.Db.Migrations.Reversal.{
  run, FitsEach, upgrade_all, downgrade_all, downgrade_all-upgrade_all,
}

abbrev count_object : Operation → ℕ → ℕ
count_object (create_table name columns constraints) n = n + 1
count_object (create_index name table keys) n = n + 1
count_object (add_column table c) n = n + 1
count_object (create_check name table condition) n = n
count_object (drop_table name) n = n - 1
count_object (drop_index name table) n = n - 1
count_object (drop_column table name) n = n - 1
count_object (drop_check name table) n = n
count_object (alter_server_default table name value) n = n

abbrev Checks : Type 0
Checks = String → String → Option Condition

abbrev FitsChecks : Operation → Checks → Type 0
FitsChecks (create_table name columns constraints) c = (m : String) → c name m ≡ none
FitsChecks (create_check name table condition) c = c table name ≡ none
FitsChecks _ c = Unit {0}

abbrev change : Operation → ℕ × Checks → ℕ × Checks
change o (n, c) = (count_object o n, λ t m. check_after t m o (c t m))

same_schema :
    (m n : ℕ) (b c : Checks)
    → m ≡ n
    → ((t k : String) → b t k ≡ c t k)
    → ◌≡◌ {A = ℕ × Checks} (m, b) (n, c)
same_schema m n b c p q i = (p i, λ t k. q t k i)

undo_table :
    (name : String) (columns : List Column) (constraints : List Constraint) (n : ℕ) (c : Checks)
    → FitsChecks (create_table name columns constraints) c
    → ◌≡◌ {A = ℕ × Checks}
        (change (drop_table name) (change (create_table name columns constraints) (n, c)))
        (n, c)
undo_table name columns constraints n c fits = same_schema _ n _ c (omega arith) (λ t k.
    elim (Bool-cases (name == t)) [
      | inl same ↦ unfold check_after in ground (arith, same, string_eq.agrees name t, fits k)
      | inr other ↦ unfold check_after in ground (arith, other)
    ])

undo_check :
    (name table : String) (condition : Condition) (n : ℕ) (c : Checks)
    → FitsChecks (create_check name table condition) c
    → ◌≡◌ {A = ℕ × Checks}
        (change (drop_check name table) (change (create_check name table condition) (n, c)))
        (n, c)
undo_check name table condition n c fits = same_schema _ n _ c refl (λ t k.
    unfold check_after in ground (arith, string_eq.agrees name k, string_eq.agrees table t, fits))

redo_check :
    (name table : String) (condition : Condition) (n : ℕ) (c : Checks)
    → c table name ≡ some condition
    → ◌≡◌ {A = ℕ × Checks}
        (change (create_check name table condition) (change (drop_check name table) (n, c)))
        (n, c)
redo_check name table condition n c has = same_schema _ n _ c (refl) (λ t k.
    unfold check_after in ground (arith, string_eq.agrees name k, string_eq.agrees table t, has))

abbrev counting : Database
counting = record {
  Schema = ℕ × Checks;
  apply = change;
  Fits = λ o s. FitsChecks o s.1;
  check_of = λ table name s. s.1 table name;
  check_of-apply = λ table name o s fits keeps. refl;
  undo_table = λ name columns constraints s fits. undo_table name columns constraints s.0 s.1 fits;
  undo_index = λ name table keys s fits.
      same_schema _ s.0 _ s.1 (omega arith) (λ t k. unfold check_after in refl);
  undo_column =
      λ table c s fits. same_schema _ s.0 _ s.1 (omega arith) (λ t k. unfold check_after in refl);
  undo_check = λ name table condition s fits. undo_check name table condition s.0 s.1 fits;
  redo_check = λ name table condition s has. redo_check name table condition s.0 s.1 has;
  default_check = λ name table field value s. unfold check_after in refl;
  default_column = λ table name value s. unfold check_after in refl;
}

abbrev empty_schema : ℕ × Checks
empty_schema = (0, λ table name. none)

-- Eleven tables, 45 indexes and two columns.
upgraded : (upgrade_all counting revisions empty_schema).0 ≡ 58
unfolding upgrade_all
upgraded = refl

infixr 20 ◌&◌
abbrev ◌&◌ : {A B : Type 0} → A → B → A × B
a & b = (a, b)

-- No table is there when it is created, and no check.
fits_each : FitsEach counting revisions empty_schema
unfolding run check_after
fits_each =
    ((λ m. refl) & tt & tt & tt & (λ m. refl) & tt & tt & tt & tt)
    & ((λ m. refl)
        & tt
        & tt
        & tt
        & (λ m. refl)
        & tt
        & tt
        & tt
        & (λ m. refl)
        & tt
        & tt
        & tt
        & tt
        & tt
        & tt
        & tt)
    & (tt & refl & tt & tt)
    & ((λ m. refl) & tt & tt & tt & (λ m. refl) & tt & tt & tt & tt & tt & tt & tt)
    & ((λ m. refl) & tt & tt & tt & tt & tt & tt & tt & tt & tt)
    & (tt & refl & tt)
    & ((λ m. refl) & tt & tt & tt)
    & (tt & tt & tt)
    & ((λ m. refl) & tt & tt & tt & tt & tt)
    & ((λ m. refl) & tt & tt & tt & tt)
    & tt

downgrade_all-upgrade_all_example :
    downgrade_all counting revisions (upgrade_all counting revisions empty_schema) ≡ empty_schema
downgrade_all-upgrade_all_example = downgrade_all-upgrade_all counting empty_schema fits_each
