-- ===== src/Db/Migrations/Schema.antt =====
-- What an operation does to a database is Alembic's and PostgreSQL's: an interface with the laws that the
-- downgrades of alembic/versions rely on.
use uav_dag_offload_platform.Common.{
  Option, none, some, ◌&&◌, if◌then◌else◌, ◌≡◌, String, Bool, true, false, List, [], ◌∷◌,
}
use uav_dag_offload_platform.Common.Equality.{◌==◌, string_eq}
use uav_dag_offload_platform.Db.Migrations.Operations.{
  Operation, Column, Condition, Constraint, Key, Default, column, check, create_table, drop_table,
  create_index, drop_index, add_column, drop_column, create_check, drop_check, alter_server_default,
}

abbrev pub column_name : Column → String
column_name (column name type nullable default_value) = name

unfoldable pub check_in : String → List Constraint → Option Condition
check_in name [] = none
check_in name (check n condition ∷ constraints) =
    let rest = check_in name constraints in if n == name then some condition else rest
check_in name (c ∷ constraints) = check_in name constraints

-- The named check of a table after an operation, if it was `before`.
unfoldable pub check_after : String → String → Operation → Option Condition → Option Condition
unfolding check_in
check_after table name (create_table t columns constraints) before =
    if t == table then check_in name constraints else before
check_after table name (drop_table t) before = if t == table then none else before
check_after table name (create_check n t condition) before =
    if t == table && n == name then some condition else before
check_after table name (drop_check n t) before = if t == table && n == name then none else before
check_after table name o before = before

-- Dropping a column also drops the checks that name it.
unfoldable pub drops_no_column : Operation → Bool
drops_no_column (drop_column table name) = false
drops_no_column o = true

-- `Fits o s`: the operation succeeds on the schema `s`. `check_of table name s`: the condition of this
-- check, if the table has it.
pub record Database : Type 1 where
  pub Schema : Type 0
  pub apply : Operation → Schema → Schema
  pub Fits : Operation → Schema → Type 0
  pub check_of : String → String → Schema → Option Condition
  pub check_of-apply :
      (table name : String) (o : Operation) (s : Schema)
      → Fits o s
      → drops_no_column o ≡ true
      → check_of table name (apply o s) ≡ check_after table name o (check_of table name s)
  pub undo_table :
      (name : String) (columns : List Column) (constraints : List Constraint) (s : Schema)
      → Fits (create_table name columns constraints) s
      → apply (drop_table name) (apply (create_table name columns constraints) s) ≡ s
  pub undo_index :
      (name table : String) (keys : List Key) (s : Schema)
      → Fits (create_index name table keys) s
      → apply (drop_index name table) (apply (create_index name table keys) s) ≡ s
  pub undo_column :
      (table : String) (c : Column) (s : Schema)
      → Fits (add_column table c) s
      → apply (drop_column table (column_name c)) (apply (add_column table c) s) ≡ s
  pub undo_check :
      (name table : String) (condition : Condition) (s : Schema)
      → Fits (create_check name table condition) s
      → apply (drop_check name table) (apply (create_check name table condition) s) ≡ s
  pub redo_check :
      (name table : String) (condition : Condition) (s : Schema)
      → check_of table name s ≡ some condition
      → apply (create_check name table condition) (apply (drop_check name table) s) ≡ s
  -- A default is no part of a check, and goes with its column.
  pub default_check :
      (name table field : String) (default : Default) (s : Schema)
      → apply (drop_check name table) (apply (alter_server_default table field default) s)
        ≡ apply (alter_server_default table field default) (apply (drop_check name table) s)
  pub default_column :
      (table name : String) (default : Default) (s : Schema)
      → apply (drop_column table name) (apply (alter_server_default table name default) s)
        ≡ apply (drop_column table name) s
