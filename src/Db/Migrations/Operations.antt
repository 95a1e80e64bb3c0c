-- ===== src/Db/Migrations/Operations.antt =====
-- The operations of `alembic.op` that the revisions under alembic/versions call, with their arguments as
-- the source writes them: columns and constraints of `sqlalchemy`, and the SQL of a check as data.
use uav_dag_offload_platform.Common.{ℕ, String, Bool, Option, List}

pub data ColumnType : Type 0 where
  uuid text integer datetime_tz json boolean : ColumnType
  string : ℕ → ColumnType
  numeric : ℕ → ℕ → ColumnType

pub data Default : Type 0 where
  no_default now : Default
  constant : String → Default

pub data Column : Type 0 where
  column : (name : String) → ColumnType → (nullable : Bool) → Default → Column

pub data Condition : Type 0 where
  is_in : String → List String → Condition
  positive : String → Condition
  at_least : String → ℕ → Condition
  between : String → ℕ → ℕ → Condition
  differs : String → String → Condition
  null_or : String → Condition → Condition

pub data Constraint : Type 0 where
  check : (name : String) → Condition → Constraint
  primary_key : List String → Constraint
  unique : (name : String) → List String → Constraint
  foreign_key : List String → List String → Constraint

pub data Key : Type 0 where
  ascending descending : String → Key

pub data Operation : Type 0 where
  create_table : (name : String) → List Column → List Constraint → Operation
  drop_table : (name : String) → Operation
  create_index : (name table : String) → List Key → Operation
  drop_index : (name table : String) → Operation
  add_column : (table : String) → Column → Operation
  drop_column : (table name : String) → Operation
  create_check : (name table : String) → Condition → Operation
  drop_check : (name table : String) → Operation
  alter_server_default : (table name : String) → Default → Operation

pub record Revision : Type 0 where
  pub revision : String
  pub down_revision : Option String
  pub upgrade : List Operation
  pub downgrade : List Operation
