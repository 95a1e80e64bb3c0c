-- ===== src/Services/Metrics/Sums.antt =====
-- How the figures of a task add up.
use uav_dag_offload_platform.Common.{◌+◌, ◌≤◌, ◌≡◌, refl, ◌∙◌, Bool, List, [], ◌∷◌, arith, ◌⊎◌}
use uav_dag_offload_platform.Core.Errors.{Exec, ok, raised, overflow_error}
use uav_dag_offload_platform.Domain.Enums.{node_type_eq, execution_status_eq, subtask_status_eq}
use uav_dag_offload_platform.Db.Pages.{insert_by, order_by}
use uav_dag_offload_platform.Db.Table.{where_, count_where}
use uav_dag_offload_platform.Db.Store.{Store, task_key, node_key}
use uav_dag_offload_platform.Scheduler.Floats.{FloatOps}
use uav_dag_offload_platform.Services.Metrics.{TaskMetricsRead}

module _ {A : Type 0} where
  count-insert_by :
      (test : A → Bool) (before : A → A → Bool) (x : A) (xs : List A)
      → count_where test (insert_by before x xs) ≡ count_where test (x ∷ xs)
  unfolding count_where where_ insert_by
  count-insert_by test before x [] = refl
  count-insert_by test before x (y ∷ ys) = ground (arith, count-insert_by test before x ys)

  count-order_by :
      (test : A → Bool) (before : A → A → Bool) (xs : List A)
      → count_where test (order_by before xs) ≡ count_where test xs
  unfolding order_by count_where where_
  count-order_by test before [] = refl
  count-order_by test before (x ∷ xs) =
      count-insert_by test before x (order_by before xs)
      ∙ ground (arith, count-order_by test before xs)

-- The figures of a task, and how they add up.
pub record AddsUp {F : Type 0} (m : TaskMetricsRead F) : Type 0 where
  pub executions :
      m.success_execution_count + m.failed_execution_count + m.running_execution_count
      ≡ m.execution_count
  pub subtasks :
      m.success_subtask_count + m.failed_subtask_count + m.running_subtask_count
      ≤ m.total_subtask_count
  pub places : m.local_execution_count + m.edge_execution_count ≡ m.execution_count

-- A computation that returns without a change, or raises an OverflowError without one.
abbrev pub Settles : {A : Type 0} → Exec Store A → Store → Type 0
Settles {A} action s = ((x : A) × (action s ≡ (ok x, s))) ⊎ (action s ≡ (raised overflow_error, s))

module _ {F : Type 0} ⦃f : FloatOps F⦄ where
  -- What `get_task_metrics` answers: figures that add up, or an OverflowError.
  abbrev pub AddsUpOrRaises : Exec Store (TaskMetricsRead F) → Store → Type 0
  AddsUpOrRaises action s =
      ((m : TaskMetricsRead F) × (action s ≡ (ok m, s)) × AddsUp m)
      ⊎ (action s ≡ (raised overflow_error, s))
