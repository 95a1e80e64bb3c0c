-- ===== src/Services/Metrics.antt =====
-- app/services/metrics_service.py with the queries it makes of app/repositories/execution_repository.py:
-- the figures of one task. Points of time count microseconds.
pub mod Sums
use uav_dag_offload_platform.Common.{
  ℕ, ◌+◌, ◌≡◌, refl, ◌∙◌, sym, Bool, true, false, ◌||◌, Option, none, some, List, [], ◌∷◌, arith,
  eqb, eqb_iff, length, if◌then◌else◌, Option-cases, inl, inr,
}
use uav_dag_offload_platform.Common.Equality.{◌==◌}
use uav_dag_offload_platform.Common.Int.{ℤ, pos, sub_ℕ}
use uav_dag_offload_platform.Core.Errors.{
  Exec, Result, ok, raised, Exception, overflow_error, ◌>>=◌, or_else, raise, pure, gets,
}
use uav_dag_offload_platform.Domain.Enums.{
  NodeType, ExecutionStatus, SubtaskStatus, TaskStatus, node_type_eq, execution_status_eq,
  subtask_status_eq,
}
use uav_dag_offload_platform.Db.Models.{Uuid, Datetime, DagTask, DagSubtask, ExecutionRecord, Node}
use uav_dag_offload_platform.Db.Pages.{oldest_first, insert_by, order_by}
use uav_dag_offload_platform.Db.Table.{find, where_, count_where, All, map_option}
use uav_dag_offload_platform.Db.Store.{Store, task_key, node_key}
use uav_dag_offload_platform.Scheduler.Floats.{FloatOps}
use uav_dag_offload_platform.Services.Unlock.{subtasks_of}
use uav_dag_offload_platform.Services.Tasks.{get_task}

unfoldable pub list_all_by_task : Uuid → List ExecutionRecord → List ExecutionRecord
unfolding where_ order_by
list_all_by_task id rows = oldest_first (λ r. r.created_at) (where_ (λ r. eqb r.task_id id) rows)

abbrev pub is_type : NodeType → Option Node → Bool
is_type t none = false
is_type t (some node) = node.node_type == t

-- `count_by_node_type(task_id).get(node_type, 0)`: the rows of the join with a node of this type.
unfoldable pub count_by_node_type : Uuid → NodeType → List Node → List ExecutionRecord → ℕ
unfolding count_where where_ find
count_by_node_type id node_type nodes rows =
    count_where (λ r. is_type node_type (find r.node_id nodes))
      (where_ (λ r. eqb r.task_id id) rows)

-- FAILED, TIMEOUT, CANCELED
abbrev pub is_failed : ExecutionStatus → Bool
is_failed status =
    status == ExecutionStatus.failed
    || status == ExecutionStatus.timeout
    || status == ExecutionStatus.canceled

unfoldable pub durations : List ExecutionRecord → List ℕ
durations [] = []
durations (r ∷ rows) =
    let rest = durations rows in elim r.duration_ms [ none ↦ rest | some ms ↦ ms ∷ rest ]

unfoldable pub sum : List ℕ → ℕ
sum [] = 0
sum (x ∷ xs) = x + sum xs

pub record TaskMetricsRead (F : Type 0) : Type 0 where
  pub task_id : Uuid
  pub task_status : TaskStatus
  pub total_subtask_count : ℕ
  pub success_subtask_count : ℕ
  pub failed_subtask_count : ℕ
  pub running_subtask_count : ℕ
  pub execution_count : ℕ
  pub success_execution_count : ℕ
  pub failed_execution_count : ℕ
  pub running_execution_count : ℕ
  pub success_rate : F
  pub failure_rate : F
  pub total_execution_duration_ms : ℕ
  pub average_execution_duration_ms : Option F
  pub local_execution_count : ℕ
  pub edge_execution_count : ℕ
  pub offload_rate : F
  pub task_elapsed_duration_ms : Option ℤ

abbrev pub elapsed : {F : Type 0} → FloatOps F → Datetime → Datetime → Option ℤ
elapsed f started finished = elim (f.div_int (sub_ℕ finished started) 1000000) [
  | none ↦ none
  | some seconds ↦ f.round (f.mul seconds (f.of_int (pos 1000)))
]

-- `_elapsed_ms`
unfoldable pub elapsed_ms :
    {F : Type 0} → FloatOps F → Option Datetime → Option Datetime → Exec Store (Option ℤ)
elapsed_ms f (some started) (some finished) =
    or_else (elapsed f started finished) (raise overflow_error) >>= λ ms. pure (some ms)
elapsed_ms f _ _ = pure none

-- The response, with the rates and durations that are floats.
unfoldable pub figures :
    {F : Type 0}
    → DagTask
    → List DagSubtask
    → List Node
    → List ExecutionRecord
    → (success_rate failure_rate : F) → Option F
    → (offload_rate : F) → Option ℤ
    → TaskMetricsRead F
unfolding list_all_by_task count_by_node_type count_where durations sum
figures task subtasks nodes executions success_rate failure_rate mean offload_rate ms =
    let records = list_all_by_task task.id executions in
    record {
      task_id = task.id;
      task_status = task.status;
      total_subtask_count = length subtasks;
      success_subtask_count = count_where (λ r. r.status == SubtaskStatus.success) subtasks;
      failed_subtask_count = count_where (λ r. r.status == SubtaskStatus.failed) subtasks;
      running_subtask_count = count_where (λ r. r.status == SubtaskStatus.running) subtasks;
      execution_count = length records;
      success_execution_count = count_where (λ r. r.status == ExecutionStatus.success) records;
      failed_execution_count = count_where (λ r. is_failed r.status) records;
      running_execution_count = count_where (λ r. r.status == ExecutionStatus.running) records;
      success_rate = success_rate;
      failure_rate = failure_rate;
      total_execution_duration_ms = sum (durations records);
      average_execution_duration_ms = mean;
      local_execution_count = count_by_node_type task.id NodeType.uav nodes executions;
      edge_execution_count = count_by_node_type task.id NodeType.edge nodes executions;
      offload_rate = offload_rate;
      task_elapsed_duration_ms = ms;
    }

module _ {F : Type 0} ⦃f : FloatOps F⦄ where
  -- round(numerator / denominator, 4)
  abbrev pub rounded : ℕ → ℕ → Exec Store F
  rounded numerator denominator =
      or_else (map_option f.round_4 (f.div_int (pos numerator) denominator)) (raise overflow_error)

  -- `_rate`
  unfoldable pub rate : ℕ → ℕ → Exec Store F
  rate numerator denominator =
      if eqb denominator 0 then pure (f.literal 0 1) else rounded numerator denominator

  unfoldable pub average : List ℕ → Exec Store (Option F)
  unfolding sum
  average [] = pure none
  average (d ∷ ds) = rounded (sum (d ∷ ds)) (length (d ∷ ds)) >>= λ mean. pure (some mean)

  unfoldable pub task_metrics :
      DagTask → List DagSubtask → List Node → List ExecutionRecord → Exec Store (TaskMetricsRead F)
  unfolding list_all_by_task count_by_node_type count_where rate average elapsed_ms figures
  task_metrics task subtasks nodes executions = do
    let records = list_all_by_task task.id executions
    success_rate ←
        rate (count_where (λ r. r.status == ExecutionStatus.success) records) (length records)
    failure_rate ← rate (count_where (λ r. is_failed r.status) records) (length records)
    mean ← average (durations records)
    offload_rate ← rate (count_by_node_type task.id NodeType.edge nodes executions) (length records)
    ms ← elapsed_ms f task.started_at task.finished_at
    pure (figures task subtasks nodes executions success_rate failure_rate mean offload_rate ms)

  unfoldable pub get_task_metrics : Uuid → Exec Store (TaskMetricsRead F)
  unfolding get_task task_metrics subtasks_of
  get_task_metrics id = do
    task ← get_task id
    subtasks ← gets (λ s. subtasks_of task.id s.subtasks)
    nodes ← gets (λ s. s.nodes)
    executions ← gets (λ s. s.execution_records)
    task_metrics task subtasks nodes executions
