-- ===== src/Examples/Order.antt =====
-- The order of execution in the small store.
use mathlib.Core.List.{Permᴰ, reverse}
use mathlib.Core.List.Permᴰ
use uav_dag_offload_platform.Common.{◌≡◌, refl, true, none, [], ◌∷◌, map, arith, String}
use uav_dag_offload_platform.Common.Equality.{nat_eq}
use uav_dag_offload_platform.Domain.Dag.{contains}
use uav_dag_offload_platform.Domain.Dag.Graph.{Distinct}
use uav_dag_offload_platform.Domain.Enums.{TaskStatus, SubtaskExecutionConstraint}
use uav_dag_offload_platform.Db.Models.{Uuid, DagTask}
use uav_dag_offload_platform.Db.Table.{find, where_, all_rows}
use uav_dag_offload_platform.Db.Table.Bulk.{keys}
use uav_dag_offload_platform.Db.Store.{Store, subtask_key, execution_record_key}
use uav_dag_offload_platform.Services.Unlock.{subtasks_of, predecessors_of}
use uav_dag_offload_platform.Services.Unlock.Laws.{row_of, status_in, is_free}
use uav_dag_offload_platform.Services.Execution.{dependencies_of, start_execution}
use uav_dag_offload_platform.Services.Tasks.{Answer, returned, cancel_task}
use uav_dag_offload_platform.Services.Tasks.Create.{
  DagTaskCreate, SubtaskCreate, create_task, new_task, external_ids, edges,
}
use uav_dag_offload_platform.Services.Listings.{DagTaskDetailRead, get_task_detail}
use uav_dag_offload_platform.Services.Listings.Detail.{get_task_detail-create_task}
use uav_dag_offload_platform.Core.Errors.{ok}
use uav_dag_offload_platform.Services.Order.{IsInOrder}
use uav_dag_offload_platform.Services.Order.Ordered.{IsOrdered}
use uav_dag_offload_platform.Services.Order.Starts.{start_execution-IsOrdered}
use uav_dag_offload_platform.Services.Order.Cancels.{cancel_task-IsOrdered}
use uav_dag_offload_platform.Services.Order.Appended.{IsFresh}
use uav_dag_offload_platform.Services.Order.Creates.{IsInitial, create_task-IsOrdered}
use uav_dag_offload_platform.Examples.Stores.{planned, in_flight}

planned-orders :
    (t : Uuid) → IsInOrder (dependencies_of t planned.dependencies) (status_in t planned.subtasks)
unfolding dependencies_of where_ row_of find subtasks_of is_free all_rows predecessors_of
planned-orders t = record { started = λ v h. ground arith; waiting = λ v h. ground arith }

planned-IsOrdered : IsOrdered planned
unfolding keys contains
planned-IsOrdered = record { distinct = (refl, (refl, tt)); in_order = planned-orders }

running-orders :
    (t : Uuid)
    → IsInOrder
        (dependencies_of t (in_flight TaskStatus.running 1).dependencies)
        (status_in t (in_flight TaskStatus.running 1).subtasks)
unfolding dependencies_of where_ row_of find subtasks_of is_free all_rows predecessors_of
running-orders t = record { started = λ v h. ground arith; waiting = λ v h. ground arith }

running-IsOrdered : IsOrdered (in_flight TaskStatus.running 1)
unfolding keys contains
running-IsOrdered = record { distinct = (refl, (refl, tt)); in_order = running-orders }

start_execution-IsOrdered_example : IsOrdered (start_execution 20 1 5 planned).1
start_execution-IsOrdered_example = start_execution-IsOrdered 20 1 5 planned planned-IsOrdered

abbrev obliging : String → Answer
obliging celery_task_id = returned true

Distinct-runs : Distinct (keys (in_flight TaskStatus.running 1).execution_records)
unfolding keys contains
Distinct-runs = (refl, tt)

cancel_task-IsOrdered_example :
    IsOrdered (cancel_task obliging 30 1 none (in_flight TaskStatus.running 1)).1
cancel_task-IsOrdered_example =
    cancel_task-IsOrdered obliging 30 1 none (in_flight TaskStatus.running 1) Distinct-runs
      running-IsOrdered

abbrev subtask : String → SubtaskCreate
subtask name = record {
  external_id = name;
  name = name;
  compute_load = 100;
  input_data_size_mb = 10;
  output_data_size_mb = 1;
  execution_constraint = SubtaskExecutionConstraint.offloadable;
  max_retries = 1;
}

abbrev form : DagTaskCreate
form = record {
  name = "patrol";
  priority = 2;
  deadline_at = none;
  submitted_by = none;
  subtasks = subtask "fly" ∷ subtask "look" ∷ [];
  dependencies = record { from_ = "fly"; to = "look" } ∷ [];
}

planned-IsFresh : IsFresh planned
planned-IsFresh = record {
  subtask_ids = (omega arith, (omega arith, tt));
  subtask_tasks = (omega arith, (omega arith, tt));
  dependency_tasks = (omega arith, tt);
}

create_task-IsOrdered_example :
    IsFresh (create_task 30 form planned).1
    × IsOrdered (create_task 30 form planned).1
    × IsInitial planned.next_uuid (create_task 30 form planned).1
create_task-IsOrdered_example =
    create_task-IsOrdered 30 form planned planned-IsFresh planned-IsOrdered

abbrev created : DagTask
created = new_task 30 8 form

abbrev after : Store
unfolding create_task
after = (create_task 30 form planned).1

creates : create_task 30 form planned ≡ (ok created, after)
unfolding create_task after
creates = refl

-- A database that lists its rows backwards.
get_task_detail-create_task_example :
    (d : DagTaskDetailRead) × (get_task_detail reverse reverse 8 after ≡ (ok d, after))
    × (d.name ≡ "patrol")
    × Permᴰ (external_ids form) (map (λ r. r.external_id) d.subtasks)
    × Permᴰ (edges form) (map (λ e. (e.from_, e.to)) d.dependencies)
get_task_detail-create_task_example =
    get_task_detail-create_task reverse reverse 30 form planned after created
      (λ rows. Permᴰ.symm (Permᴰ.reverse rows)) (λ ds. Permᴰ.symm (Permᴰ.reverse ds))
      planned-IsFresh (omega arith, tt) creates
