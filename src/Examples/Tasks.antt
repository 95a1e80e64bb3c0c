-- ===== src/Examples/Tasks.antt =====
-- app/services/task_service.py on the small store.
use uav_dag_offload_platform.Common.{String, ◌≡◌, refl, true, false, none, some}
use uav_dag_offload_platform.Common.Equality.{nat_eq, string_eq}
use uav_dag_offload_platform.Domain.Dag.{contains}
use uav_dag_offload_platform.Domain.Enums.{TaskStatus, ExecutionStatus}
use uav_dag_offload_platform.Db.Table.{find}
use uav_dag_offload_platform.Db.Table.Bulk.{keys}
use uav_dag_offload_platform.Db.Store.{task_key, execution_record_key, subtask_key}
use uav_dag_offload_platform.Core.Errors.{ok}
use uav_dag_offload_platform.Services.Tasks.{Answer, returned, cancel_task}
use uav_dag_offload_platform.Services.Tasks.Cancel.{HasDistinctKeys}
use uav_dag_offload_platform.Services.Execution.{ExecutionResult, report_result}
use uav_dag_offload_platform.Services.Execution.Late.{report_result-after_cancel}
use uav_dag_offload_platform.Examples.Stores.{survey, run, in_flight, report}

abbrev obliging : String → Answer
obliging celery_task_id = returned true

distinct : HasDistinctKeys (in_flight TaskStatus.running 0)
unfolding keys contains
distinct = record { execution_records = (refl, tt); subtasks = (refl, (refl, tt)) }

found : (status : TaskStatus) → find 1 (in_flight status 0).tasks ≡ some (survey status)
unfolding find
found status = refl

found_run : find 8 (in_flight TaskStatus.running 0).execution_records ≡ some run
unfolding find
found_run = refl

report_result-after_cancel_example :
    ((report_result 40
        (report ExecutionStatus.success)
        (cancel_task obliging 30 1 none (in_flight TaskStatus.running 0)).1).1
      ≡ (cancel_task obliging 30 1 none (in_flight TaskStatus.running 0)).1)
    × ((b : ExecutionResult)
        → (report_result 40
            (report ExecutionStatus.success)
            (cancel_task obliging 30 1 none (in_flight TaskStatus.running 0)).1).0
          ≡ ok b
        → b.accepted ≡ false)
report_result-after_cancel_example =
    report_result-after_cancel obliging 30 40 1 none (in_flight TaskStatus.running 0)
      (survey TaskStatus.running) (report ExecutionStatus.success) run (found TaskStatus.running)
      refl distinct found_run refl
