-- ===== src/Examples/Workers.antt =====
-- The retry policy with the defaults of app/core/config.py, an interrupted wait, and a name
-- in use.
use uav_dag_offload_platform.Common.{ℕ, ◌≡◌, refl, Bool, true, none, leb}
use uav_dag_offload_platform.Common.Equality.{string_eq}
use uav_dag_offload_platform.Domain.Enums.{NodeType}
use uav_dag_offload_platform.Domain.Dag.Graph.{Distinct}
use uav_dag_offload_platform.Common.Int.{pos, min_ℤ, scale_ℤ}
use uav_dag_offload_platform.Db.Store.{Store, empty_store}
use uav_dag_offload_platform.Core.Errors.{raised, app_error, node_name_conflict}
use uav_dag_offload_platform.Services.Workers.{
  WorkerException, calculate_retry_countdown, Handling, handle_exception, sleep_with_cancel_checks,
}
use uav_dag_offload_platform.Services.Workers.Retry.{calculate_retry_countdown_lem}
use uav_dag_offload_platform.Services.Nodes.{NodeCreate, create_node}
use uav_dag_offload_platform.Services.Nodes.Names.{names, create_node-Distinct}

third_retry :
    handle_exception
      (record {
        celery_execution_max_retries = pos 3;
        celery_execution_retry_backoff_seconds = pos 5;
        celery_execution_retry_backoff_max_seconds = pos 60;
      })
      2
      WorkerException.timeout_error
    ≡ Handling.retry (pos 20)
unfolding handle_exception
third_retry = refl

calculate_retry_countdown_lem_example :
    (calculate_retry_countdown 0 (pos 5) (pos 60) ≡ min_ℤ (pos 5) (pos 60))
    × (calculate_retry_countdown 4 (pos 5) (pos 60)
        ≡ min_ℤ (scale_ℤ (calculate_retry_countdown 3 (pos 5) (pos 60)) 2) (pos 60))
calculate_retry_countdown_lem_example = calculate_retry_countdown_lem 3 5 60

-- Canceled after three ticks, checked every two.
abbrev canceled : ℕ → Bool
canceled n = leb 3 n

interrupted : sleep_with_cancel_checks canceled 10 2 ≡ (true, 4)
unfolding sleep_with_cancel_checks
interrupted = refl

abbrev drone : NodeCreate
drone = record {
  name = "drone";
  node_type = NodeType.uav;
  cpu_capacity = 200;
  memory_capacity_mb = 1024;
  network_address = none;
  description = none;
}

abbrev one_node : Store
unfolding create_node
one_node = (create_node 5 drone empty_store).1

conflict :
    (create_node 6 drone one_node).0
    ≡ raised (app_error (record { code = node_name_conflict; status_code = 409 }))
unfolding create_node one_node
conflict = refl

create_node-Distinct_example : Distinct (names (create_node 5 drone empty_store).1.nodes)
create_node-Distinct_example = create_node-Distinct 5 drone empty_store tt
