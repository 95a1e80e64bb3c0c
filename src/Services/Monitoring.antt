-- ===== src/Services/Monitoring.antt =====
-- app/services/monitoring_service.py with app/repositories/monitoring_repository.py: which metrics are
-- printed. `metrics` lists the calls of `_append_gauge` and `_append_labeled_gauge` in order.
pub mod Label
pub mod Snapshot
pub mod Format
pub mod Lines
use uav_dag_offload_platform.Common.{
  ℕ, zero, suc, ◌+◌, ◌/◌, ◌%◌, String, Bool, true, false, ◌&&◌, ◌||◌, Option, none, some, List, [],
  ◌∷◌, ◌++◌, map, eqb, ltb, leb, if◌then◌else◌,
}
use uav_dag_offload_platform.Common.Equality.{◌==◌, string_eq}
use uav_dag_offload_platform.Common.Int.{ℤ, pos, negsuc, leb_ℤ}
use uav_dag_offload_platform.Core.Errors.{Result, ok, raised}
use uav_dag_offload_platform.Db.Counts.{Counts}
use uav_dag_offload_platform.Db.Models.{Datetime}
use uav_dag_offload_platform.Db.Pages.{order_by}
use uav_dag_offload_platform.Db.Store.{Store}
use uav_dag_offload_platform.Services.Queues.{
  Response, QueueSettings, QueueMonitoringSnapshot, load_snapshots, then_,
}
use uav_dag_offload_platform.Services.Workers.{RetrySettings}
use uav_dag_offload_platform.Services.Workers.Snapshot.{
  WorkerHeartbeatSnapshot, latest_seen_timestamp, load_worker_snapshot, count_by_type,
}
use uav_dag_offload_platform.Services.Monitoring.Label.{Text}
use uav_dag_offload_platform.Services.Monitoring.Format.{
  Values, Metric, gauge, labeled_gauge, append_metrics, join_lines,
}
use uav_dag_offload_platform.Services.Monitoring.Snapshot.{MonitoringSnapshot, load_snapshot}

abbrev counts : Counts → Values
counts values = map (λ item. (item.0, pos item.1)) values

-- d[key] = value
unfoldable set_item : String → ℤ → Values → Values
set_item key value [] = (key, value) ∷ []
set_item key value ((k, v) ∷ values) =
    let rest = set_item key value values in
    if k == key then (key, value) ∷ values else (k, v) ∷ rest

-- {snapshot.queue_name: value(snapshot) for snapshot in queue_snapshots}
unfoldable by_queue : (QueueMonitoringSnapshot → ℤ) → Values → List QueueMonitoringSnapshot → Values
unfolding set_item
by_queue value values [] = values
by_queue value values (snapshot ∷ snapshots) =
    by_queue value (set_item snapshot.queue_name (value snapshot) values) snapshots

abbrev int_of_bool : Bool → ℤ
int_of_bool true = pos 1
int_of_bool false = pos 0

pub record MonitoringSettings : Type 0 where
  pub queues : QueueSettings
  pub retries : RetrySettings
  pub execution_auto_enqueue_enabled : Bool
  pub worker_heartbeat_timeout_seconds : ℕ

-- The calls of `render_prometheus_metrics`, in order.
unfoldable pub metrics :
    MonitoringSettings
    → MonitoringSnapshot
    → List QueueMonitoringSnapshot
    → WorkerHeartbeatSnapshot
    → (alerts_by_type : Counts) → List Metric
unfolding by_queue latest_seen_timestamp
metrics settings snapshot queue_snapshots worker_snapshot alerts_by_type =
    gauge "uav_dag_nodes_total" "Current number of registered nodes." (pos snapshot.node_count)
    ∷ labeled_gauge "uav_dag_nodes_by_type_total"
        "Current number of registered nodes grouped by node type." "node_type"
        (counts snapshot.nodes_by_type)
    ∷ labeled_gauge "uav_dag_nodes_by_status_total"
        "Current number of registered nodes grouped by status." "status"
        (counts snapshot.nodes_by_status)
    ∷ gauge "uav_dag_tasks_total" "Current number of DAG tasks." (pos snapshot.task_count)
    ∷ labeled_gauge "uav_dag_tasks_by_status_total" "Current number of DAG tasks grouped by status."
        "status" (counts snapshot.tasks_by_status)
    ∷ gauge "uav_dag_subtasks_total" "Current number of DAG subtasks." (pos snapshot.subtask_count)
    ∷ labeled_gauge "uav_dag_subtasks_by_status_total"
        "Current number of DAG subtasks grouped by status." "status"
        (counts snapshot.subtasks_by_status)
    ∷ gauge "uav_dag_schedule_plans_total" "Current number of schedule plans."
        (pos snapshot.schedule_plan_count)
    ∷ labeled_gauge "uav_dag_schedule_plans_by_status_total"
        "Current number of schedule plans grouped by status." "status"
        (counts snapshot.schedule_plans_by_status)
    ∷ gauge "uav_dag_executions_total" "Current number of execution records."
        (pos snapshot.execution_count)
    ∷ labeled_gauge "uav_dag_executions_by_status_total"
        "Current number of execution records grouped by status." "status"
        (counts snapshot.executions_by_status)
    ∷ gauge "uav_dag_execution_duration_ms_sum"
        "Sum of recorded execution durations in milliseconds."
        (pos snapshot.execution_duration_sum_ms)
    ∷ gauge "uav_dag_execution_duration_ms_count"
        "Number of execution records that have duration values."
        (pos snapshot.execution_duration_count)
    ∷ gauge "uav_dag_worker_auto_enqueue_enabled"
        "Whether API requests automatically enqueue execution records to Celery."
        (int_of_bool settings.execution_auto_enqueue_enabled)
    ∷ gauge "uav_dag_worker_retry_max_retries"
        "Configured maximum Celery retries for execution worker tasks."
        settings.retries.celery_execution_max_retries
    ∷ gauge "uav_dag_worker_retry_backoff_seconds"
        "Configured base retry backoff for execution worker tasks."
        settings.retries.celery_execution_retry_backoff_seconds
    ∷ gauge "uav_dag_worker_retry_backoff_max_seconds"
        "Configured maximum retry backoff for execution worker tasks."
        settings.retries.celery_execution_retry_backoff_max_seconds
    ∷ gauge "uav_dag_worker_heartbeat_timeout_seconds"
        "Configured timeout for considering a worker heartbeat online."
        (pos settings.worker_heartbeat_timeout_seconds)
    ∷ gauge "uav_dag_workers_total" "Current number of workers that have reported heartbeats."
        (pos worker_snapshot.total_workers)
    ∷ gauge "uav_dag_workers_online"
        "Current number of workers whose last heartbeat is within the timeout."
        (pos worker_snapshot.online_workers)
    ∷ gauge "uav_dag_worker_latest_seen_timestamp"
        "Latest worker heartbeat timestamp in Unix seconds."
        (pos (latest_seen_timestamp worker_snapshot.latest_seen_at))
    ∷ labeled_gauge "uav_dag_workers_by_status_total"
        "Current number of workers grouped by heartbeat status." "status"
        (counts worker_snapshot.workers_by_status)
    ∷ labeled_gauge "uav_dag_worker_alerts_total"
        "Current number of worker alerts grouped by alert type." "alert_type"
        (counts alerts_by_type)
    ∷ labeled_gauge "uav_dag_queue_monitor_enabled" "Whether RabbitMQ queue monitoring is enabled."
        "queue" (by_queue (λ snapshot. int_of_bool snapshot.enabled) [] queue_snapshots)
    ∷ labeled_gauge "uav_dag_queue_monitor_available"
        "Whether RabbitMQ queue monitoring is currently reachable." "queue"
        (by_queue (λ snapshot. int_of_bool snapshot.available) [] queue_snapshots)
    ∷ labeled_gauge "uav_dag_queue_messages" "Current RabbitMQ messages in Celery queues." "queue"
        (by_queue (λ snapshot. snapshot.messages) [] queue_snapshots)
    ∷ labeled_gauge "uav_dag_queue_messages_ready"
        "Current RabbitMQ ready messages in Celery queues." "queue"
        (by_queue (λ snapshot. snapshot.messages_ready) [] queue_snapshots)
    ∷ labeled_gauge "uav_dag_queue_messages_unacknowledged"
        "Current RabbitMQ unacknowledged messages in Celery queues." "queue"
        (by_queue (λ snapshot. snapshot.messages_unacknowledged) [] queue_snapshots)
    ∷ labeled_gauge "uav_dag_queue_consumers"
        "Current RabbitMQ consumers attached to Celery queues." "queue"
        (by_queue (λ snapshot. snapshot.consumers) [] queue_snapshots)
    ∷ []

unfoldable pub render_prometheus_metrics :
    MonitoringSettings → (String → Response) → Datetime → Store → Result Text
unfolding append_metrics metrics join_lines load_snapshot load_snapshots load_worker_snapshot
    count_by_type
render_prometheus_metrics settings fetch now s =
    then_ (load_snapshots settings.queues fetch) λ queue_snapshots. ok (
      join_lines (
        append_metrics [] (
          metrics settings (load_snapshot s) queue_snapshots
            (load_worker_snapshot settings.worker_heartbeat_timeout_seconds now s.worker_heartbeats)
            (count_by_type s.worker_alerts))))
