-- ===== src/Examples/Monitoring.antt =====
-- app/services/monitoring_service.py and queue_monitoring_service.py on the small store.
use uav_dag_offload_platform.Common.{
  ◌≡◌, refl, String, Bool, true, false, some, List, ◌∷◌, ◌++◌, if◌then◌else◌,
}
use uav_dag_offload_platform.Common.Equality.{◌==◌, string_eq}
use uav_dag_offload_platform.Common.Int.{pos}
use uav_dag_offload_platform.Core.Errors.{ok}
use uav_dag_offload_platform.Core.Json
use uav_dag_offload_platform.Core.Json.{has_plain_values}
use uav_dag_offload_platform.Domain.Enums.{TaskStatus}
use uav_dag_offload_platform.Services.Queues.{
  Response, loaded, unreachable, QueueSettings, QueueMonitoringSnapshot, load_snapshots,
}
use uav_dag_offload_platform.Services.Queues.Snapshots.{is_readable}
use uav_dag_offload_platform.Services.Monitoring.{MonitoringSettings, render_prometheus_metrics}
use uav_dag_offload_platform.Services.Monitoring.Label.{
  Text, codes, quote, escape_label_value, read_label_value, read_label_value-escape,
}
use uav_dag_offload_platform.Services.Monitoring.Format.{text_of_int, sample_line}
use uav_dag_offload_platform.Services.Monitoring.Lines.{
  split_lines, metric_lines, render_prometheus_metrics-lines,
}
use uav_dag_offload_platform.Services.Monitoring.Snapshot.{IsConsistent, load_snapshot-IsConsistent}
use uav_dag_offload_platform.Services.Monitoring.Snapshot
use uav_dag_offload_platform.Examples.Stores.{in_flight}

number : text_of_int (pos 1047) ≡ codes "1047"
unfolding text_of_int
number = refl

escaped_sample : (sample_line "m" "queue" ("a\"b", pos 20)) ≡ codes "m{queue=\"a\\\"b\"} 20"
unfolding sample_line
escaped_sample = refl

read_label_value-escape_example :
    read_label_value (escape_label_value (codes "a\\\"b\n") ++ quote ∷ codes "} 3")
    ≡ some (codes "a\\\"b\n", codes "} 3")
read_label_value-escape_example = read_label_value-escape (codes "a\\\"b\n") (codes "} 3")

load_snapshot-IsConsistent_example :
    IsConsistent
      (in_flight TaskStatus.running 1)
      (Snapshot.load_snapshot (in_flight TaskStatus.running 1))
load_snapshot-IsConsistent_example = load_snapshot-IsConsistent (in_flight TaskStatus.running 1)

abbrev settings : QueueSettings
settings = record {
  celery_task_default_queue = "work";
  celery_task_dead_letter_queue = "dead";
  rabbitmq_queue_monitoring_enabled = true;
}

abbrev payload : Json.Fields
payload = Json.field "messages" (Json.int (pos 4)) Json.end

-- The first queue answers, the other does not.
abbrev fetch : String → Response
fetch queue_name = if queue_name == "work" then loaded (Json.object payload) else unreachable "gone"

readable : (queue_name : String) → is_readable (fetch queue_name) ≡ true
readable queue_name = by_answer (queue_name == "work")
  where
    by_answer :
        (b : Bool)
        → is_readable (if b then loaded (Json.object payload) else unreachable "gone") ≡ true
    by_answer true = unfold has_plain_values in refl
    by_answer false = refl

abbrev monitoring : MonitoringSettings
monitoring = record {
  queues = settings;
  retries = record {
    celery_execution_max_retries = pos 3;
    celery_execution_retry_backoff_seconds = pos 5;
    celery_execution_retry_backoff_max_seconds = pos 60;
  };
  execution_auto_enqueue_enabled = false;
  worker_heartbeat_timeout_seconds = 60;
}

render_prometheus_metrics-lines_example :
    (queue_snapshots : List QueueMonitoringSnapshot) × (text : Text) × (load_snapshots
        monitoring.queues fetch
      ≡ ok queue_snapshots)
    × (render_prometheus_metrics monitoring fetch 100 (in_flight TaskStatus.running 1) ≡ ok text)
    × (split_lines text
        ≡ metric_lines monitoring fetch 100 (in_flight TaskStatus.running 1) queue_snapshots)
render_prometheus_metrics-lines_example =
    render_prometheus_metrics-lines monitoring fetch 100 (in_flight TaskStatus.running 1) readable
