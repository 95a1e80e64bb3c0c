-- ===== src/Services/Workers/Snapshot.antt =====
-- What monitoring reads of app/services/worker_heartbeat_service.py and worker_alert_service.py. A
-- `Datetime` counts microseconds from the epoch, as far as a heartbeat's time is one.
use uav_dag_offload_platform.Common.{
  ℕ, ◌-◌, ◌*◌, ◌/◌, Option, none, some, List, [], ◌∷◌, ltb, length, if◌then◌else◌,
}
use uav_dag_offload_platform.Domain.Enums.{worker_status_str, worker_alert_type_str}
use uav_dag_offload_platform.Db.Models.{Datetime, WorkerHeartbeat, WorkerAlert}
use uav_dag_offload_platform.Db.Counts.{Counts, group_count}
use uav_dag_offload_platform.Services.Workers.{count_seen_since}

abbrev second : ℕ
second = 1000000

pub record WorkerHeartbeatSnapshot : Type 0 where
  pub total_workers : ℕ
  pub online_workers : ℕ
  pub latest_seen_at : Option Datetime
  pub workers_by_status : Counts

-- A heartbeat that the database returns as text is not modelled.
unfoldable pub latest_seen_timestamp : Option Datetime → ℕ
latest_seen_timestamp none = 0
latest_seen_timestamp (some at) = at / second

unfoldable count_total : List WorkerHeartbeat → ℕ
count_total rows = length rows

abbrev later_of : Datetime → Option Datetime → Option Datetime
later_of t none = some t
later_of t (some u) = some (if ltb t u then u else t)

-- select(func.max(last_seen_at))
unfoldable pub latest_seen_at : List WorkerHeartbeat → Option Datetime
latest_seen_at [] = none
latest_seen_at (r ∷ rows) = later_of r.last_seen_at (latest_seen_at rows)

unfoldable count_by_status : List WorkerHeartbeat → Counts
unfolding group_count
count_by_status rows = group_count (λ r. r.status) rows

unfoldable pub load_worker_snapshot :
    (timeout_seconds : ℕ) → Datetime → List WorkerHeartbeat → WorkerHeartbeatSnapshot
unfolding count_total count_seen_since latest_seen_at count_by_status
load_worker_snapshot timeout_seconds now rows = record {
  total_workers = count_total rows;
  online_workers = count_seen_since (now - timeout_seconds * second) rows;
  latest_seen_at = latest_seen_at rows;
  workers_by_status = count_by_status rows;
}

unfoldable pub count_by_type : List WorkerAlert → Counts
unfolding group_count
count_by_type rows = group_count (λ r. r.alert_type) rows
