-- ===== src/Services/Queues/Snapshots.antt =====
-- What the monitoring of the queues promises of app/services/queue_monitoring_service.py.
use uav_dag_offload_platform.Common.{
  ◌≡◌, refl, sym, ◌∙◌, inl, inr, String, Bool, true, false, ◌&&◌, List, [], ◌∷◌, map, arith,
  Bool-cases,
}
use uav_dag_offload_platform.Common.Equality.{string_eq}
use uav_dag_offload_platform.Core.Errors.{ok}
use uav_dag_offload_platform.Core.Json
use uav_dag_offload_platform.Core.Json.{has_plain_values, int_value-returns}
use uav_dag_offload_platform.Domain.Dag.{contains}
use uav_dag_offload_platform.Domain.Dag.Graph.{Distinct}
use uav_dag_offload_platform.Db.Table.{All}
use uav_dag_offload_platform.Services.Queues.{
  Response, loaded, unreachable, failed, QueueSettings, QueueMonitoringSnapshot, empty_snapshot,
  available_snapshot, snapshot_of, queue_names, load_snapshot, load_each, load_snapshots,
}

abbrev is_object : Response → Bool
is_object (loaded (Json.object payload)) = true
is_object _ = false

-- No exception but those that the service catches, and no number that `int` refuses.
abbrev pub is_readable : Response → Bool
is_readable (loaded (Json.object payload)) = has_plain_values payload
is_readable (failed e) = false
is_readable _ = true

-- The snapshot tells its queue, whether monitoring is on, and whether the response was an object.
pub record Tells (settings : QueueSettings) (fetch : String → Response)
    (snapshot : QueueMonitoringSnapshot) : Type 0 where
  pub enabled : snapshot.enabled ≡ settings.rabbitmq_queue_monitoring_enabled
  pub available :
      snapshot.available
      ≡ (settings.rabbitmq_queue_monitoring_enabled && is_object (fetch snapshot.queue_name))

available_snapshot-returns :
    (queue_name : String) (payload : Json.Fields)
    → has_plain_values payload ≡ true
    → (snapshot : QueueMonitoringSnapshot) × (available_snapshot queue_name payload ≡ ok snapshot)
      × (snapshot.queue_name ≡ queue_name)
      × (snapshot.enabled ≡ true)
      × (snapshot.available ≡ true)
unfolding available_snapshot
available_snapshot-returns queue_name payload plain =
    let (a, first) = int_value-returns payload "messages" plain in
    let (b, second) = int_value-returns payload "messages_ready" plain in
    let (c, third) = int_value-returns payload "messages_unacknowledged" plain in
    let (d, fourth) = int_value-returns payload "consumers" plain in
    (
      record {
        queue_name = queue_name;
        enabled = true;
        available = true;
        messages = a;
        messages_ready = b;
        messages_unacknowledged = c;
        consumers = d;
      },
      rw (first, second, third, fourth),
      refl,
      refl,
      refl,
    )

snapshot_of-returns :
    (queue_name : String) (response : Response)
    → is_readable response ≡ true
    → (snapshot : QueueMonitoringSnapshot) × (snapshot_of queue_name response ≡ ok snapshot)
      × (snapshot.queue_name ≡ queue_name)
      × (snapshot.enabled ≡ true)
      × (snapshot.available ≡ is_object response)
unfolding snapshot_of empty_snapshot
snapshot_of-returns q (loaded (Json.object payload)) readable =
    available_snapshot-returns q payload readable
snapshot_of-returns q (loaded Json.null) readable = (empty_snapshot q true, refl, refl, refl, refl)
snapshot_of-returns q (loaded (Json.bool b)) readable =
    (empty_snapshot q true, refl, refl, refl, refl)
snapshot_of-returns q (loaded (Json.int n)) readable =
    (empty_snapshot q true, refl, refl, refl, refl)
snapshot_of-returns q (loaded (Json.float x)) readable =
    (empty_snapshot q true, refl, refl, refl, refl)
snapshot_of-returns q (loaded (Json.string s)) readable =
    (empty_snapshot q true, refl, refl, refl, refl)
snapshot_of-returns q (loaded (Json.array vs)) readable =
    (empty_snapshot q true, refl, refl, refl, refl)
snapshot_of-returns q (unreachable message) readable =
    (empty_snapshot q true, refl, refl, refl, refl)
snapshot_of-returns q (failed e) readable = absurd (ground (arith, readable))

module _ (settings : QueueSettings) (fetch : String → Response)
    (readable : (queue_name : String) → is_readable (fetch queue_name) ≡ true) where
  load_snapshot-returns :
      (queue_name : String)
      → (snapshot : QueueMonitoringSnapshot) × (load_snapshot settings fetch queue_name
          ≡ ok snapshot)
        × (snapshot.queue_name ≡ queue_name)
        × Tells settings fetch snapshot
  unfolding load_snapshot empty_snapshot
  load_snapshot-returns queue_name =
      let (snapshot, returned, named, on, reached) =
        snapshot_of-returns queue_name (fetch queue_name) (readable queue_name) in
      elim (Bool-cases settings.rabbitmq_queue_monitoring_enabled) [
        | inl enabled ↦ (
          snapshot,
          rw enabled returned,
          named,
          record { enabled = on ∙ sym enabled; available = rw (enabled, named) reached },
        )
        | inr disabled ↦ (
          empty_snapshot queue_name false,
          rw disabled,
          refl,
          record { enabled = sym disabled; available = rw disabled },
        )
      ]

  load_each-returns :
      (names : List String)
      → (snapshots : List QueueMonitoringSnapshot) × (load_each settings fetch names ≡ ok snapshots)
        × (map (λ snapshot. snapshot.queue_name) snapshots ≡ names)
        × All (Tells settings fetch) snapshots
  unfolding load_each
  load_each-returns [] = ([], refl, refl, tt)
  load_each-returns (name ∷ names) =
      let (snapshot, returned, named, told) = load_snapshot-returns name in
      let (snapshots, rest, order, all) = load_each-returns names in
      (snapshot ∷ snapshots, rw (returned, rest), cc (named, order), (told, all))

queue_names-Distinct : (settings : QueueSettings) → Distinct (queue_names settings)
unfolding queue_names contains
queue_names-Distinct settings = ground (
  arith,
  string_eq.agrees settings.celery_task_default_queue settings.celery_task_dead_letter_queue,
  string_eq.agrees settings.celery_task_dead_letter_queue settings.celery_task_default_queue,
)

pub load_snapshots-returns :
    (settings : QueueSettings) (fetch : String → Response)
    → ((queue_name : String) → is_readable (fetch queue_name) ≡ true)
    → (snapshots : List QueueMonitoringSnapshot) × (load_snapshots settings fetch ≡ ok snapshots)
      × (map (λ snapshot. snapshot.queue_name) snapshots ≡ queue_names settings)
      × All (Tells settings fetch) snapshots
      × Distinct (queue_names settings)
unfolding load_snapshots
load_snapshots-returns settings fetch readable =
    let (snapshots, returned, named, told) =
      load_each-returns settings fetch readable (queue_names settings) in
    (snapshots, returned, named, told, queue_names-Distinct settings)
