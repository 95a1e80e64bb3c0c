-- ===== src/Services/Queues.antt =====
-- app/services/queue_monitoring_service.py and dead_letter_queue_service.py. The request to RabbitMQ's
-- management interface (URL, authorization, `urlopen`, `json.load`) is a parameter: what it answers.
pub mod DeadLetters
pub mod Snapshots
pub mod Probe
pub mod Ends
use uav_dag_offload_platform.Common.{
  ℕ, ◌≡◌, refl, String, Bool, true, false, Option, none, some, List, [], ◌∷◌, if◌then◌else◌,
}
use uav_dag_offload_platform.Common.Equality.{◌==◌, string_eq}
use uav_dag_offload_platform.Common.Int.{ℤ, pos}
use uav_dag_offload_platform.Core.Errors.{Result, ok, raised, Exception, value_error}
use uav_dag_offload_platform.Core.Json

-- What becomes of a request: the JSON value of the response; an exception of the classes that the
-- services catch (HTTPError, URLError, OSError, TimeoutError, ValueError), with its text; or another one.
pub data Response : Type 0 where
  loaded : Json.Json → Response
  unreachable : (message : String) → Response
  failed : Exception → Response

pub record QueueSettings : Type 0 where
  pub celery_task_default_queue : String
  pub celery_task_dead_letter_queue : String
  pub rabbitmq_queue_monitoring_enabled : Bool

pub record QueueMonitoringSnapshot : Type 0 where
  pub queue_name : String
  pub enabled : Bool
  pub available : Bool
  pub messages : ℤ
  pub messages_ready : ℤ
  pub messages_unacknowledged : ℤ
  pub consumers : ℤ

unfoldable pub empty_snapshot : String → Bool → QueueMonitoringSnapshot
empty_snapshot queue_name enabled = record {
  queue_name = queue_name;
  enabled = enabled;
  available = false;
  messages = pos 0;
  messages_ready = pos 0;
  messages_unacknowledged = pos 0;
  consumers = pos 0;
}

-- A chain of results.
abbrev pub then_ : {A B : Type 0} → Result A → (A → Result B) → Result B
then_ (ok a) f = f a
then_ (raised e) f = raised e

unfoldable pub available_snapshot : String → Json.Fields → Result QueueMonitoringSnapshot
unfolding Json.int_value
available_snapshot queue_name payload = then_ (Json.int_value payload "messages") λ messages.
    then_ (Json.int_value payload "messages_ready") λ messages_ready.
      then_ (Json.int_value payload "messages_unacknowledged") λ messages_unacknowledged.
        then_ (Json.int_value payload "consumers") λ consumers. ok (record {
          queue_name = queue_name;
          enabled = true;
          available = true;
          messages = messages;
          messages_ready = messages_ready;
          messages_unacknowledged = messages_unacknowledged;
          consumers = consumers;
        })

-- What the fetch makes of a payload that is not an object is the ValueError that is caught.
unfoldable pub snapshot_of : String → Response → Result QueueMonitoringSnapshot
unfolding available_snapshot empty_snapshot
snapshot_of queue_name (loaded (Json.object payload)) = available_snapshot queue_name payload
snapshot_of queue_name (loaded payload) = ok (empty_snapshot queue_name true)
snapshot_of queue_name (unreachable message) = ok (empty_snapshot queue_name true)
snapshot_of queue_name (failed e) = raised e

-- `list(dict.fromkeys(queue_names))` of the two names.
unfoldable pub queue_names : QueueSettings → List String
queue_names settings =
    if settings.celery_task_default_queue == settings.celery_task_dead_letter_queue
    then settings.celery_task_default_queue ∷ []
    else settings.celery_task_default_queue ∷ settings.celery_task_dead_letter_queue ∷ []

module _ (settings : QueueSettings) (fetch : String → Response) where
  -- `_load_snapshot`
  unfoldable pub load_snapshot : String → Result QueueMonitoringSnapshot
  unfolding snapshot_of
  load_snapshot queue_name =
      if settings.rabbitmq_queue_monitoring_enabled
      then snapshot_of queue_name (fetch queue_name)
      else ok (empty_snapshot queue_name false)

  unfoldable load_each : List String → Result (List QueueMonitoringSnapshot)
  unfolding load_snapshot
  load_each [] = ok []
  load_each (queue_name ∷ names) =
      then_ (load_snapshot queue_name)
        λ snapshot. then_ (load_each names) λ snapshots. ok (snapshot ∷ snapshots)

  unfoldable pub load_snapshots : Result (List QueueMonitoringSnapshot)
  unfolding load_each queue_names
  load_snapshots = load_each (queue_names settings)
