-- ===== src/Services/Queues/DeadLetters.antt =====
-- app/services/dead_letter_queue_service.py. `str` of a value that is not a string, and the request for
-- the messages, are parameters.
use uav_dag_offload_platform.Common.{
  String, Bool, true, false, Option, none, some, List, [], ◌∷◌, if◌then◌else◌,
}
use uav_dag_offload_platform.Common.Int.{ℤ}
use uav_dag_offload_platform.Core.Errors.{Result, ok, raised}
use uav_dag_offload_platform.Core.Json
use uav_dag_offload_platform.Services.Queues.{
  Response, loaded, unreachable, failed, QueueSettings, then_,
}

pub record DeadLetterQueueMessage : Type 0 where
  pub payload : Option Json.Json
  pub payload_encoding : Option String
  pub exchange : Option String
  pub routing_key : Option String
  pub redelivered : Bool
  pub message_count : ℤ
  pub properties : Json.Fields
  pub headers : Json.Fields

pub record DeadLetterQueuePeekResult : Type 0 where
  pub queue_name : String
  pub enabled : Bool
  pub available : Bool
  pub items : List DeadLetterQueueMessage
  pub error_message : Option String

-- A value that is an object, or else an empty one.
unfoldable object_or_empty : Option Json.Json → Json.Fields
object_or_empty (some (Json.object fields)) = fields
object_or_empty _ = Json.end

unfoldable truth_or_false : Option Json.Json → Bool
unfolding Json.truth
truth_or_false none = false
truth_or_false (some v) = Json.truth v

-- The items as objects, if all of them are; otherwise the ValueError of `_fetch_messages` is caught.
unfoldable pub dicts_of : Json.Items → Option (List Json.Fields)
dicts_of Json.nil = some []
dicts_of (Json.cons (Json.object fields) items) = elim (dicts_of items) [
  | some rest ↦ some (fields ∷ rest)
  | none ↦ none
]
dicts_of (Json.cons _ items) = none

module _ (str : Json.Json → String) where
  unfoldable optional_str : Option Json.Json → Option String
  optional_str none = none
  optional_str (some Json.null) = none
  optional_str (some v) = some (str v)

  unfoldable message_from_payload : Json.Fields → Result DeadLetterQueueMessage
  unfolding object_or_empty truth_or_false optional_str Json.get Json.int_value
  message_from_payload payload =
      let properties = object_or_empty (Json.get "properties" payload) in
      then_ (Json.int_value payload "message_count") λ message_count. ok (record {
        payload = Json.get "payload" payload;
        payload_encoding = optional_str (Json.get "payload_encoding" payload);
        exchange = optional_str (Json.get "exchange" payload);
        routing_key = optional_str (Json.get "routing_key" payload);
        redelivered = truth_or_false (Json.get "redelivered" payload);
        message_count = message_count;
        properties = properties;
        headers = object_or_empty (Json.get "headers" properties);
      })

  unfoldable messages_from_payloads : List Json.Fields → Result (List DeadLetterQueueMessage)
  unfolding message_from_payload
  messages_from_payloads [] = ok []
  messages_from_payloads (payload ∷ payloads) =
      then_ (message_from_payload payload)
        λ message. then_ (messages_from_payloads payloads) λ messages. ok (message ∷ messages)

  abbrev peeked :
      QueueSettings
      → Bool
      → Bool
      → Option String
      → List DeadLetterQueueMessage
      → DeadLetterQueuePeekResult
  peeked settings enabled available error_message items = record {
    queue_name = settings.celery_task_dead_letter_queue;
    enabled = enabled;
    available = available;
    items = items;
    error_message = error_message;
  }

  unfoldable peek_response : QueueSettings → Response → Result DeadLetterQueuePeekResult
  unfolding dicts_of messages_from_payloads
  peek_response settings (loaded (Json.array items)) = elim (dicts_of items) [
    | some payloads ↦
        then_ (messages_from_payloads payloads)
          λ messages. ok (peeked settings true true none messages)
    | none ↦
        ok (peeked settings true false (some "RabbitMQ DLQ message items must be JSON objects") [])
  ]
  peek_response settings (loaded v) =
      ok (peeked settings true false (some "RabbitMQ DLQ message payload must be a JSON list") [])
  peek_response settings (unreachable message) = ok (peeked settings true false (some message) [])
  peek_response settings (failed e) = raised e

  unfoldable pub peek_messages : QueueSettings → Response → Result DeadLetterQueuePeekResult
  unfolding peek_response
  peek_messages settings response =
      if settings.rabbitmq_queue_monitoring_enabled
      then peek_response settings response
      else ok (peeked settings false false none [])
