-- ===== src/Services/Queues/Probe.antt =====
-- app/services/dead_letter_flow_verifier.py: a probe message is sent through the broker until it is seen in
-- the dead letter queue. The broker, with its state `B`, the readings of `monotonic` and the search of a
-- text in `dumps(message)` are parameters.
use uav_dag_offload_platform.Common.{
  ℕ, zero, suc, ◌+◌, String, Bool, true, false, ◌&&◌, Option, none, some, List, [], ◌∷◌, leb,
  length, if◌then◌else◌,
}
use uav_dag_offload_platform.Common.Equality.{◌==◌, string_eq}
use uav_dag_offload_platform.Common.Int.{ℤ, pos, ◌+ℤ◌}
use uav_dag_offload_platform.Core.Errors.{Result, ok, raised, Exception, value_error}
use uav_dag_offload_platform.Core.Json
use uav_dag_offload_platform.Services.Queues.{Response, loaded, unreachable, failed}
use uav_dag_offload_platform.Services.Queues.DeadLetters.{dicts_of}

pub record ProbeSettings : Type 0 where
  pub celery_task_default_queue : String
  pub celery_task_default_exchange : String
  pub celery_task_dead_letter_exchange : String
  pub celery_task_dead_letter_routing_key : String
  pub celery_task_dead_letter_queue : String

-- The names that the probe's id is part of.
pub record Probe : Type 0 where
  pub probe_id : String
  pub probe_queue : String
  pub probe_routing_key : String

-- A call of `_request_json`, by its method and URL, with what of the body varies.
pub data Request : Type 0 where
  get_queue : (queue : String) → Request
  declare_queue : (queue : String) (dead_letter_to : Option (String × String)) → Request
  declare_exchange : (exchange : String) → Request
  bind : (exchange queue routing_key : String) → Request
  publish : (exchange routing_key probe_id : String) → Request
  get_messages : (queue : String) (count : ℕ) (requeue : Bool) → Request
  delete_queue : (queue : String) → Request

-- The local variables of `verify_probe_flow`.
pub record Progress : Type 0 where
  pub main_queue_dead_letter_configured : Bool
  pub published : Bool
  pub rejected : Bool
  pub found_in_dlq : Bool
  pub dlq_message_count : ℤ

abbrev pub not_begun : Progress
not_begun = record {
  main_queue_dead_letter_configured = false;
  published = false;
  rejected = false;
  found_in_dlq = false;
  dlq_message_count = pos 0;
}

-- How a part of the flow ends: with a value, an exception that is caught, by its text, or another one,
-- or because the model's fuel is used up.
pub data Reply (A : Type 0) : Type 0 where
  got : A → Reply A
  caught : String → Reply A
  threw : Exception → Reply A
  out_of_fuel : Reply A

abbrev pub Flow : Type 0 → Type 0 → Type 0
Flow S A = S → Reply A × S

module _ {S A B : Type 0} where
  abbrev pub follow : Reply A → (A → Flow S B) → Flow S B
  follow (got a) rest s = rest a s
  follow (caught message) rest s = (caught message, s)
  follow (threw e) rest s = (threw e, s)
  follow out_of_fuel rest s = (out_of_fuel, s)

  infixl 10 ◌>>=◌
  unfoldable pub ◌>>=◌ : Flow S A → (A → Flow S B) → Flow S B
  ◌>>=◌ m rest s = let (reply, after) = m s in follow reply rest after

  infixl 10 ◌>>◌
  abbrev pub ◌>>◌ : Flow S A → Flow S B → Flow S B
  m >> n = m >>= λ ignored. n

module _ {S A : Type 0} where
  unfoldable pub reply : Reply A → Flow S A
  reply r s = (r, s)

unfoldable pub assign : {S : Type 0} → (S → S) → Flow S (Unit {0})
assign f s = (got tt, f s)

-- An exception of `int`: ValueError is caught, OverflowError is not.
abbrev reply_of : {A : Type 0} → Result A → Reply A
reply_of (ok a) = got a
reply_of (raised value_error) = caught "cannot convert float NaN to integer"
reply_of (raised e) = threw e

abbrev pub reply_to : Response → Reply Json.Json
reply_to (loaded payload) = got payload
reply_to (unreachable message) = caught message
reply_to (failed e) = threw e

abbrev is_text : Option Json.Json → String → Bool
is_text (some (Json.string s)) text = s == text
is_text _ text = false

-- bool(payload.get(key))
unfoldable truth_at : String → Json.Fields → Bool
unfolding Json.get Json.truth
truth_at key payload = elim (Json.get key payload) [ none ↦ false | some v ↦ Json.truth v ]

unfoldable has_dead_letter_arguments : ProbeSettings → Option Json.Json → Bool
unfolding Json.get
has_dead_letter_arguments settings (some (Json.object arguments)) =
    is_text (Json.get "x-dead-letter-exchange" arguments) settings.celery_task_dead_letter_exchange
    && is_text (Json.get "x-dead-letter-routing-key" arguments)
        settings.celery_task_dead_letter_routing_key
has_dead_letter_arguments settings _ = false

unfoldable pub dead_letter_configured : ProbeSettings → Json.Json → Reply Bool
unfolding has_dead_letter_arguments Json.get
dead_letter_configured settings (Json.object payload) =
    got (has_dead_letter_arguments settings (Json.get "arguments" payload))
dead_letter_configured settings _ = caught "RabbitMQ queue detail payload must be a JSON object"

unfoldable pub routed : Json.Json → Reply Bool
unfolding truth_at
routed (Json.object payload) = got (truth_at "routed" payload)
routed _ = caught "RabbitMQ publish payload must be a JSON object"

abbrev items_or : String → Option (List Json.Fields) → Reply (List Json.Fields)
items_or message none = caught message
items_or message (some items) = got items

unfoldable pub messages_of : Json.Json → Reply (List Json.Fields)
unfolding dicts_of
messages_of (Json.array items) =
    items_or "RabbitMQ get message items must be JSON objects" (dicts_of items)
messages_of _ = caught "RabbitMQ get payload must be a JSON list"

abbrev pub has_items : List Json.Fields → Bool
has_items [] = false
has_items (m ∷ ms) = true

-- any(test(message) for message in messages)
unfoldable pub any_message : (Json.Fields → Bool) → List Json.Fields → Bool
any_message test [] = false
any_message test (m ∷ ms) = if test m then true else any_message test ms

-- The count of the first message, with those that were got.
unfoldable pub message_count : ℤ → List Json.Fields → Reply ℤ
unfolding Json.int_value
message_count before [] = got before
message_count before (m ∷ ms) = elim (Json.int_value m "message_count") [
  | ok n ↦ got (n +ℤ pos (length (m ∷ ms)))
  | raised e ↦ reply_of (raised e)
]

pub record DeadLetterFlowVerificationResult : Type 0 where
  pub probe : Probe
  pub progress : Progress
  pub error_message : Option String

-- What is returned or raised: an exception of the `finally` that is not caught replaces the other.
unfoldable pub conclude :
    Probe → Progress → Reply (Unit {0}) → Response → Reply DeadLetterFlowVerificationResult
conclude probe progress ended (failed e) = threw e
conclude probe progress (got x) deleted =
    got (record { probe = probe; progress = progress; error_message = none })
conclude probe progress (caught message) deleted =
    got (record { probe = probe; progress = progress; error_message = some message })
conclude probe progress (threw e) deleted = threw e
conclude probe progress out_of_fuel deleted = out_of_fuel

module _ {B : Type 0} (request : Request → B → Response × B) (clock : ℕ → ℕ)
    (mentions : Json.Fields → String → Bool) (settings : ProbeSettings) where
  -- `_request_json`
  unfoldable pub call : Request → Flow (B × Progress) Json.Json
  call r s = let (response, broker) = request r s.0 in (reply_to response, (broker, s.1))

  unfoldable pub declare_all : Probe → Flow (B × Progress) (Unit {0})
  declare_all probe = do
    payload ← call (get_queue settings.celery_task_default_queue)
    configured ← reply (dead_letter_configured settings payload)
    assign (λ s. (s.0, record s.1 { main_queue_dead_letter_configured = configured }))
    call (declare_exchange settings.celery_task_dead_letter_exchange)
    call (declare_queue settings.celery_task_dead_letter_queue none)
    call (
        bind settings.celery_task_dead_letter_exchange settings.celery_task_dead_letter_queue
          settings.celery_task_dead_letter_routing_key)
    call (
        declare_queue probe.probe_queue (
          some (
            settings.celery_task_dead_letter_exchange, settings.celery_task_dead_letter_routing_key,
          )))
    call (bind settings.celery_task_default_exchange probe.probe_queue probe.probe_routing_key)
    reply (got tt)

  -- The probe is published, and taken and rejected.
  unfoldable pub send_probe : Probe → Flow (B × Progress) (Unit {0})
  send_probe probe = do
    payload ←
        call (publish settings.celery_task_default_exchange probe.probe_routing_key probe.probe_id)
    published ← reply (routed payload)
    assign (λ s. (s.0, record s.1 { published = published }))
    taken ← call (get_messages probe.probe_queue 1 false)
    messages ← reply (messages_of taken)
    assign (λ s. (s.0, record s.1 { rejected = has_items messages }))

  -- The loop of `_wait_for_probe_in_dlq`; `clock n` is the n-th reading of `monotonic`, of which the
  -- first gave the deadline.
  unfoldable pub poll :
      (probe_id : String) (deadline fuel round : ℕ) (last_message_count : ℤ)
      → Flow (B × Progress) (Bool × ℤ)
  poll probe_id deadline zero round last_message_count = reply out_of_fuel
  poll probe_id deadline (suc fuel) round last_message_count = do
    payload ← call (get_messages settings.celery_task_dead_letter_queue 50 true)
    messages ← reply (messages_of payload)
    count ← reply (message_count last_message_count messages)
    let found = any_message (λ message. mentions message probe_id) messages
    let again = poll probe_id deadline fuel (suc round) count
    if found
        then reply (got (true, count))
        else if leb deadline (clock round)
        then reply (got (false, count))
        else again

  -- The body of the `try`. A clock that rises by a tick a round reaches the deadline in
  -- `timeout` rounds.
  unfoldable pub probe_flow : Probe → (timeout : ℕ) → Flow (B × Progress) (Unit {0})
  probe_flow probe timeout = do
    declare_all probe
    send_probe probe
    (found, count) ← poll probe.probe_id (clock 0 + timeout) (suc timeout) 1 (pos 0)
    assign (λ s. (s.0, record s.1 { found_in_dlq = found; dlq_message_count = count }))

  unfoldable pub verify_probe_flow : Probe → (timeout : ℕ) → Flow B DeadLetterFlowVerificationResult
  unfolding probe_flow conclude
  verify_probe_flow probe timeout broker =
      let (ended, after) = probe_flow probe timeout (broker, not_begun) in
      let (deleted, last) = request (delete_queue probe.probe_queue) after.0 in
      (conclude probe after.1 ended deleted, last)
