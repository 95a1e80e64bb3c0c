-- ===== src/Examples/Queues.antt =====
-- app/services/dead_letter_flow_verifier.py with a broker that counts its requests.
use uav_dag_offload_platform.Common.{ℕ, suc, ◌≡◌, ◌≢◌, refl, arith, String, Bool, true, false, none}
use uav_dag_offload_platform.Common.Int.{pos, ◌+ℤ◌}
use uav_dag_offload_platform.Core.Json
use uav_dag_offload_platform.Services.Queues.{Response, loaded}
use uav_dag_offload_platform.Services.Queues.Probe.{
  ProbeSettings, Probe, Request, publish, get_messages, delete_queue, out_of_fuel, reply,
  dead_letter_configured, routed, messages_of, message_count, any_message, got, assign, call, poll,
  send_probe, declare_all, probe_flow, ◌>>=◌, verify_probe_flow,
}
use uav_dag_offload_platform.Services.Queues.Ends.{IsHonest, verify_probe_flow-ends}

abbrev settings : ProbeSettings
settings = record {
  celery_task_default_queue = "work";
  celery_task_default_exchange = "work";
  celery_task_dead_letter_exchange = "work.dlx";
  celery_task_dead_letter_routing_key = "work.dead";
  celery_task_dead_letter_queue = "work.dlq";
}

abbrev probe : Probe
probe = record { probe_id = "p"; probe_queue = "work.probe.p"; probe_routing_key = "work.probe.p" }

abbrev message : Json.Fields
message = Json.field "message_count" (Json.int (pos 2)) Json.end

abbrev answer : Request → Response
answer (publish exchange routing_key probe_id) =
    loaded (Json.object (Json.field "routed" (Json.bool true) Json.end))
answer (get_messages queue count requeue) =
    loaded (Json.array (Json.cons (Json.object message) Json.nil))
answer _ = loaded (Json.object Json.end)

abbrev request : Request → ℕ → Response × ℕ
request r n = (answer r, suc n)

abbrev clock : ℕ → ℕ
clock n = n

abbrev mentions : Json.Fields → String → Bool
mentions m probe_id = true

-- The probe is found in the first round, with two messages left and one got, after ten requests.
found : verify_probe_flow request clock mentions settings probe 10 0 ≡ (
  got (record {
    probe = probe;
    progress = record {
      main_queue_dead_letter_configured = false;
      published = true;
      rejected = true;
      found_in_dlq = true;
      dlq_message_count = pos 3;
    };
    error_message = none;
  }),
  10,
)
unfolding verify_probe_flow probe_flow declare_all send_probe poll call reply assign ◌>>=◌ ◌+ℤ◌
    dead_letter_configured routed messages_of message_count any_message
found = refl

verify_probe_flow-ends_example :
    ((verify_probe_flow request clock mentions settings probe 10 0).0 ≢ out_of_fuel)
    × ((before : ℕ) × ((verify_probe_flow request clock mentions settings probe 10 0).1
          ≡ (request (delete_queue probe.probe_queue) before).1))
    × IsHonest (verify_probe_flow request clock mentions settings probe 10 0).0
verify_probe_flow-ends_example =
    verify_probe_flow-ends request clock mentions settings probe 10 0 (λ n. omega arith)
