-- ===== src/Services/Queues/Ends.antt =====
-- The verification of the dead letter flow ends, and cleans up.
use uav_dag_offload_platform.Common.{
  ℕ, zero, suc, ◌+◌, ◌≤◌, ◌<◌, ◌≡◌, ◌≢◌, refl, ap, ◌∙◌, String, Bool, true, false, none, List,
  arith, leb, if◌then◌else◌,
}
use uav_dag_offload_platform.Common.Int.{ℤ, pos}
use uav_dag_offload_platform.Core.Json
use uav_dag_offload_platform.Services.Queues.{Response, loaded, unreachable, failed}
use uav_dag_offload_platform.Services.Queues.Probe.{
  ProbeSettings, Probe, Request, delete_queue, Progress, not_begun, Reply, reply_to, got, caught,
  threw, out_of_fuel, Flow, reply, assign, follow, ◌>>=◌, dead_letter_configured, routed,
  messages_of, message_count, call, declare_all, send_probe, poll, probe_flow, conclude,
  verify_probe_flow, DeadLetterFlowVerificationResult,
}

abbrev is_over : {A : Type 0} → Reply A → Bool
is_over out_of_fuel = false
is_over _ = true

abbrev is_got : {A : Type 0} → Reply A → Bool
is_got (got a) = true
is_got _ = false

module _ {B A : Type 0} where
  -- The flow ends from every state, and has nothing to say of what is found.
  Ends : Flow (B × Progress) A → Type 0
  Ends m =
      (s : B × Progress) → (is_over (m s).0 ≡ true) × ((m s).1.1.found_in_dlq ≡ s.1.found_in_dlq)

  -- Unless it returns, the flow leaves what is found as not found.
  Claims : Flow (B × Progress) A → Type 0
  Claims m =
      (s : B × Progress)
      → s.1.found_in_dlq ≡ false
      → (is_over (m s).0 ≡ true) × (is_got (m s).0 ≡ false → (m s).1.1.found_in_dlq ≡ false)

module _ {B A C : Type 0} where
  follow-Ends :
      (r : Reply A) (f : A → Flow (B × Progress) C) (s : B × Progress)
      → is_over r ≡ true
      → ((a : A) → Ends (f a))
      → (is_over (follow r f s).0 ≡ true) × ((follow r f s).1.1.found_in_dlq ≡ s.1.found_in_dlq)
  unfolding Ends
  follow-Ends (got a) f s over rest = rest a s
  follow-Ends (caught m) f s over rest = (refl, refl)
  follow-Ends (threw e) f s over rest = (refl, refl)
  follow-Ends out_of_fuel f s over rest = (over, refl)

  bind-Ends :
      (m : Flow (B × Progress) A) (f : A → Flow (B × Progress) C)
      → Ends m
      → ((a : A) → Ends (f a))
      → Ends (m >>= f)
  unfolding Ends ◌>>=◌
  bind-Ends m f first rest s =
      let (over, same) = follow-Ends (m s).0 f (m s).1 (first s).0 rest in
      (over, same ∙ (first s).1)

  follow-Claims :
      (r : Reply A) (f : A → Flow (B × Progress) C) (s : B × Progress)
      → s.1.found_in_dlq ≡ false
      → is_over r ≡ true
      → ((a : A) → Claims (f a))
      → (is_over (follow r f s).0 ≡ true)
        × (is_got (follow r f s).0 ≡ false → (follow r f s).1.1.found_in_dlq ≡ false)
  unfolding Claims
  follow-Claims (got a) f s unfound over rest = rest a s unfound
  follow-Claims (caught m) f s unfound over rest = (refl, λ h. unfound)
  follow-Claims (threw e) f s unfound over rest = (refl, λ h. unfound)
  follow-Claims out_of_fuel f s unfound over rest = (over, λ h. unfound)

  bind-Claims :
      (m : Flow (B × Progress) A) (f : A → Flow (B × Progress) C)
      → Ends m
      → ((a : A) → Claims (f a))
      → Claims (m >>= f)
  unfolding Ends Claims ◌>>=◌
  bind-Claims m f first rest s unfound =
      follow-Claims (m s).0 f (m s).1 ((first s).1 ∙ unfound) (first s).0 rest

reply-Ends : (B : Type 0) {A : Type 0} (r : Reply A) → is_over r ≡ true → Ends {B = B} (reply r)
unfolding Ends reply
reply-Ends B r over s = (over, refl)

module _ {B : Type 0} (f : B × Progress → B × Progress) where
  assign-Ends : ((s : B × Progress) → (f s).1.found_in_dlq ≡ s.1.found_in_dlq) → Ends (assign f)
  unfolding Ends assign
  assign-Ends same s = (refl, same s)

  assign-Claims : Claims (assign f)
  unfolding Claims assign
  assign-Claims s unfound = (refl, λ h. absurd (ground (arith, h)))

configured-over :
    (settings : ProbeSettings) (payload : Json.Json)
    → is_over (dead_letter_configured settings payload) ≡ true
unfolding dead_letter_configured
configured-over settings payload = ground arith

routed-over : (payload : Json.Json) → is_over (routed payload) ≡ true
unfolding routed
routed-over payload = ground arith

messages-over : (payload : Json.Json) → is_over (messages_of payload) ≡ true
unfolding messages_of
messages-over payload = ground arith

count-over :
    (before : ℤ) (messages : List Json.Fields) → is_over (message_count before messages) ≡ true
unfolding message_count
count-over before messages = ground arith

module _ {B : Type 0} (request : Request → B → Response × B) (clock : ℕ → ℕ)
    (mentions : Json.Fields → String → Bool) (settings : ProbeSettings) where
  call-Ends : (r : Request) → Ends (call request clock mentions settings r)
  unfolding Ends call
  call-Ends r s = (response-over (request r s.0).0, refl)
    where
      response-over : (response : Response) → is_over (reply_to response) ≡ true
      response-over (loaded payload) = refl
      response-over (unreachable message) = refl
      response-over (failed e) = refl

  declare_all-Ends : (probe : Probe) → Ends (declare_all request clock mentions settings probe)
  unfolding declare_all
  declare_all-Ends probe = bind-Ends _ _ (call-Ends _) λ payload.
      bind-Ends _ _ (reply-Ends _ _ (configured-over settings payload)) λ configured.
        bind-Ends _ _ (assign-Ends _ (λ s. refl)) λ _. bind-Ends _ _ (call-Ends _) λ _.
          bind-Ends _ _ (call-Ends _) λ _. bind-Ends _ _ (call-Ends _) λ _.
            bind-Ends _ _ (call-Ends _) λ _. bind-Ends _ _ (call-Ends _) λ _. reply-Ends _ _ refl

  send_probe-Ends : (probe : Probe) → Ends (send_probe request clock mentions settings probe)
  unfolding send_probe
  send_probe-Ends probe = bind-Ends _ _ (call-Ends _) λ payload.
      bind-Ends _ _ (reply-Ends _ _ (routed-over payload)) λ published.
        bind-Ends _ _ (assign-Ends _ (λ s. refl)) λ _. bind-Ends _ _ (call-Ends _) λ taken.
          bind-Ends _ _ (reply-Ends _ _ (messages-over taken)) λ messages. assign-Ends _ (λ s. refl)

  round-Ends :
      (found late : Bool) (count : ℤ) (again : Flow (B × Progress) (Bool × ℤ))
      → (late ≡ false → Ends again)
      → Ends (
          if found
          then reply (got (true, count))
          else if late
          then reply (got (false, count))
          else again)
  unfolding Ends reply
  round-Ends true late count again more s = (refl, refl)
  round-Ends false true count again more s = (refl, refl)
  round-Ends false false count again more s = more refl s

  module _ (rises : (n : ℕ) → clock n < clock (suc n)) where
    poll-Ends :
        (probe_id : String) (deadline fuel round : ℕ) (before : ℤ)
        → deadline ≤ clock round + fuel
        → Ends (poll request clock mentions settings probe_id deadline (suc fuel) round before)
    unfolding poll
    poll-Ends probe_id deadline zero round before enough = bind-Ends _ _ (call-Ends _) λ payload.
        bind-Ends _ _ (reply-Ends _ _ (messages-over payload)) λ messages.
          bind-Ends _ _ (reply-Ends _ _ (count-over before messages)) λ count.
            round-Ends _ (leb deadline (clock round)) count _
              (λ early. absurd (ground (arith, early, enough)))
    poll-Ends probe_id deadline (suc fuel) round before enough =
        bind-Ends _ _ (call-Ends _) λ payload.
          bind-Ends _ _ (reply-Ends _ _ (messages-over payload)) λ messages.
            bind-Ends _ _ (reply-Ends _ _ (count-over before messages)) λ count.
              round-Ends _ (leb deadline (clock round)) count _ (λ early.
                poll-Ends probe_id deadline fuel (suc round) count
                  (omega (arith, enough, rises round)))

    probe_flow-Claims :
        (probe : Probe) (timeout : ℕ)
        → Claims (probe_flow request clock mentions settings probe timeout)
    unfolding probe_flow
    probe_flow-Claims probe timeout = bind-Claims _ _ (declare_all-Ends probe) λ _.
        bind-Claims _ _ (send_probe-Ends probe) λ _.
          bind-Claims _ _
            (poll-Ends probe.probe_id (clock 0 + timeout) timeout 1 (pos 0)
              (omega (arith, rises 0)))
            λ answer. assign-Claims _

-- What is returned, if anything is, finds the probe only without an error.
abbrev pub IsHonest : Reply DeadLetterFlowVerificationResult → Type 0
IsHonest (got result) = result.progress.found_in_dlq ≡ true → result.error_message ≡ none
IsHonest _ = Unit {0}

conclude-IsHonest :
    (probe : Probe) (progress : Progress) (ended : Reply (Unit {0})) (deleted : Response)
    → (is_got ended ≡ false → progress.found_in_dlq ≡ false)
    → IsHonest (conclude probe progress ended deleted)
unfolding conclude
conclude-IsHonest probe progress ended (failed e) claims = tt
conclude-IsHonest probe progress (got x) (loaded v) claims = λ found. refl
conclude-IsHonest probe progress (got x) (unreachable m) claims = λ found. refl
conclude-IsHonest probe progress (caught m) (loaded v) claims =
    λ found. absurd (ground (arith, found, claims refl))
conclude-IsHonest probe progress (caught m) (unreachable m') claims =
    λ found. absurd (ground (arith, found, claims refl))
conclude-IsHonest probe progress (threw e) (loaded v) claims = tt
conclude-IsHonest probe progress (threw e) (unreachable m) claims = tt
conclude-IsHonest probe progress out_of_fuel (loaded v) claims = tt
conclude-IsHonest probe progress out_of_fuel (unreachable m) claims = tt

conclude-over :
    (probe : Probe) (progress : Progress) (ended : Reply (Unit {0})) (deleted : Response)
    → is_over ended ≡ true
    → is_over (conclude probe progress ended deleted) ≡ true
unfolding conclude
conclude-over probe progress ended deleted over = ground (arith, over)

-- If each reading of the clock is later than the one before, the verification ends, whatever the broker
-- answers: it returns or raises, the last request it makes deletes the probe's queue, and a result that
-- has found the probe has no error.
pub verify_probe_flow-ends :
    {B : Type 0} (request : Request → B → Response × B) (clock : ℕ → ℕ)
    (mentions : Json.Fields → String → Bool) (settings : ProbeSettings) (probe : Probe)
    (timeout : ℕ) (broker : B)
    → ((n : ℕ) → clock n < clock (suc n))
    → ((verify_probe_flow request clock mentions settings probe timeout broker).0 ≢ out_of_fuel)
      × ((before : B) × ((verify_probe_flow request clock mentions settings probe timeout broker).1
            ≡ (request (delete_queue probe.probe_queue) before).1))
      × IsHonest (verify_probe_flow request clock mentions settings probe timeout broker).0
unfolding verify_probe_flow Claims
verify_probe_flow-ends request clock mentions settings probe timeout broker rises =
    let after = probe_flow request clock mentions settings probe timeout (broker, not_begun) in
    let deleted = request (delete_queue probe.probe_queue) after.1.0 in
    let (over, claims) =
      probe_flow-Claims request clock mentions settings rises probe timeout (broker, not_begun)
        refl in
    (
      λ stuck.
          absurd (
            ground (arith, ap is_over stuck, conclude-over probe after.1.1 after.0 deleted.0 over)),
      (after.1.0, refl),
      conclude-IsHonest probe after.1.1 after.0 deleted.0 claims,
    )
