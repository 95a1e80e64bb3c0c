-- ===== src/Services/Dispatch/Queued.antt =====
-- What `execute_task` leaves in the database, with and without a failure of the broker.
use uav_dag_offload_platform.Common.{
  ◌≡◌, ◌⊎◌, refl, sym, ap, ◌∙◌, String, Bool, true, false, ◌||◌, Option, none, some, List, [], ◌∷◌,
  ◌++◌, map, arith, length, length-map, Bool-cases, Option-cases, inl, inr, eqb, eqb_iff,
  if◌then◌else◌,
}
use uav_dag_offload_platform.Common.Equality.{nat_eq}
use mathlib.Core.Path.{subst}
use uav_dag_offload_platform.Core.Errors.{Result, ok, raised, Exception, for_each}
use uav_dag_offload_platform.Domain.Dag.{contains}
use uav_dag_offload_platform.Db.Models.{Uuid, Datetime, ExecutionRecord}
use uav_dag_offload_platform.Db.Store.{Store, execution_record_key}
use uav_dag_offload_platform.Db.Table.{All, find, find-modify, modify, map_option}
use uav_dag_offload_platform.Services.Execution.{
  ExecutionStartResult, ExecutionDispatchRegistration, start_execution, record_celery_task_ids,
}
use uav_dag_offload_platform.Services.Dispatch.{
  ExecutionDispatchResult, ExecutionSimulationOptions, ExecutionStartRequest,
  ExecutionStartResponse, simulation_of, enqueue_each, enqueue_started_executions, after_start,
  execute_task, registration,
}
use uav_dag_offload_platform.Services.Dispatch.Started.{AddsNew, start_execution-AddsNew}

-- A row with the id of its message.
abbrev queued : (Uuid → String) → Uuid → ExecutionRecord → ExecutionRecord
queued name e r = record r { celery_task_id = some (name e) }

abbrev dispatch_result : (Uuid → String) → Uuid → ExecutionDispatchResult
dispatch_result name e = record { execution_id = e; celery_task_id = name e }

abbrev registered : (Uuid → String) → Uuid → ExecutionDispatchRegistration
registered name e = record { execution_id = e; celery_task_id = name e }

find-queued :
    (name : Uuid → String) (x e : Uuid) (rows : List ExecutionRecord)
    → find e (modify x (queued name x) rows)
      ≡ (if eqb x e then map_option (queued name e) (find e rows) else find e rows)
find-queued name x e rows = elim (Bool-cases (eqb x e)) [
  | inl here ↦ rw here (
      subst (λ y. find e (modify x (queued name x) rows) ≡ map_option (queued name y) (find e rows))
        ((eqb_iff x e).0 here)
        (ground (arith, here, find-modify x e (queued name x) rows (λ r. refl))))
  | inr other ↦ ground (arith, other, find-modify x e (queued name x) rows (λ r. refl))
]

-- Queued first or later, or both.
merge :
    (f : ExecutionRecord → ExecutionRecord) (here later : Bool) (o : Option ExecutionRecord)
    → ((r : ExecutionRecord) → f (f r) ≡ f r)
    → (if later
        then map_option f (if here then map_option f o else o)
        else if here
        then map_option f o
        else o)
      ≡ (if here || later then map_option f o else o)
merge f true true none twice = refl
merge f true true (some r) twice = ap some (twice r)
merge f true false o twice = refl
merge f false true o twice = refl
merge f false false o twice = refl

find-registered :
    (name : Uuid → String) (ids : List Uuid) (e : Uuid) (s : Store)
    → find e (record_celery_task_ids (map (registered name) ids) s).1.execution_records ≡ (
        if contains ids e
        then map_option (queued name e) (find e s.execution_records)
        else find e s.execution_records)
unfolding record_celery_task_ids for_each contains
find-registered name [] e s = refl
find-registered name (x ∷ ids) e s =
    let one = modify x (queued name x) s.execution_records in
    find-registered name ids e (record s { execution_records = one })
    ∙ ap (λ o. if contains ids e then map_option (queued name e) o else o)
        (find-queued name x e s.execution_records)
    ∙ merge (queued name e) (eqb x e) (contains ids e) (find e s.execution_records) (λ r. refl)

find-none :
    (e : Uuid) (before rows : List ExecutionRecord)
    → find e (before ++ rows) ≡ none
    → contains (map (λ r. r.id) rows) e ≡ false
unfolding contains find
find-none e [] [] gone = refl
find-none e [] (r ∷ rows) gone = ground (arith, gone, find-none e [] rows)
find-none e (x ∷ before) rows gone = ground (arith, gone, find-none e before rows)

contains-find :
    (e : Uuid) (before rows : List ExecutionRecord)
    → contains (map (λ r. r.id) rows) e ≡ true
    → (r : ExecutionRecord) × (find e (before ++ rows) ≡ some r)
contains-find e before rows here = elim (Option-cases (find e (before ++ rows))) [
  | inl gone ↦ absurd (ground (arith, here, find-none e before rows gone))
  | inr found ↦ found
]

All-member :
    (P : Uuid → Type 0) (ids : List Uuid) → ((e : Uuid) → contains ids e ≡ true → P e) → All P ids
unfolding contains
All-member P [] each = tt
All-member P (x ∷ ids) each = (
  each x (ground (arith, eqb_iff x x)),
  All-member P ids (λ e here. each e (ground (arith, here))),
)

abbrev all_response : ExecutionStartResult → ExecutionStartResponse
all_response a = record {
  task_id = a.task_id;
  schedule_plan_id = a.schedule_plan_id;
  status = a.status;
  execution_count = a.execution_count;
  execution_ids = a.execution_ids;
  queued_count = length a.execution_ids;
}

module _ (delay : Uuid → ExecutionSimulationOptions → Result String)
    (payload : ExecutionStartRequest) where
  enqueue-names :
      (name : Uuid → String) (ids : List Uuid)
      → ((e : Uuid) → delay e (simulation_of payload) ≡ ok (name e))
      → enqueue_each true delay ids (simulation_of payload) ≡ ok (map (dispatch_result name) ids)
  unfolding enqueue_each
  enqueue-names name [] queues = refl
  enqueue-names name (e ∷ ids) queues = ground (arith, queues e, enqueue-names name ids queues)

  registrations :
      (name : Uuid → String) (ids : List Uuid)
      → map registration (map (dispatch_result name) ids) ≡ map (registered name) ids
  registrations name [] = refl
  registrations name (e ∷ ids) = ap (λ l. registered name e ∷ l) (registrations name ids)

  after_start-names :
      (name : Uuid → String) (a : ExecutionStartResult) (s : Store)
      → ((e : Uuid) → delay e (simulation_of payload) ≡ ok (name e))
      → after_start true delay payload a s ≡ (
        ok (all_response a),
        (record_celery_task_ids (map (registered name) a.execution_ids) s).1,
      )
  unfolding after_start enqueue_started_executions
  after_start-names name a s queues = ground (
    arith,
    enqueue-names name a.execution_ids queues,
    registrations name a.execution_ids,
    length-map (dispatch_result name) a.execution_ids,
  )

-- The request is answered, with a message counted for each execution, and each execution that was
-- started has the id of its message.
pub record IsQueued (name : Uuid → String) (b : ExecutionStartResponse) (s : Store) : Type 0 where
  pub all_counted : b.queued_count ≡ b.execution_count
  pub all_queued :
      All
        (λ e.
          (r : ExecutionRecord) × (find e s.execution_records ≡ some r)
          × (r.celery_task_id ≡ some (name e)))
        b.execution_ids

member-queued :
    (name : Uuid → String) (s s1 : Store) (a : ExecutionStartResult)
    → AddsNew s s1 a
    → (e : Uuid) → contains a.execution_ids e ≡ true
    → (r : ExecutionRecord) × (find e
          (record_celery_task_ids (map (registered name) a.execution_ids) s1).1.execution_records
        ≡ some r)
      × (r.celery_task_id ≡ some (name e))
member-queued name s s1 a added e here =
    let (r, found) = contains-find e added.before added.new_records (rw (← added.ids) here) in
    let was : find e s1.execution_records ≡ some r = rw added.records found in
    (queued name e r, ground (arith, find-registered name a.execution_ids e s1, here, was), refl)

-- With automatic enqueuing on, and a broker that takes each message and names it, `execute_task` of a
-- plan that can be started answers, counts a message for each execution, and leaves in the database for
-- each execution it has started the id of its message.
pub execute_task-IsQueued :
    (delay : Uuid → ExecutionSimulationOptions → Result String) (payload : ExecutionStartRequest)
    (name : Uuid → String) (now : Datetime) (task_id : Uuid) (s s1 : Store)
    (a : ExecutionStartResult)
    → ((e : Uuid) → delay e (simulation_of payload) ≡ ok (name e))
    → start_execution now task_id payload.schedule_plan_id s ≡ (ok a, s1)
    → (b : ExecutionStartResponse) × (s2 : Store) × (execute_task true delay now task_id payload s
        ≡ (ok b, s2))
      × (b.execution_ids ≡ a.execution_ids)
      × IsQueued name b s2
execute_task-IsQueued delay payload name now task_id s s1 a queues starts =
    let added = start_execution-AddsNew now task_id payload.schedule_plan_id s s1 a starts in
    (
      all_response a,
      (record_celery_task_ids (map (registered name) a.execution_ids) s1).1,
      unfold execute_task in
          ground (arith, starts, after_start-names delay payload name a s1 queues),
      refl,
      record {
        all_counted =
            ap length added.ids ∙ length-map (λ r. r.id) added.new_records ∙ sym added.count;
        all_queued = All-member _ a.execution_ids (member-queued name s s1 a added);
      },
    )

Result-cases :
    {A : Type 0} (r : Result A) → ((e : Exception) × (r ≡ raised e)) ⊎ ((a : A) × (r ≡ ok a))
Result-cases (raised e) = inl (e, refl)
Result-cases (ok a) = inr (a, refl)

module _ (delay : Uuid → ExecutionSimulationOptions → Result String)
    (simulation : ExecutionSimulationOptions) (e : Uuid) (x : Exception)
    (fails : delay e simulation ≡ raised x) where
  enqueue-raises :
      (ids : List Uuid)
      → contains ids e ≡ true
      → (y : Exception) × (enqueue_each true delay ids simulation ≡ raised y)
  unfolding contains enqueue_each
  enqueue-raises [] here = absurd (ground (arith, here))
  enqueue-raises (k ∷ ids) here = elim (Result-cases (delay k simulation)) [
    | inl (y, raises) ↦ (y, ground (arith, raises))
    | inr (name, returns) ↦
        let other : eqb k e ≡ false = ground (arith, eqb_iff k e, fails, returns) in
        let (y, later) = enqueue-raises ids (ground (arith, here, other)) in
        (y, ground (arith, returns, later))
  ]

-- Where the broker refuses the message of one execution of a plan that has been started, `execute_task`
-- raises, but what the start wrote stays in the database: its executions run, and none has the id of a
-- message, also those whose message was sent before.
pub execute_task-broker_failure :
    (delay : Uuid → ExecutionSimulationOptions → Result String) (payload : ExecutionStartRequest)
    (now : Datetime) (task_id e : Uuid) (x : Exception) (s s1 : Store) (a : ExecutionStartResult)
    → delay e (simulation_of payload) ≡ raised x
    → contains a.execution_ids e ≡ true
    → start_execution now task_id payload.schedule_plan_id s ≡ (ok a, s1)
    → (y : Exception) × (execute_task true delay now task_id payload s ≡ (raised y, s1))
      × AddsNew s s1 a
unfolding execute_task after_start enqueue_started_executions
execute_task-broker_failure delay payload now task_id e x s s1 a fails here starts =
    let (y, raises) = enqueue-raises delay (simulation_of payload) e x fails a.execution_ids here in
    (
      y,
      ground (arith, starts, raises),
      start_execution-AddsNew now task_id payload.schedule_plan_id s s1 a starts,
    )
