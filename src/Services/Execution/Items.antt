-- ===== src/Services/Execution/Items.antt =====
-- The loop over the items of a plan in start_execution of app/services/execution_service.py.
use uav_dag_offload_platform.Common.{
  ℕ, suc, ◌≡◌, refl, sym, ap, ◌∙◌, inl, none, map, ◌+◌, inr, Bool, false, ◌||◌, Option, some, List,
  [], ◌∷◌, arith, eqb, eqb_iff, Option-cases, if◌then◌else◌,
}
use uav_dag_offload_platform.Domain.Enums.{SubtaskStatus, ExecutionStatus, subtask_status_eq}
use uav_dag_offload_platform.Domain.StateMachine.Tables.{can_transition-subtask}
use uav_dag_offload_platform.Db.Models.{
  Uuid, Datetime, DagSubtask, SchedulePlanItem, ExecutionRecord,
}
use uav_dag_offload_platform.Db.Table.{find, find-key, find-modify, modify, map_option, All}
use uav_dag_offload_platform.Db.Store.{Store, subtask_key}
use uav_dag_offload_platform.Core.Errors.{Result, ok, raised, pure, bind-eq-ok, ◌>>=◌}
use uav_dag_offload_platform.Services.Execution.{
  Draft, start_item, start_items, start_row, new_record, number_drafts,
}

abbrev pub status_at : Store → Uuid → Option SubtaskStatus
status_at s k = map_option (λ r. r.status) (find k s.subtasks)

-- A subtask that has been started.
abbrev pub set_running : Datetime → DagSubtask → DagSubtask
set_running now r = record r { status = SubtaskStatus.running; started_at = some now }

-- What an execution record says, but for its id.
pub record Run : Type 0 where
  pub task_id : Uuid
  pub subtask_id : Uuid
  pub node_id : Uuid
  pub plan_item_id : Option Uuid
  pub attempt : Option ℕ
  pub status : ExecutionStatus
  pub started_at : Option Datetime
  pub finished_at : Option Datetime

abbrev pub run_of : ExecutionRecord → Run
run_of r = record {
  task_id = r.task_id;
  subtask_id = r.subtask_id;
  node_id = r.node_id;
  plan_item_id = r.plan_item_id;
  attempt = some r.attempt;
  status = r.status;
  started_at = r.started_at;
  finished_at = r.finished_at;
}

-- The first attempt has number 1, and each retry of the subtask is one more.
abbrev pub run_for : Uuid → Datetime → Store → SchedulePlanItem → Run
run_for task_id now s item = record {
  task_id = task_id;
  subtask_id = item.subtask_id;
  node_id = item.assigned_node_id;
  plan_item_id = some item.id;
  attempt = map_option (λ r. r.retry_count + 1) (find item.subtask_id s.subtasks);
  status = ExecutionStatus.running;
  started_at = some now;
  finished_at = none;
}

-- What starting one item needs and does.
pub record Started (task_id : Uuid) (now : Datetime) (item : SchedulePlanItem) (s s1 : Store)
    (d : Draft) : Type 0 where
  pub ready : status_at s item.subtask_id ≡ some SubtaskStatus.ready
  pub running :
      (j : Uuid)
      → find j s1.subtasks ≡ (
          if eqb item.subtask_id j
          then map_option (set_running now) (find j s.subtasks)
          else find j s.subtasks)
  pub records : s1.execution_records ≡ s.execution_records
  pub draft : (n : Uuid) → run_of (d n) ≡ run_for task_id now s item

abbrev pub draft_or : Draft → Result Draft → Draft
draft_or draft (ok d) = d
draft_or draft (raised e) = draft

start_item-computed :
    (task_id : Uuid) (now : Datetime) (item : SchedulePlanItem) (s : Store) (r : DagSubtask)
    → find item.subtask_id s.subtasks ≡ some r
    → r.status ≡ SubtaskStatus.ready
    → start_item task_id now item s ≡ (
      ok (new_record task_id now item (r.retry_count + 1)),
      record s { subtasks = modify r.id (start_row now) s.subtasks },
    )
unfolding start_item
start_item-computed task_id now item s r found ready = ground (
  arith,
  found,
  can_transition-subtask SubtaskStatus.ready SubtaskStatus.dispatched,
  can_transition-subtask SubtaskStatus.dispatched SubtaskStatus.running,
)

start_item-lem :
    (task_id : Uuid) (now : Datetime) (item : SchedulePlanItem) (s s1 : Store) (d : Draft)
    → start_item task_id now item s ≡ (ok d, s1)
    → Started task_id now item s s1 d
start_item-lem task_id now item s s1 d h = elim (Option-cases (find item.subtask_id s.subtasks)) [
  | inl gone ↦ absurd (unfold start_item in ground (arith, gone))
  | inr (r, found) ↦
      let legal = can_transition-subtask r.status SubtaskStatus.dispatched in
      let was : r.status ≡ SubtaskStatus.ready =
        unfold start_item in ground (arith, found, legal) in
      let computed = start_item-computed task_id now item s r found was in
      let rows : s1.subtasks ≡ modify r.id (start_row now) s.subtasks =
        ap (λ p. p.1.subtasks) (sym h ∙ computed) in
      let fresh = new_record task_id now item (r.retry_count + 1) in
      let same : fresh ≡ d = ap (λ p. draft_or fresh p.0) (sym computed ∙ h) in
      record {
        ready = ground (arith, found, was);
        running = λ j. ground (
          arith,
          rows,
          found,
          find-key item.subtask_id s.subtasks r found,
          find-modify r.id j (start_row now) s.subtasks (λ x. refl),
          eqb_iff item.subtask_id j,
        );
        records = ap (λ p. p.1.execution_records) (sym h ∙ computed);
        draft = λ n. rw (found, ← same) refl;
      }
]

unfoldable pub is_item : List SchedulePlanItem → Uuid → Bool
is_item [] k = false
is_item (item ∷ items) k = eqb item.subtask_id k || is_item items k

pub record AllStarted (task_id : Uuid) (now : Datetime) (s s' : Store)
    (items : List SchedulePlanItem) (drafts : List Draft) : Type 0 where
  pub ready : All (λ item. status_at s item.subtask_id ≡ some SubtaskStatus.ready) items
  pub running :
      (j : Uuid)
      → find j s'.subtasks ≡ (
          if is_item items j
          then map_option (set_running now) (find j s.subtasks)
          else find j s.subtasks)
  pub records : s'.execution_records ≡ s.execution_records
  pub runs : (n : ℕ) → map run_of (number_drafts n drafts) ≡ map (run_for task_id now s) items

module _ (task_id : Uuid) (now : Datetime) (item : SchedulePlanItem) (s s1 : Store) (d : Draft)
    (one : Started task_id now item s s1 d) where
  All-before :
      (items : List SchedulePlanItem)
      → All (λ item. status_at s1 item.subtask_id ≡ some SubtaskStatus.ready) items
      → All (λ item. status_at s item.subtask_id ≡ some SubtaskStatus.ready) items
  All-before [] all = tt
  All-before (i ∷ items) all =
      (ground (arith, one.running i.subtask_id, one.ready, all.0), All-before items all.1)

  -- Starting an item changes no number of retries.
  run_for-before : (i : SchedulePlanItem) → run_for task_id now s1 i ≡ run_for task_id now s i
  run_for-before i =
      ap (λ n. record (run_for task_id now s i) { attempt = n })
        (elim (Option-cases (find i.subtask_id s.subtasks)) [
          | inl gone ↦ ground (arith, one.running i.subtask_id, gone)
          | inr (r, found) ↦ ground (arith, one.running i.subtask_id, found)
        ])

  runs-before :
      (items : List SchedulePlanItem)
      → map (run_for task_id now s1) items ≡ map (run_for task_id now s) items
  runs-before [] = refl
  runs-before (i ∷ items) = rw (run_for-before i, runs-before items) refl

pub start_items-cons :
    (task_id : Uuid) (now : Datetime) (item : SchedulePlanItem) (items : List SchedulePlanItem)
    (s s' : Store) (drafts : List Draft)
    → start_items task_id now (item ∷ items) s ≡ (ok drafts, s')
    → (d : Draft) × (s1 : Store) × (rest : List Draft) × (start_item task_id now item s
        ≡ (ok d, s1))
      × (start_items task_id now items s1 ≡ (ok rest, s'))
      × (drafts ≡ d ∷ rest)
unfolding start_items
start_items-cons task_id now item items s s' drafts h =
    let (d, s1, first, later) =
      bind-eq-ok (start_item task_id now item)
        (λ d. start_items task_id now items >>= λ rest. pure (d ∷ rest)) s s' drafts h in
    let (rest, s2, tail, last) =
      bind-eq-ok (start_items task_id now items) (λ rest. pure (d ∷ rest)) s1 s' drafts later in
    (d, s1, rest, first, ground (arith, tail, last), ground (arith, last))

AllStarted-cons :
    (task_id : Uuid) (now : Datetime) (s s1 s' : Store) (item : SchedulePlanItem)
    (items : List SchedulePlanItem) (d : Draft) (rest : List Draft)
    → Started task_id now item s s1 d
    → AllStarted task_id now s1 s' items rest
    → AllStarted task_id now s s' (item ∷ items) (d ∷ rest)
unfolding is_item number_drafts
AllStarted-cons task_id now s s1 s' item items d rest one more = record {
  ready = (one.ready, All-before task_id now item s s1 d one items more.ready);
  running = λ j. elim (Option-cases (find j s.subtasks)) [
    | inl gone ↦ ground (arith, one.running j, more.running j, gone)
    | inr (r, found) ↦ ground (arith, one.running j, more.running j, found)
  ];
  records = more.records ∙ one.records;
  runs =
      λ n. rw (one.draft n, more.runs (suc n), runs-before task_id now item s s1 d one items) refl;
}

pub start_items-lem :
    (task_id : Uuid) (now : Datetime) (items : List SchedulePlanItem) (s s' : Store)
    (drafts : List Draft)
    → start_items task_id now items s ≡ (ok drafts, s')
    → AllStarted task_id now s s' items drafts
start_items-lem task_id now [] s s' drafts h =
    let none_made : [] ≡ drafts = (unfold start_items in ground (arith, h)) in
    record {
      ready = tt;
      running = λ j. unfold start_items is_item in ground arith;
      records = unfold start_items in ground arith;
      runs = λ n. rw (← none_made) (unfold number_drafts in refl);
    }
start_items-lem task_id now (item ∷ items) s s' drafts h =
    let (d, s1, rest, first, later, same) = start_items-cons task_id now item items s s' drafts h in
    rw same (
      AllStarted-cons task_id now s s1 s' item items d rest
        (start_item-lem task_id now item s s1 d first)
        (start_items-lem task_id now items s1 s' rest later))
