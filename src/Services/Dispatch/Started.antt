-- ===== src/Services/Dispatch/Started.antt =====
-- The execution records of a plan that has been started, one by one.
use uav_dag_offload_platform.Common.{
  ℕ, suc, ◌+◌, ◌≡◌, refl, ap, none, List, [], ◌∷◌, ◌++◌, map, arith, length,
}
use mathlib.Core.Path.{subst}
use uav_dag_offload_platform.Core.Errors.{Result, ok, raised, pure, bind-eq-ok, ◌>>=◌, ◌>>◌}
use uav_dag_offload_platform.Services.Execution.Items.{start_items-cons}
use uav_dag_offload_platform.Services.Execution.Start.{start_execution-parts}
use uav_dag_offload_platform.Services.Tasks.{modify_subtask}
use uav_dag_offload_platform.Domain.Enums.{ExecutionStatus}
use uav_dag_offload_platform.Db.Models.{Uuid, Datetime, ExecutionRecord, SchedulePlanItem}
use uav_dag_offload_platform.Db.Store.{Store, subtask_key}
use uav_dag_offload_platform.Db.Table.{All}
use uav_dag_offload_platform.Services.Execution.{
  Draft, ExecutionStartResult, start_item, start_items, check_start, number_drafts, finish_start,
  start_execution, subtask_object, new_record, move_subtask_to_running, start_row,
}

-- A record of an execution that has begun and has no Celery id yet.
pub record IsNew (r : ExecutionRecord) : Type 0 where
  pub running : r.status ≡ ExecutionStatus.running
  pub no_message : r.celery_task_id ≡ none

IsNewDraft : Draft → Type 0
IsNewDraft draft = (n : Uuid) → IsNew (draft n)

abbrev draft_or : Draft → Result Draft → Draft
draft_or draft (ok d) = d
draft_or draft (raised e) = draft

start_item-new :
    (task_id : Uuid) (now : Datetime) (item : SchedulePlanItem) (s s1 : Store) (d : Draft)
    → start_item task_id now item s ≡ (ok d, s1)
    → IsNewDraft d
unfolding start_item IsNewDraft
start_item-new task_id now item s s1 d h =
    let (r, sa, _, moved) =
      bind-eq-ok (subtask_object item.subtask_id)
        (λ subtask. do
          move_subtask_to_running subtask.status
          modify_subtask subtask.id (start_row now)
          pure (new_record task_id now item (subtask.retry_count + 1)))
        s s1 d h in
    let (_, sb, _, written) =
      bind-eq-ok (move_subtask_to_running r.status)
        (λ ignored. do
          modify_subtask r.id (start_row now)
          pure (new_record task_id now item (r.retry_count + 1)))
        sa s1 d moved in
    let draft = new_record task_id now item (r.retry_count + 1) in
    let same : draft ≡ d = ap (λ p. draft_or draft p.0) written in
    subst IsNewDraft same (λ n. record { running = refl; no_message = refl })

start_items-new :
    (task_id : Uuid) (now : Datetime) (items : List SchedulePlanItem) (s s1 : Store)
    (drafts : List Draft)
    → start_items task_id now items s ≡ (ok drafts, s1)
    → All IsNewDraft drafts
start_items-new task_id now [] s s1 drafts h =
    let none_made : [] ≡ drafts = (unfold start_items in ground (arith, h)) in
    subst (All IsNewDraft) none_made tt
start_items-new task_id now (item ∷ items) s s1 drafts h =
    let (d, s2, rest, first, later, same) = start_items-cons task_id now item items s s1 drafts h in
    rw same (
      start_item-new task_id now item s s2 d first,
      start_items-new task_id now items s2 s1 rest later,
    )

number_drafts-IsNew :
    (n : ℕ) (drafts : List Draft) → All IsNewDraft drafts → All IsNew (number_drafts n drafts)
unfolding number_drafts IsNewDraft
number_drafts-IsNew n [] new = tt
number_drafts-IsNew n (d ∷ drafts) new = (new.0 n, number_drafts-IsNew (suc n) drafts new.1)

finish_start-ids :
    (now : Datetime) (task_id plan_id : Uuid) (drafts : List Draft) (s s' : Store)
    (a : ExecutionStartResult)
    → finish_start now task_id plan_id drafts s ≡ (ok a, s')
    → (s'.execution_records ≡ s.execution_records ++ number_drafts s.next_uuid drafts)
      × (a.execution_ids ≡ map (λ r. r.id) (number_drafts s.next_uuid drafts))
      × (a.execution_count ≡ length (number_drafts s.next_uuid drafts))
unfolding finish_start
finish_start-ids now task_id plan_id drafts s s' a h = (ground arith, ground arith, ground arith)

-- Starting a plan adds records of executions that run and have no Celery id, and answers their ids and
-- their number.
pub record AddsNew (s s' : Store) (a : ExecutionStartResult) : Type 0 where
  pub before : List ExecutionRecord
  pub new_records : List ExecutionRecord
  pub records : s'.execution_records ≡ before ++ new_records
  pub ids : a.execution_ids ≡ map (λ r. r.id) new_records
  pub count : a.execution_count ≡ length new_records
  pub all_new : All IsNew new_records

pub start_execution-AddsNew :
    (now : Datetime) (task_id plan_id : Uuid) (s s' : Store) (a : ExecutionStartResult)
    → start_execution now task_id plan_id s ≡ (ok a, s')
    → AddsNew s s' a
start_execution-AddsNew now task_id plan_id s s' a h =
    let (items, s1, checked, going) =
      bind-eq-ok (check_start task_id plan_id)
        (λ items. start_items task_id now items >>= finish_start now task_id plan_id) s s' a
        (start_execution-parts now task_id plan_id s s' a h) in
    let (drafts, s2, started, finished) =
      bind-eq-ok (start_items task_id now items) (finish_start now task_id plan_id) s1 s' a going in
    let (records, ids, count) = finish_start-ids now task_id plan_id drafts s2 s' a finished in
    record {
      before = s2.execution_records;
      new_records = number_drafts s2.next_uuid drafts;
      records = records;
      ids = ids;
      count = count;
      all_new =
          number_drafts-IsNew s2.next_uuid drafts
            (start_items-new task_id now items s1 s2 drafts started);
    }
