-- ===== src/Services/Execution/Start.antt =====
-- `start_execution` of app/services/execution_service.py: what it requires of the subtasks of a plan,
-- and what it leaves.
use uav_dag_offload_platform.Common.{
  ◌≡◌, sym, ap, ◌∙◌, map, length-map, some, List, ◌++◌, arith, length, if◌then◌else◌,
}
use uav_dag_offload_platform.Domain.Enums.{SubtaskStatus, subtask_status_eq}
use uav_dag_offload_platform.Db.Models.{Uuid, Datetime, SchedulePlanItem, ExecutionRecord}
use uav_dag_offload_platform.Db.Table.{find, map_option, All}
use uav_dag_offload_platform.Db.Store.{Store, subtask_key}
use uav_dag_offload_platform.Core.Errors.{ok, bind-eq-ok, ◌>>=◌}
use uav_dag_offload_platform.Services.Execution.{
  Draft, ExecutionStartResult, start_items, check_start, number_drafts, finish_start, items_of,
  start_execution,
}
use uav_dag_offload_platform.Services.Execution.Items.{
  status_at, set_running, run_of, run_for, is_item, start_items-lem,
}

-- What a started plan leaves, next to the store before.
pub record IsStarted (task_id : Uuid) (now : Datetime) (s s' : Store)
    (items : List SchedulePlanItem) : Type 0 where
  pub ready : All (λ item. status_at s item.subtask_id ≡ some SubtaskStatus.ready) items
  pub running :
      (j : Uuid)
      → find j s'.subtasks ≡ (
          if is_item items j
          then map_option (set_running now) (find j s.subtasks)
          else find j s.subtasks)
  pub new_records : List ExecutionRecord
  pub records : s'.execution_records ≡ s.execution_records ++ new_records
  pub runs : map run_of new_records ≡ map (run_for task_id now s) items

check_start-items :
    (task_id plan_id : Uuid) (s s1 : Store) (items : List SchedulePlanItem)
    → check_start task_id plan_id s ≡ (ok items, s1)
    → (s1 ≡ s) × (items ≡ items_of plan_id s.schedule_plan_items)
check_start-items task_id plan_id s s1 items h = unfold check_start in ground arith

pub start_execution-parts :
    (now : Datetime) (task_id plan_id : Uuid) (s s' : Store) (a : ExecutionStartResult)
    → start_execution now task_id plan_id s ≡ (ok a, s')
    → (check_start task_id plan_id >>= λ items.
          start_items task_id now items >>= finish_start now task_id plan_id)
        s
      ≡ (ok a, s')
unfolding start_execution
start_execution-parts now task_id plan_id s s' a h = h

finish_start-lem :
    (now : Datetime) (task_id plan_id : Uuid) (drafts : List Draft) (s s' : Store)
    (a : ExecutionStartResult)
    → finish_start now task_id plan_id drafts s ≡ (ok a, s')
    → (s'.execution_records ≡ s.execution_records ++ number_drafts s.next_uuid drafts)
      × (s'.subtasks ≡ s.subtasks)
      × (a.execution_count ≡ length (number_drafts s.next_uuid drafts))
unfolding finish_start
finish_start-lem now task_id plan_id drafts s s' a h = (ground arith, ground arith, ground arith)

-- Where starting a plan returns, all subtasks of its items were ready; these are now running since
-- now, and of no subtask anything else has changed; there is one new execution record for each item, in
-- their order, which runs since now for the item's subtask, on its node and with the next number of an
-- attempt; and the count returned is that of the items.
pub start_execution-starts :
    (now : Datetime) (task_id plan_id : Uuid) (s s' : Store) (a : ExecutionStartResult)
    → start_execution now task_id plan_id s ≡ (ok a, s')
    → IsStarted task_id now s s' (items_of plan_id s.schedule_plan_items)
      × (a.execution_count ≡ length (items_of plan_id s.schedule_plan_items))
start_execution-starts now task_id plan_id s s' a h =
    let (items, s1, checked, going) =
      bind-eq-ok (check_start task_id plan_id)
        (λ items. start_items task_id now items >>= finish_start now task_id plan_id) s s' a
        (start_execution-parts now task_id plan_id s s' a h) in
    let (unchanged, listed) = check_start-items task_id plan_id s s1 items checked in
    let (drafts, s2, started, finished) =
      bind-eq-ok (start_items task_id now items) (finish_start now task_id plan_id) s1 s' a going in
    let all = start_items-lem task_id now items s1 s2 drafts started in
    let saved = number_drafts s2.next_uuid drafts in
    let effect = finish_start-lem now task_id plan_id drafts s2 s' a finished in
    let runs : map run_of saved ≡ map (run_for task_id now s) items =
      rw unchanged at all.runs s2.next_uuid in
    rw (← listed) (
      record {
        ready = rw unchanged at all.ready;
        running = λ j. ground (arith, effect.1, all.running j, unchanged);
        new_records = saved;
        records = ground (arith, effect.0, all.records, unchanged);
        runs = runs;
      },
      effect.2
          ∙ sym (length-map run_of saved)
          ∙ ap length runs
          ∙ length-map (run_for task_id now s) items,
    )
