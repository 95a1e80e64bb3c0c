-- ===== src/Services/Order/Starts.antt =====
-- Starting a plan and cancelling a task keep the order of execution in the store.
use uav_dag_offload_platform.Common.{
  ◌≡◌, ◌⊎◌, inl, inr, refl, some, List, [], ◌∷◌, arith, Option-cases, Bool-cases,
}
use uav_dag_offload_platform.Common.Equality.{◌==◌}
use uav_dag_offload_platform.Domain.Enums.{SubtaskStatus, subtask_status_eq}
use uav_dag_offload_platform.Domain.StateMachine.Tables.{can_transition-subtask}
use uav_dag_offload_platform.Db.Models.{Uuid, Datetime, DagSubtask, SchedulePlanItem}
use uav_dag_offload_platform.Db.Table.{find, find-key, modify}
use uav_dag_offload_platform.Db.Store.{Store, subtask_key}
use uav_dag_offload_platform.Core.Errors.{Keeps, bind-Keeps, pure, ◌>>=◌}
use uav_dag_offload_platform.Services.Execution.{
  Draft, start_item, start_items, start_row, check_start, finish_start, start_execution,
}
use uav_dag_offload_platform.Services.Order.Ordered.{IsOrdered, modify-IsOrdered}

check_start-store : (task_id plan_id : Uuid) (s : Store) → (check_start task_id plan_id s).1 ≡ s
unfolding check_start
check_start-store task_id plan_id s = ground arith

start_item-rows :
    (task_id : Uuid) (now : Datetime) (item : SchedulePlanItem) (s : Store)
    → ((start_item task_id now item s).1 ≡ s)
      ⊎ ((r : DagSubtask) × (find item.subtask_id s.subtasks ≡ some r)
          × (r.status ≡ SubtaskStatus.ready)
          × ((start_item task_id now item s).1
              ≡ record s { subtasks = modify item.subtask_id (start_row now) s.subtasks }))
start_item-rows task_id now item s = elim (Option-cases (find item.subtask_id s.subtasks)) [
  | inl gone ↦ inl (unfold start_item in ground (arith, gone))
  | inr (r, found) ↦
      let legal = can_transition-subtask r.status SubtaskStatus.dispatched in
      let onward = can_transition-subtask SubtaskStatus.dispatched SubtaskStatus.running in
      let key = find-key item.subtask_id s.subtasks r found in
      elim (Bool-cases (r.status == SubtaskStatus.ready)) [
        | inl ready ↦ inr (
          r,
          found,
          ground (arith, ready),
          unfold start_item in ground (arith, found, legal, onward, key, ready),
        )
        | inr other ↦ inl (unfold start_item in ground (arith, found, legal, other))
      ]
]

start_item-Keeps :
    (task_id : Uuid) (now : Datetime) (item : SchedulePlanItem)
    → Keeps IsOrdered (start_item task_id now item)
start_item-Keeps task_id now item s order = elim (start_item-rows task_id now item s) [
  | inl unchanged ↦ rw unchanged order
  | inr (r, found, ready, written) ↦
      modify-IsOrdered s (start_item task_id now item s).1 item.subtask_id r (start_row now) found
        ready (λ x. (refl, refl)) (λ x. refl) (rw written) (rw written) order
]

start_items-Keeps :
    (task_id : Uuid) (now : Datetime) (items : List SchedulePlanItem)
    → Keeps IsOrdered (start_items task_id now items)
unfolding start_items
start_items-Keeps task_id now [] s order = order
start_items-Keeps task_id now (item ∷ items) s order =
    bind-Keeps IsOrdered (start_item task_id now item)
      (λ draft. start_items task_id now items >>= λ drafts. pure (draft ∷ drafts))
      (start_item-Keeps task_id now item)
      (λ draft.
        bind-Keeps IsOrdered (start_items task_id now items) (λ drafts. pure (draft ∷ drafts))
          (start_items-Keeps task_id now items) (λ drafts after kept. kept))
      s order

finish_start-Keeps :
    (now : Datetime) (task_id plan_id : Uuid) (drafts : List Draft)
    → Keeps IsOrdered (finish_start now task_id plan_id drafts)
unfolding finish_start
finish_start-Keeps now task_id plan_id drafts s order = record {
  distinct = order.distinct;
  in_order = order.in_order;
}

check_start-Keeps : (task_id plan_id : Uuid) → Keeps IsOrdered (check_start task_id plan_id)
check_start-Keeps task_id plan_id s order = rw (check_start-store task_id plan_id s) order

-- Whatever comes of starting a plan, also where it raises half-way, a store in which every task is in
-- order stays so.
pub start_execution-IsOrdered :
    (now : Datetime) (task_id plan_id : Uuid) (s : Store)
    → IsOrdered s
    → IsOrdered (start_execution now task_id plan_id s).1
unfolding start_execution
start_execution-IsOrdered now task_id plan_id =
    bind-Keeps IsOrdered (check_start task_id plan_id)
      (λ items. start_items task_id now items >>= finish_start now task_id plan_id)
      (check_start-Keeps task_id plan_id)
      (λ items.
        bind-Keeps IsOrdered (start_items task_id now items) (finish_start now task_id plan_id)
          (start_items-Keeps task_id now items) (finish_start-Keeps now task_id plan_id))
