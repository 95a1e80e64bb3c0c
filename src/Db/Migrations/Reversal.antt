-- ===== src/Db/Migrations/Reversal.antt =====
-- Downgrading after upgrading, over the revisions of alembic/versions.
use uav_dag_offload_platform.Common.{
  Option, some, ◌≡◌, refl, sym, ap, ◌∙◌, String, Bool, true, false, List, [], ◌∷◌, ◌++◌, arith,
}
use uav_dag_offload_platform.Common.Equality.{string_eq}
use uav_dag_offload_platform.Db.Table.{all_rows, All}
use uav_dag_offload_platform.Db.Migrations.{revisions}
use uav_dag_offload_platform.Db.Migrations.CreateNodeTables.{create_node_tables}
use uav_dag_offload_platform.Db.Migrations.CreateDagTaskTables.{create_dag_task_tables}
use uav_dag_offload_platform.Db.Migrations.AddSubtaskExecutionConstraint.{
  add_subtask_execution_constraint,
}
use uav_dag_offload_platform.Db.Migrations.CreateSchedulePlanTables.{create_schedule_plan_tables}
use uav_dag_offload_platform.Db.Migrations.CreateExecutionRecords.{create_execution_records}
use uav_dag_offload_platform.Db.Migrations.AddCanceledSubtaskStatus.{add_canceled_subtask_status}
use uav_dag_offload_platform.Db.Migrations.CreateWorkerHeartbeats.{create_worker_heartbeats}
use uav_dag_offload_platform.Db.Migrations.AddExecutionCeleryTaskId.{add_execution_celery_task_id}
use uav_dag_offload_platform.Db.Migrations.CreateExecutionRevokeEvents.{
  create_execution_revoke_events,
}
use uav_dag_offload_platform.Db.Migrations.CreateWorkerAlerts.{create_worker_alerts}
use uav_dag_offload_platform.Db.Migrations.Operations.{
  Operation, Revision, Condition, no_default, is_in, create_table, drop_table, create_index,
  drop_index, add_column, drop_column, create_check, drop_check, alter_server_default,
}
use uav_dag_offload_platform.Db.Migrations.Schema.{
  column_name, check_after, drops_no_column, Database,
}

-- What takes an operation back, if it only adds something.
unfoldable pub inverse : Operation → Operation
inverse (create_table name columns constraints) = drop_table name
inverse (create_index name table keys) = drop_index name table
inverse (add_column table c) = drop_column table (column_name c)
inverse (create_check name table condition) = drop_check name table
inverse o = o

abbrev only_adds : Operation → Bool
only_adds (create_table name columns constraints) = true
only_adds (create_index name table keys) = true
only_adds (add_column table c) = true
only_adds (create_check name table condition) = true
only_adds _ = false

unfoldable pub mirror : List Operation → List Operation
unfolding inverse
mirror [] = []
mirror (o ∷ ops) = mirror ops ++ inverse o ∷ []

module _ (db : Database) where
  unfoldable pub run : List Operation → db.Schema → db.Schema
  run [] s = s
  run (o ∷ ops) s = run ops (db.apply o s)

  -- Each operation succeeds where the ones before it lead.
  abbrev pub FitsAll : List Operation → db.Schema → Type 0
  FitsAll [] s = Unit {0}
  FitsAll (o ∷ ops) s = db.Fits o s × FitsAll ops (db.apply o s)

  run-append : (xs ys : List Operation) (s : db.Schema) → run (xs ++ ys) s ≡ run ys (run xs s)
  unfolding run
  run-append [] ys s = refl
  run-append (x ∷ xs) ys s = run-append xs ys (db.apply x s)

  undo_one :
      (o : Operation) (s : db.Schema)
      → only_adds o ≡ true
      → db.Fits o s
      → db.apply (inverse o) (db.apply o s) ≡ s
  unfolding inverse
  undo_one (create_table name columns constraints) s adds fits =
      db.undo_table name columns constraints s fits
  undo_one (create_index name table keys) s adds fits = db.undo_index name table keys s fits
  undo_one (add_column table c) s adds fits = db.undo_column table c s fits
  undo_one (create_check name table condition) s adds fits =
      db.undo_check name table condition s fits
  undo_one (drop_table name) s adds fits = absurd (ground (arith, adds))
  undo_one (drop_index name table) s adds fits = absurd (ground (arith, adds))
  undo_one (drop_column table name) s adds fits = absurd (ground (arith, adds))
  undo_one (drop_check name table) s adds fits = absurd (ground (arith, adds))
  undo_one (alter_server_default table name value) s adds fits = absurd (ground (arith, adds))

  run-mirror :
      (ops : List Operation) (s : db.Schema)
      → all_rows only_adds ops ≡ true
      → FitsAll ops s
      → run (mirror ops) (run ops s) ≡ s
  unfolding run mirror all_rows
  run-mirror [] s adds fits = refl
  run-mirror (o ∷ ops) s adds fits =
      run-append (mirror ops) (inverse o ∷ []) (run ops (db.apply o s))
      ∙ ap (db.apply (inverse o)) (run-mirror ops (db.apply o s) (ground (arith, adds)) fits.1)
      ∙ undo_one o s (ground (arith, adds)) fits.0

  checks_after : String → String → List Operation → Option Condition → Option Condition
  unfolding check_after
  checks_after table name [] before = before
  checks_after table name (o ∷ ops) before =
      checks_after table name ops (check_after table name o before)

  check_of-run :
      (table name : String) (ops : List Operation) (s : db.Schema)
      → all_rows drops_no_column ops ≡ true
      → FitsAll ops s
      → db.check_of table name (run ops s) ≡ checks_after table name ops (db.check_of table name s)
  unfolding run checks_after all_rows
  check_of-run table name [] s keeps fits = refl
  check_of-run table name (o ∷ ops) s keeps fits =
      check_of-run table name ops (db.apply o s) (ground (arith, keeps)) fits.1
      ∙ ap (checks_after table name ops)
          (db.check_of-apply table name o s fits.0 (ground (arith, keeps)))

  -- The revision taken back from where it led.
  IsReversible : Revision → db.Schema → Type 0
  IsReversible r s = run r.downgrade (run r.upgrade s) ≡ s

  mirrored-IsReversible :
      (r : Revision) (s : db.Schema)
      → all_rows only_adds r.upgrade ≡ true
      → mirror r.upgrade ≡ r.downgrade
      → FitsAll r.upgrade s
      → IsReversible r s
  unfolding IsReversible
  mirrored-IsReversible r s adds same fits =
      ap (λ ops. run ops (run r.upgrade s)) (sym same) ∙ run-mirror r.upgrade s adds fits

  execution_constraint-IsReversible :
      (s : db.Schema)
      → FitsAll add_subtask_execution_constraint.upgrade s
      → IsReversible add_subtask_execution_constraint s
  unfolding IsReversible run
  execution_constraint-IsReversible s fits =
      let table : String = "dag_subtasks" in
      let name : String = "ck_dag_subtasks_execution_constraint" in
      let field : String = "execution_constraint" in
      ap (db.apply (drop_column table field)) (db.default_check name table field no_default _)
      ∙ db.default_column table field no_default _
      ∙ ap (db.apply (drop_column table field)) (db.undo_check name table _ _ fits.1.0)
      ∙ db.undo_column table _ s fits.0

  -- The check of the statuses of subtasks before CANCELED was one of them.
  abbrev old_statuses : Condition
  old_statuses =
      is_in "status"
        ("WAITING" ∷ "READY" ∷ "DISPATCHED" ∷ "RUNNING" ∷ "SUCCESS" ∷ "FAILED" ∷ "RETRYING" ∷ [])

  abbrev HasOldStatuses : db.Schema → Type 0
  HasOldStatuses s = db.check_of "dag_subtasks" "ck_dag_subtasks_status" s ≡ some old_statuses

  canceled_status-IsReversible :
      (s : db.Schema)
      → FitsAll add_canceled_subtask_status.upgrade s
      → HasOldStatuses s
      → IsReversible add_canceled_subtask_status s
  unfolding IsReversible run
  canceled_status-IsReversible s fits had =
      let table : String = "dag_subtasks" in
      let name : String = "ck_dag_subtasks_status" in
      ap (db.apply (create_check name table _)) (db.undo_check name table _ _ fits.1.0)
      ∙ db.redo_check name table _ s had

  HasOldStatuses-created :
      (s : db.Schema)
      → FitsAll create_dag_task_tables.upgrade s
      → HasOldStatuses (run create_dag_task_tables.upgrade s)
  unfolding checks_after all_rows drops_no_column
  HasOldStatuses-created s fits =
      check_of-run "dag_subtasks" "ck_dag_subtasks_status" create_dag_task_tables.upgrade s refl
        fits

  -- A revision that leaves the check alone.
  HasOldStatuses-kept :
      (r : Revision) (s : db.Schema)
      → all_rows drops_no_column r.upgrade ≡ true
      → checks_after "dag_subtasks" "ck_dag_subtasks_status" r.upgrade (some old_statuses)
        ≡ some old_statuses
      → FitsAll r.upgrade s
      → HasOldStatuses s
      → HasOldStatuses (run r.upgrade s)
  HasOldStatuses-kept r s keeps same fits had =
      check_of-run "dag_subtasks" "ck_dag_subtasks_status" r.upgrade s keeps fits
      ∙ ap (checks_after "dag_subtasks" "ck_dag_subtasks_status" r.upgrade) had
      ∙ same

  -- alembic upgrade, from before the first revision to after the last, and back.
  unfoldable pub upgrade_all : List Revision → db.Schema → db.Schema
  unfolding run
  upgrade_all [] s = s
  upgrade_all (r ∷ rs) s = upgrade_all rs (run r.upgrade s)

  unfoldable pub downgrade_all : List Revision → db.Schema → db.Schema
  unfolding run
  downgrade_all [] s = s
  downgrade_all (r ∷ rs) s = run r.downgrade (downgrade_all rs s)

  -- Each revision succeeds where the ones before it lead.
  abbrev pub FitsEach : List Revision → db.Schema → Type 0
  FitsEach [] s = Unit {0}
  FitsEach (r ∷ rs) s = FitsAll r.upgrade s × FitsEach rs (run r.upgrade s)

  abbrev EachReversible : List Revision → db.Schema → Type 0
  EachReversible [] s = Unit {0}
  EachReversible (r ∷ rs) s = IsReversible r s × EachReversible rs (run r.upgrade s)

  -- The revisions that only add something, each taken back by its mirror image.
  mirrored-EachReversible :
      (rs : List Revision) (s : db.Schema)
      → All (λ r. (all_rows only_adds r.upgrade ≡ true) × (mirror r.upgrade ≡ r.downgrade)) rs
      → FitsEach rs s
      → EachReversible rs s
  mirrored-EachReversible [] s mirrored fits = tt
  mirrored-EachReversible (r ∷ rs) s mirrored fits = (
    mirrored-IsReversible r s mirrored.0.0 mirrored.0.1 fits.0,
    mirrored-EachReversible rs (run r.upgrade s) mirrored.1 fits.1,
  )

  revisions-EachReversible : (s : db.Schema) → FitsEach revisions s → EachReversible revisions s
  unfolding inverse mirror all_rows checks_after drops_no_column
  revisions-EachReversible s fits =
      let (fit1, (fit2, (fit3, (fit4, (fit5, (fit6, later)))))) = fits in
      let has2 = HasOldStatuses-created (run create_node_tables.upgrade s) fit2 in
      let has3 = HasOldStatuses-kept add_subtask_execution_constraint _ refl refl fit3 has2 in
      let has4 = HasOldStatuses-kept create_schedule_plan_tables _ refl refl fit4 has3 in
      let has5 = HasOldStatuses-kept create_execution_records _ refl refl fit5 has4 in
      (
        mirrored-IsReversible create_node_tables s refl refl fit1,
        (
          mirrored-IsReversible create_dag_task_tables _ refl refl fit2,
          (
            execution_constraint-IsReversible _ fit3,
            (
              mirrored-IsReversible create_schedule_plan_tables _ refl refl fit4,
              (
                mirrored-IsReversible create_execution_records _ refl refl fit5,
                (
                  canceled_status-IsReversible _ fit6 has5,
                  mirrored-EachReversible
                      (create_worker_heartbeats ∷ add_execution_celery_task_id
                        ∷ create_execution_revoke_events ∷ create_worker_alerts ∷ [])
                      _ ((refl, refl), ((refl, refl), ((refl, refl), ((refl, refl), tt)))) later,
                ),
              ),
            ),
          ),
        ),
      )

  downgrade-upgrade :
      (rs : List Revision) (s : db.Schema)
      → EachReversible rs s
      → downgrade_all rs (upgrade_all rs s) ≡ s
  unfolding downgrade_all upgrade_all IsReversible
  downgrade-upgrade [] s reversible = refl
  downgrade-upgrade (r ∷ rs) s reversible =
      ap (run r.downgrade) (downgrade-upgrade rs (run r.upgrade s) reversible.1) ∙ reversible.0

-- Where all revisions succeed one after the other, downgrading from the last to before the first
-- leaves the schema as it was: each downgrade takes back just what its upgrade did, in the other
-- order, and the check that one of them restores is the one that an earlier revision made.
pub downgrade_all-upgrade_all :
    (db : Database) (s : db.Schema)
    → FitsEach db revisions s
    → downgrade_all db revisions (upgrade_all db revisions s) ≡ s
downgrade_all-upgrade_all db s fits =
    downgrade-upgrade db revisions s (revisions-EachReversible db s fits)
