-- ===== src/Services/Listings/Detail.antt =====
-- What `get_task` of app/api/v1/endpoints/tasks.py answers of a task that `create_task` has stored.
use uav_dag_offload_platform.Common.{
  ◌∙◌, ℕ, suc, ◌+◌, ◌<◌, ◌≡◌, refl, ap, inl, inr, String, some, List, [], ◌∷◌, ◌++◌, map, arith,
  eqb_iff, length, Option-cases,
}
use mathlib.Core.Path.{subst}
use uav_dag_offload_platform.Common.Equality.{nat_eq, string_eq}
use uav_dag_offload_platform.Core.Errors.{ok}
use uav_dag_offload_platform.Domain.Dag.{Verdict, valid, invalid, validate_dag}
use uav_dag_offload_platform.Domain.Dag.Graph.{Distinct}
use uav_dag_offload_platform.Db.Models.{Uuid, Datetime, DagTask, DagDependency}
use uav_dag_offload_platform.Db.Table.{find, where_, All}
use uav_dag_offload_platform.Db.Table.Bulk.{keys}
use uav_dag_offload_platform.Db.Store.{Store, task_key, subtask_key}
use uav_dag_offload_platform.Services.Execution.{dependencies_of}
use uav_dag_offload_platform.Services.Unlock.{Rows, subtasks_of}
use uav_dag_offload_platform.Services.Tasks.{get_task}
use uav_dag_offload_platform.Services.Tasks.Create.{
  DagTaskCreate, successor_ids, edges, external_ids, new_subtasks, new_dependencies, new_task,
  id_of, create_task, store_task,
}
use uav_dag_offload_platform.Services.Tasks.Initial.{
  id_of-find, new_subtasks-Distinct, names, names-new_subtasks,
}
use uav_dag_offload_platform.Services.Order.Appended.{
  IsFresh, dependencies_of-new, new_subtasks-own, new_dependencies-own,
}
use mathlib.Core.List.{Permᴰ}
use uav_dag_offload_platform.Services.Listings.Reordered.{
  read_dependencies-rows, read_dependencies-Perm, map-Perm,
}
use uav_dag_offload_platform.Services.Listings.{
  DagDependencyRead, DagTaskDetailRead, external_id_of, read_dependencies, task_to_detail,
  get_task_detail,
}

abbrev pub read_edge : String × String → DagDependencyRead
read_edge (from_, to) = record { from_ = from_; to = to }

external_id-id_of :
    (name : String) (rows : Rows) (j : Uuid)
    → Distinct (keys rows)
    → id_of name rows ≡ some j
    → external_id_of j rows ≡ some name
external_id-id_of name rows j once h =
    let (r, found, same) = id_of-find name rows j once h in
    unfold external_id_of in ground (arith, found, same)

-- The ids of a new dependency are read back as the names they were made from.
read-new :
    (id : Uuid) (rows : Rows) (n : ℕ) (deps : List (String × String)) (ds : List DagDependency)
    → Distinct (keys rows)
    → new_dependencies id rows n deps ≡ some ds
    → read_dependencies rows ds ≡ some (map read_edge deps)
unfolding new_dependencies read_dependencies
read-new id rows n [] ds once h =
    let none_made : [] ≡ ds = ground (arith, h) in
    subst (λ l. read_dependencies rows l ≡ some []) none_made refl
read-new id rows n ((p, q) ∷ deps) ds once h = elim (Option-cases (id_of p rows)) [
  | inl gone ↦ absurd (ground (arith, h, gone))
  | inr (i, first) ↦ elim (Option-cases (id_of q rows)) [
    | inl gone ↦ absurd (ground (arith, h, gone, first))
    | inr (j, second) ↦ elim (Option-cases (new_dependencies id rows (suc n) deps)) [
      | inl gone ↦ absurd (ground (arith, h, gone, first, second))
      | inr (rest, later) ↦
          let d : DagDependency = record {
            id = n;
            task_id = id;
            predecessor_subtask_id = i;
            successor_subtask_id = j;
          } in
          let listed : d ∷ rest ≡ ds = ground (arith, h, first, second, later) in
          subst (λ l. read_dependencies rows l ≡ some (map read_edge ((p, q) ∷ deps))) listed
            (ground (
              arith,
              external_id-id_of p rows i once first,
              external_id-id_of q rows j once second,
              read-new id rows (suc n) deps rest once later,
            ))
    ]
  ]
]

subtasks_of-new :
    (t : Uuid) (old rows : Rows)
    → All (λ r. r.task_id < t) old
    → All (λ r. r.task_id ≡ t) rows
    → subtasks_of t (old ++ rows) ≡ rows
unfolding subtasks_of where_
subtasks_of-new t [] [] below own = refl
subtasks_of-new t [] (r ∷ rows) below own =
    ground (arith, own.0, eqb_iff r.task_id t, subtasks_of-new t [] rows tt own.1)
subtasks_of-new t (x ∷ old) rows below own =
    ground (arith, below.0, eqb_iff x.task_id t, subtasks_of-new t old rows below.1 own)

find-new :
    (task : DagTask) (tasks : List DagTask)
    → All (λ t. t.id < task.id) tasks
    → find task.id (tasks ++ task ∷ []) ≡ some task
unfolding find
find-new task [] below = ground (arith, eqb_iff task.id task.id)
find-new task (t ∷ tasks) below =
    ground (arith, below.0, eqb_iff t.id task.id, find-new task tasks below.1)

module _ (now : Datetime) (form : DagTaskCreate) (s s1 : Store) (task : DagTask) where
  abbrev rows : Rows
  rows = new_subtasks s.next_uuid now (successor_ids (edges form)) (suc s.next_uuid) form.subtasks

  -- What a created task leaves.
  record IsStored : Type 0 where
    ds : List DagDependency
    made : new_dependencies s.next_uuid rows (suc s.next_uuid + length rows) (edges form) ≡ some ds
    named : task ≡ new_task now s.next_uuid form
    tasks : s1.tasks ≡ s.tasks ++ task ∷ []
    subtasks : s1.subtasks ≡ s.subtasks ++ rows
    dependencies : s1.dependencies ≡ s.dependencies ++ ds

  store_task-IsStored : store_task now form s ≡ (ok task, s1) → IsStored
  unfolding store_task
  store_task-IsStored h =
      elim (Option-cases
        (new_dependencies s.next_uuid rows (suc s.next_uuid + length rows) (edges form))) [
          | inl gone ↦ absurd (ground (arith, h, gone))
          | inr (ds, made) ↦ record {
            ds = ds;
            made = made;
            named = ground (arith, h, made);
            tasks = ground (arith, h, made);
            subtasks = ground (arith, h, made);
            dependencies = ground (arith, h, made);
          }
        ]

by_verdict :
    (now : Datetime) (form : DagTaskCreate) (s s1 : Store) (task : DagTask)
    → create_task now form s ≡ (ok task, s1)
    → (verdict : Verdict) → validate_dag (external_ids form) (edges form) ≡ some verdict
    → store_task now form s ≡ (ok task, s1)
unfolding create_task
by_verdict now form s s1 task h valid judged = ground (arith, h, judged)
by_verdict now form s s1 task h (invalid e) judged = absurd (ground (arith, h, judged))

create_task-stored :
    (now : Datetime) (form : DagTaskCreate) (s s1 : Store) (task : DagTask)
    → create_task now form s ≡ (ok task, s1)
    → store_task now form s ≡ (ok task, s1)
create_task-stored now form s s1 task h =
    elim (Option-cases (validate_dag (external_ids form) (edges form))) [
      | inl gone ↦ absurd (unfold create_task in ground (arith, h, gone))
      | inr (verdict, judged) ↦ by_verdict now form s s1 task h verdict judged
    ]

read_edges :
    (deps : List (String × String)) → map (λ e. (e.from_, e.to)) (map read_edge deps) ≡ deps
read_edges [] = refl
read_edges (d ∷ deps) = ap (λ l. d ∷ l) (read_edges deps)

abbrev detail_of : DagTask → Rows → List DagDependencyRead → DagTaskDetailRead
detail_of task subtasks dependencies = record {
  id = task.id;
  name = task.name;
  status = task.status;
  priority = task.priority;
  deadline_at = task.deadline_at;
  subtasks = subtasks;
  dependencies = dependencies;
  created_at = task.created_at;
}

names-map : (rows : Rows) → map (λ r. r.external_id) rows ≡ names rows
names-map [] = refl
names-map (r ∷ rows) = ap (λ l. r.external_id ∷ l) (names-map rows)

module _ (subtask_order : Rows → Rows)
    (dependency_order : List DagDependency → List DagDependency) where
  answered :
      (task : DagTask) (subtasks : Rows) (ds : List DagDependency) (edges : List DagDependencyRead)
      (s : Store)
      → find task.id s.tasks ≡ some task
      → subtasks_of task.id s.subtasks ≡ subtasks
      → dependencies_of task.id s.dependencies ≡ ds
      → read_dependencies (subtask_order subtasks) (dependency_order ds) ≡ some edges
      → get_task_detail subtask_order dependency_order task.id s
        ≡ (ok (detail_of task (subtask_order subtasks) edges), s)
  unfolding get_task_detail get_task task_to_detail
  answered task subtasks ds edges s found own ends read = rw (found, own, ends, read) refl

  -- Where creating a task returns, in a store with no row whose id is still to be given, and the
  -- database lists the rows of a relationship in whatever order, the task's detail is answered with the
  -- name, the external ids and the dependencies of the request, these two in some order.
  pub get_task_detail-create_task :
      (now : Datetime) (form : DagTaskCreate) (s s1 : Store) (task : DagTask)
      → ((rows : Rows) → Permᴰ rows (subtask_order rows))
      → ((ds : List DagDependency) → Permᴰ ds (dependency_order ds))
      → IsFresh s
      → All (λ t. t.id < s.next_uuid) s.tasks
      → create_task now form s ≡ (ok task, s1)
      → (d : DagTaskDetailRead) × (get_task_detail subtask_order dependency_order task.id s1
          ≡ (ok d, s1))
        × (d.name ≡ form.name)
        × Permᴰ (external_ids form) (map (λ r. r.external_id) d.subtasks)
        × Permᴰ (edges form) (map (λ e. (e.from_, e.to)) d.dependencies)
  get_task_detail-create_task now form s s1 task rows_listed ends_listed fresh below h =
      let stored =
        store_task-IsStored now form s s1 task (create_task-stored now form s s1 task h) in
      let id = s.next_uuid in
      let own = rows now form s s1 task in
      let ds = stored.ds in
      let numbered : task.id ≡ id = ap (λ t. t.id) stored.named in
      let found : find task.id s1.tasks ≡ some task =
        rw stored.tasks (find-new task s.tasks (rw numbered below)) in
      let subtasks : subtasks_of task.id s1.subtasks ≡ own =
        rw (stored.subtasks, numbered)
          (subtasks_of-new id s.subtasks own fresh.subtask_tasks
            (new_subtasks-own id now (successor_ids (edges form)) (suc id) form.subtasks)) in
      let dependencies : dependencies_of task.id s1.dependencies ≡ ds =
        rw (stored.dependencies, numbered)
          (dependencies_of-new id s.dependencies ds fresh.dependency_tasks
            (new_dependencies-own id own (suc id + length own) (edges form) ds stored.made)) in
      let once = new_subtasks-Distinct id now (successor_ids (edges form)) (suc id) form.subtasks in
      let (es, read, reordered) =
        read_dependencies-Perm own (ends_listed ds) (map read_edge (edges form))
          (read-new id own (suc id + length own) (edges form) ds once stored.made) in
      let ids : map (λ r. r.external_id) own ≡ external_ids form =
        names-map own
        ∙ names-new_subtasks id now (successor_ids (edges form)) (suc id) form.subtasks in
      (
        detail_of task (subtask_order own) es,
        answered task own ds es s1 found subtasks dependencies
            (read_dependencies-rows (rows_listed own) once (dependency_order ds) ∙ read),
        ap (λ t. t.name) stored.named,
        subst (λ l. Permᴰ l (map (λ r. r.external_id) (subtask_order own))) ids
            (map-Perm (λ r. r.external_id) (rows_listed own)),
        subst (λ l. Permᴰ l (map (λ e. (e.from_, e.to)) es)) (read_edges (edges form))
            (map-Perm (λ e. (e.from_, e.to)) reordered),
      )
