-- ===== src/Services/Tasks/Initial.antt =====
-- The subtasks and dependencies that `create_task` of app/services/task_service.py stores: their ids,
-- and how the ids of a dependency stand for the external ids of the request.
use uav_dag_offload_platform.Common.{
  ℕ, suc, ◌<◌, ◌≡◌, inl, inr, refl, ap, String, Bool, true, false, not, ◌||◌, some, none, List, [],
  ◌∷◌, ◌++◌, map, arith, eqb, eqb_iff, Option-cases, Bool-cases, if◌then◌else◌,
}
use uav_dag_offload_platform.Common.Equality.{◌==◌, nat_eq, string_eq}
use uav_dag_offload_platform.Domain.Dag.{contains}
use uav_dag_offload_platform.Domain.Dag.Graph.{Distinct}
use uav_dag_offload_platform.Domain.Enums.{SubtaskStatus, subtask_status_eq}
use uav_dag_offload_platform.Db.Models.{Uuid, Datetime, DagSubtask, DagDependency}
use uav_dag_offload_platform.Db.Table.{find, All}
use uav_dag_offload_platform.Db.Table.Bulk.{keys}
use uav_dag_offload_platform.Db.Store.{subtask_key}
use uav_dag_offload_platform.Services.Unlock.{Rows, predecessors_of}
use uav_dag_offload_platform.Services.Tasks.Create.{
  SubtaskCreate, successor_ids, new_subtasks, id_of, new_dependencies,
}

abbrev pub names : Rows → List String
names [] = []
names (r ∷ rows) = r.external_id ∷ names rows

contains-keys_append :
    (xs ys : Rows) (k : ℕ)
    → contains (keys (xs ++ ys)) k ≡ (contains (keys xs) k || contains (keys ys) k)
unfolding keys contains
contains-keys_append [] ys k = refl
contains-keys_append (x ∷ xs) ys k = ground (arith, contains-keys_append xs ys k)

absent-find : (k : ℕ) (rows : Rows) → contains (keys rows) k ≡ false → find k rows ≡ none
unfolding find keys contains
absent-find k [] absent = refl
absent-find k (r ∷ rows) absent = ground (arith, absent-find k rows)

find-absent :
    (k : ℕ) (rows : Rows) (r : DagSubtask) → find k rows ≡ some r → contains (keys rows) k ≡ true
unfolding find keys contains
find-absent k [] r found = ground (arith, found)
find-absent k (y ∷ rows) r found = ground (arith, find-absent k rows r)

find-name :
    (k : ℕ) (rows : Rows) (r : DagSubtask)
    → find k rows ≡ some r
    → contains (names rows) r.external_id ≡ true
unfolding find contains
find-name k [] r found = ground (arith, found)
find-name k (y ∷ rows) r found =
    ground (arith, find-name k rows r, string_eq.agrees y.external_id r.external_id)

pub id_of-find :
    (name : String) (rows : Rows) (j : Uuid)
    → Distinct (keys rows)
    → id_of name rows ≡ some j
    → (r : DagSubtask) × (find j rows ≡ some r) × (r.external_id ≡ name)
unfolding id_of find keys
id_of-find name [] j once h = absurd (ground (arith, h))
id_of-find name (y ∷ rows) j once h = elim (Option-cases (id_of name rows)) [
  | inl gone ↦
      (y, ground (arith, h, gone), ground (arith, h, gone, string_eq.agrees y.external_id name))
  | inr (i, later) ↦
      let (r, found, named) = id_of-find name rows i once.1 later in
      (r, ground (arith, h, later, found, eqb_iff y.id j, absent-find y.id rows), named)
]

-- With distinct ids and names, ids are equal where the names are.
same-name :
    (rows : Rows) (j v : Uuid) (x r : DagSubtask)
    → Distinct (keys rows)
    → Distinct (names rows)
    → find j rows ≡ some x
    → find v rows ≡ some r
    → x.external_id ≡ r.external_id
    → j ≡ v
unfolding find keys
same-name [] j v x r ids once fx fr same = absurd (ground (arith, fx))
same-name (y ∷ rows) j v x r ids once fx fr same = ground (
  arith,
  eqb_iff y.id j,
  eqb_iff y.id v,
  find-name j rows x,
  find-name v rows r,
  same-name rows j v x r ids.1 once.1,
)

unfoldable pub is_nil : List Uuid → Bool
is_nil [] = true
is_nil (x ∷ xs) = false

module _ (task_id : Uuid) (rows : Rows) (v : Uuid) (r : DagSubtask) (ids : Distinct (keys rows))
    (once : Distinct (names rows)) (found : find v rows ≡ some r) where
  -- A stored dependency ends at a subtask where the requested one names it.
  successor-eq :
      (name : String) (j : Uuid) → id_of name rows ≡ some j → eqb j v ≡ (name == r.external_id)
  successor-eq name j h =
      let (x, fx, named) = id_of-find name rows j ids h in
      elim (Bool-cases (eqb j v)) [
        | inl here ↦
            ground (arith, here, eqb_iff j v, fx, found, named, string_eq.agrees name r.external_id)
        | inr other ↦ ground (
          arith,
          other,
          eqb_iff j v,
          named,
          same-name rows j v x r ids once fx found,
          string_eq.agrees name r.external_id,
        )
      ]

  pub predecessors-nil :
      (n : ℕ) (deps : List (String × String)) (ds : List DagDependency)
      → new_dependencies task_id rows n deps ≡ some ds
      → is_nil (predecessors_of v ds) ≡ not (contains (successor_ids deps) r.external_id)
  unfolding new_dependencies predecessors_of contains is_nil
  predecessors-nil n [] ds h = ground (arith, h)
  predecessors-nil n ((p, q) ∷ deps) ds h = elim (Option-cases (id_of p rows)) [
    | inl gone ↦ absurd (ground (arith, h, gone))
    | inr (i, first) ↦ elim (Option-cases (id_of q rows)) [
      | inl gone ↦ absurd (ground (arith, h, gone, first))
      | inr (j, second) ↦ elim (Option-cases (new_dependencies task_id rows (suc n) deps)) [
        | inl gone ↦ absurd (ground (arith, h, gone, first, second))
        | inr (rest, later) ↦ ground (
          arith,
          first,
          second,
          later,
          successor-eq q j second,
          predecessors-nil (suc n) deps rest later,
        )
      ]
    ]
  ]

module _ (task_id : Uuid) (now : Datetime) (successors : List String) where
  pub new_subtasks-status :
      (n : ℕ) (forms : List SubtaskCreate) (v : Uuid) (r : DagSubtask)
      → find v (new_subtasks task_id now successors n forms) ≡ some r
      → (r.task_id ≡ task_id)
        × (r.status ≡ (
            if contains successors r.external_id
            then SubtaskStatus.waiting
            else SubtaskStatus.ready))
  unfolding find new_subtasks
  new_subtasks-status n [] v r found = absurd (ground (arith, found))
  new_subtasks-status n (form ∷ forms) v r found =
      ground (arith, found, new_subtasks-status (suc n) forms v r)

  new_subtasks-above :
      (n : ℕ) (forms : List SubtaskCreate) (k : Uuid)
      → k < n
      → contains (keys (new_subtasks task_id now successors n forms)) k ≡ false
  unfolding new_subtasks keys contains
  new_subtasks-above n [] k below = refl
  new_subtasks-above n (form ∷ forms) k below = ground (arith, new_subtasks-above (suc n) forms k)

  pub new_subtasks-Distinct :
      (n : ℕ) (forms : List SubtaskCreate)
      → Distinct (keys (new_subtasks task_id now successors n forms))
  unfolding new_subtasks keys
  new_subtasks-Distinct n [] = tt
  new_subtasks-Distinct n (form ∷ forms) =
      (new_subtasks-above (suc n) forms n (omega arith), new_subtasks-Distinct (suc n) forms)

  pub names-new_subtasks :
      (n : ℕ) (forms : List SubtaskCreate)
      → names (new_subtasks task_id now successors n forms) ≡ map (λ form. form.external_id) forms
  unfolding new_subtasks
  names-new_subtasks n [] = refl
  names-new_subtasks n (form ∷ forms) =
      ap (λ l. form.external_id ∷ l) (names-new_subtasks (suc n) forms)

  -- Stored after rows of smaller ids they leave all ids distinct.
  pub append-Distinct :
      (n : ℕ) (old : Rows) (forms : List SubtaskCreate)
      → All (λ r. r.id < n) old
      → Distinct (keys old)
      → Distinct (keys (old ++ new_subtasks task_id now successors n forms))
  unfolding keys
  append-Distinct n [] forms below once = new_subtasks-Distinct n forms
  append-Distinct n (r ∷ old) forms below once = (
    ground (
      arith,
      contains-keys_append old (new_subtasks task_id now successors n forms) r.id,
      new_subtasks-above n forms r.id below.0,
      once.0,
    ),
    append-Distinct n old forms below.1 once.1,
  )
