-- ===== src/Services/Order/Appended.antt =====
-- The rows that create_task appends in app/services/task_service.py, and looking up rows among old
-- and new ones.
use uav_dag_offload_platform.Common.{
  ℕ, suc, ◌<◌, ◌≡◌, inl, inr, refl, String, false, some, none, List, [], ◌∷◌, ◌++◌, arith, eqb,
  eqb_iff, Option-cases,
}
use mathlib.Core.Path.{subst}
use uav_dag_offload_platform.Common.Equality.{nat_eq, string_eq}
use uav_dag_offload_platform.Domain.Enums.{subtask_status_eq}
use uav_dag_offload_platform.Db.Models.{Uuid, Datetime, DagDependency}
use uav_dag_offload_platform.Db.Table.{find, where_, All}
use uav_dag_offload_platform.Db.Store.{Store, subtask_key}
use uav_dag_offload_platform.Services.Unlock.{Rows, subtasks_of}
use uav_dag_offload_platform.Services.Unlock.Laws.{row_of}
use uav_dag_offload_platform.Services.Tasks.Create.{
  SubtaskCreate, new_subtasks, new_dependencies, id_of,
}
use uav_dag_offload_platform.Services.Execution.{dependencies_of}

-- No stored row has an id that is still to be given.
pub record IsFresh (s : Store) : Type 0 where
  pub subtask_ids : All (λ r. r.id < s.next_uuid) s.subtasks
  pub subtask_tasks : All (λ r. r.task_id < s.next_uuid) s.subtasks
  pub dependency_tasks : All (λ d. d.task_id < s.next_uuid) s.dependencies

pub row_of-old :
    (t v : Uuid) (old rows : Rows)
    → All (λ r. eqb r.task_id t ≡ false) rows
    → row_of t (old ++ rows) v ≡ row_of t old v
unfolding row_of subtasks_of find where_
row_of-old t v [] [] others = refl
row_of-old t v [] (r ∷ rows) others = ground (arith, others.0, row_of-old t v [] rows others.1)
row_of-old t v (x ∷ old) rows others = ground (arith, row_of-old t v old rows others)

pub row_of-new :
    (t v : Uuid) (old rows : Rows)
    → All (λ r. r.task_id < t) old
    → All (λ r. r.task_id ≡ t) rows
    → row_of t (old ++ rows) v ≡ find v rows
unfolding row_of subtasks_of find where_
row_of-new t v [] [] below own = refl
row_of-new t v [] (r ∷ rows) below own =
    ground (arith, own.0, eqb_iff r.task_id t, row_of-new t v [] rows tt own.1)
row_of-new t v (x ∷ old) rows below own =
    ground (arith, below.0, eqb_iff x.task_id t, row_of-new t v old rows below.1 own)

pub row_of-none :
    (t v : Uuid) (rows : Rows) → All (λ r. r.task_id < t) rows → row_of t rows v ≡ none
unfolding row_of subtasks_of find where_
row_of-none t v [] below = refl
row_of-none t v (x ∷ rows) below =
    ground (arith, below.0, eqb_iff x.task_id t, row_of-none t v rows below.1)

pub dependencies_of-old :
    (t : Uuid) (old ds : List DagDependency)
    → All (λ d. eqb d.task_id t ≡ false) ds
    → dependencies_of t (old ++ ds) ≡ dependencies_of t old
unfolding dependencies_of where_
dependencies_of-old t [] [] others = refl
dependencies_of-old t [] (d ∷ ds) others =
    ground (arith, others.0, dependencies_of-old t [] ds others.1)
dependencies_of-old t (x ∷ old) ds others = ground (arith, dependencies_of-old t old ds others)

pub dependencies_of-new :
    (t : Uuid) (old ds : List DagDependency)
    → All (λ d. d.task_id < t) old
    → All (λ d. d.task_id ≡ t) ds
    → dependencies_of t (old ++ ds) ≡ ds
unfolding dependencies_of where_
dependencies_of-new t [] [] below own = refl
dependencies_of-new t [] (d ∷ ds) below own =
    ground (arith, own.0, eqb_iff d.task_id t, dependencies_of-new t [] ds tt own.1)
dependencies_of-new t (x ∷ old) ds below own =
    ground (arith, below.0, eqb_iff x.task_id t, dependencies_of-new t old ds below.1 own)

pub new_subtasks-own :
    (id : Uuid) (now : Datetime) (successors : List String) (n : ℕ) (forms : List SubtaskCreate)
    → All (λ r. r.task_id ≡ id) (new_subtasks id now successors n forms)
unfolding new_subtasks
new_subtasks-own id now successors n [] = tt
new_subtasks-own id now successors n (form ∷ forms) =
    (refl, new_subtasks-own id now successors (suc n) forms)

pub new_dependencies-own :
    (id : Uuid) (rows : Rows) (n : ℕ) (deps : List (String × String)) (ds : List DagDependency)
    → new_dependencies id rows n deps ≡ some ds
    → All (λ d. d.task_id ≡ id) ds
unfolding new_dependencies
new_dependencies-own id rows n [] ds h =
    let none_made : [] ≡ ds = ground (arith, h) in subst (All (λ d. d.task_id ≡ id)) none_made tt
new_dependencies-own id rows n ((p, q) ∷ deps) ds h = elim (Option-cases (id_of p rows)) [
  | inl gone ↦ absurd (ground (arith, h, gone))
  | inr (i, first) ↦ elim (Option-cases (id_of q rows)) [
    | inl gone ↦ absurd (ground (arith, h, gone, first))
    | inr (j, second) ↦ elim (Option-cases (new_dependencies id rows (suc n) deps)) [
      | inl gone ↦ absurd (ground (arith, h, gone, first, second))
      | inr (rest, later) ↦
          let d : DagDependency = record {
            id = n;
            task_id = id;
            predecessor_subtask_id = i;
            successor_subtask_id = j;
          } in
          let listed : d ∷ rest ≡ ds = ground (arith, h, first, second, later) in
          subst (All (λ d. d.task_id ≡ id)) listed
            (refl, new_dependencies-own id rows (suc n) deps rest later)
    ]
  ]
]

pub All-other :
    {A : Type 0} (task_id_of : A → Uuid) (id t : Uuid) (xs : List A)
    → eqb id t ≡ false
    → All (λ x. task_id_of x ≡ id) xs
    → All (λ x. eqb (task_id_of x) t ≡ false) xs
All-other task_id_of id t [] other own = tt
All-other task_id_of id t (x ∷ xs) other own =
    (ground (arith, own.0, other), All-other task_id_of id t xs other own.1)

pub All-suc : (n : ℕ) (rows : Rows) → All (λ r. r.id < n) rows → All (λ r. r.id < suc n) rows
All-suc n [] below = tt
All-suc n (r ∷ rows) below = (omega (arith, below.0), All-suc n rows below.1)
