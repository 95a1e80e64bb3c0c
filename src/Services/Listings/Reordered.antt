-- ===== src/Services/Listings/Reordered.antt =====
-- Rows in another order: `_task_to_detail` of app/api/v1/endpoints/tasks.py reads relationships, which the
-- database lists in an order of its own.
use uav_dag_offload_platform.Common.{
  ℕ, ◌≡◌, ◌∙◌, refl, ap, some, List, [], ◌∷◌, map, arith, Option-cases, inl, inr,
}
use mathlib.Core.List.{Permᴰ}
use mathlib.Core.List.Permᴰ
use uav_dag_offload_platform.Common.Equality.{nat_eq}
use uav_dag_offload_platform.Domain.Dag.{contains}
use uav_dag_offload_platform.Domain.Dag.Graph.{Distinct}
use uav_dag_offload_platform.Db.Models.{DagDependency}
use uav_dag_offload_platform.Db.Table.{find}
use uav_dag_offload_platform.Db.Table.Bulk.{keys}
use uav_dag_offload_platform.Db.Store.{subtask_key}
use uav_dag_offload_platform.Services.Unlock.{Rows}
use uav_dag_offload_platform.Services.Listings.{
  DagDependencyRead, external_id_of, read_dependencies,
}

contains-Perm : (k : ℕ) {xs ys : Rows} → Permᴰ xs ys → contains (keys xs) k ≡ contains (keys ys) k
unfolding contains keys
contains-Perm k Permᴰ.nil = refl
contains-Perm k (Permᴰ.cons p rest) = ground (arith, ap (λ r. r.id) p, contains-Perm k rest)
contains-Perm k (Permᴰ.swap p q) = ground (arith, ap (λ r. r.id) p, ap (λ r. r.id) q)
contains-Perm k (Permᴰ.trans p q) = contains-Perm k p ∙ contains-Perm k q

Distinct-Perm : {xs ys : Rows} → Permᴰ xs ys → Distinct (keys xs) → Distinct (keys ys)
unfolding contains keys
Distinct-Perm Permᴰ.nil once = once
Distinct-Perm (Permᴰ.cons {a = a} p rest) once =
    (ground (arith, ap (λ r. r.id) p, contains-Perm a.id rest, once.0), Distinct-Perm rest once.1)
Distinct-Perm (Permᴰ.swap p q) once = (
  ground (arith, ap (λ r. r.id) p, ap (λ r. r.id) q, once.0, once.1.0),
  (ground (arith, ap (λ r. r.id) p, ap (λ r. r.id) q, once.0, once.1.0), once.1.1),
)
Distinct-Perm (Permᴰ.trans p q) once = Distinct-Perm q (Distinct-Perm p once)

find-Perm : (k : ℕ) {xs ys : Rows} → Permᴰ xs ys → Distinct (keys xs) → find k xs ≡ find k ys
unfolding contains keys find
find-Perm k Permᴰ.nil once = refl
find-Perm k (Permᴰ.cons p rest) once = ground (arith, p, ap (λ r. r.id) p, find-Perm k rest once.1)
find-Perm k (Permᴰ.swap p q) once = ground (arith, p, q, ap (λ r. r.id) p, ap (λ r. r.id) q, once.0)
find-Perm k (Permᴰ.trans p q) once = find-Perm k p once ∙ find-Perm k q (Distinct-Perm p once)

-- A dict of the rows by their keys does not depend on their order.
pub read_dependencies-rows :
    {xs ys : Rows}
    → Permᴰ xs ys
    → Distinct (keys xs)
    → (ds : List DagDependency) → read_dependencies ys ds ≡ read_dependencies xs ds
unfolding read_dependencies external_id_of
read_dependencies-rows p once [] = refl
read_dependencies-rows p once (d ∷ ds) =
    rw
      (
        find-Perm d.predecessor_subtask_id p once,
        find-Perm d.successor_subtask_id p once,
        read_dependencies-rows p once ds,
      )
      refl

-- How the first dependency is read.
record FirstRead (rows : Rows) (d : DagDependency) (ds : List DagDependency)
    (es : List DagDependencyRead) : Type 0 where
  edge : DagDependencyRead
  rest : List DagDependencyRead
  from_found : external_id_of d.predecessor_subtask_id rows ≡ some edge.from_
  to_found : external_id_of d.successor_subtask_id rows ≡ some edge.to
  rest_read : read_dependencies rows ds ≡ some rest
  listed : es ≡ edge ∷ rest

first_read :
    (rows : Rows) (d : DagDependency) (ds : List DagDependency) (es : List DagDependencyRead)
    → read_dependencies rows (d ∷ ds) ≡ some es
    → FirstRead rows d ds es
unfolding read_dependencies
first_read rows d ds es h = elim (Option-cases (external_id_of d.predecessor_subtask_id rows)) [
  | inl gone ↦ absurd (ground (arith, h, gone))
  | inr (i, first) ↦ elim (Option-cases (external_id_of d.successor_subtask_id rows)) [
    | inl gone ↦ absurd (ground (arith, h, gone, first))
    | inr (j, second) ↦ elim (Option-cases (read_dependencies rows ds)) [
      | inl gone ↦ absurd (ground (arith, h, gone, first, second))
      | inr (rest, later) ↦ record {
        edge = record { from_ = i; to = j };
        rest = rest;
        from_found = first;
        to_found = second;
        rest_read = later;
        listed = ground (arith, h, first, second, later);
      }
    ]
  ]
]

read_first :
    (rows : Rows) (d : DagDependency) (ds : List DagDependency) (edge : DagDependencyRead)
    (rest : List DagDependencyRead)
    → external_id_of d.predecessor_subtask_id rows ≡ some edge.from_
    → external_id_of d.successor_subtask_id rows ≡ some edge.to
    → read_dependencies rows ds ≡ some rest
    → read_dependencies rows (d ∷ ds) ≡ some (edge ∷ rest)
unfolding read_dependencies
read_first rows d ds edge rest first second later = rw (first, second, later) refl

-- Dependencies in another order are read in that order.
pub read_dependencies-Perm :
    (rows : Rows) {xs ys : List DagDependency}
    → Permᴰ xs ys
    → (es : List DagDependencyRead) → read_dependencies rows xs ≡ some es
    → (es' : List DagDependencyRead) × (read_dependencies rows ys ≡ some es') × Permᴰ es es'
read_dependencies-Perm rows Permᴰ.nil es h = (es, h, Permᴰ.refl es)
read_dependencies-Perm rows (Permᴰ.cons {a = a} {b = b} {l₁ = l₁} {l₂ = l₂} p more) es h =
    let r = first_read rows a l₁ es h in
    let (rest', read, perm) = read_dependencies-Perm rows more r.rest r.rest_read in
    (
      r.edge ∷ rest',
      read_first rows b l₂ r.edge rest' (rw (← p) r.from_found) (rw (← p) r.to_found) read,
      rw r.listed (Permᴰ.cons refl perm),
    )
read_dependencies-Perm rows (Permᴰ.swap {a = a} {b = b} {a' = a'} {b' = b'} {l = l} p q) es h =
    let r = first_read rows a (b ∷ l) es h in
    let t = first_read rows b l r.rest r.rest_read in
    (
      t.edge ∷ r.edge ∷ t.rest,
      read_first rows a' (b' ∷ l) t.edge (r.edge ∷ t.rest) (rw (← q) t.from_found)
          (rw (← q) t.to_found)
          (read_first rows b' l r.edge t.rest (rw (← p) r.from_found) (rw (← p) r.to_found)
            t.rest_read),
      rw (r.listed, t.listed) (Permᴰ.swap refl refl),
    )
read_dependencies-Perm rows (Permᴰ.trans p q) es h =
    let (es1, read1, perm1) = read_dependencies-Perm rows p es h in
    let (es2, read2, perm2) = read_dependencies-Perm rows q es1 read1 in
    (es2, read2, Permᴰ.trans perm1 perm2)

pub map-Perm :
    {A B : Type 0} (f : A → B) {xs ys : List A} → Permᴰ xs ys → Permᴰ (map f xs) (map f ys)
map-Perm f Permᴰ.nil = Permᴰ.nil
map-Perm f (Permᴰ.cons p rest) = Permᴰ.cons (ap f p) (map-Perm f rest)
map-Perm f (Permᴰ.swap p q) = Permᴰ.swap (ap f p) (ap f q)
map-Perm f (Permᴰ.trans p q) = Permᴰ.trans (map-Perm f p) (map-Perm f q)
