-- ===== src/Db/Counts.antt =====
-- select(column, func.count()).group_by(column), read into a dict by the text of the column: which
-- group the database lists first is its own choice, and the callers sort the dict.
use uav_dag_offload_platform.Common.{
  ℕ, suc, ◌+◌, ◌≡◌, refl, ap, ◌∙◌, String, List, [], ◌∷◌, map, arith, length, length-map,
  if◌then◌else◌,
}
use uav_dag_offload_platform.Common.Equality.{◌==◌, string_eq}
use uav_dag_offload_platform.Domain.Enums.{StrEnum}
use uav_dag_offload_platform.Db.Table.{count_where}
use uav_dag_offload_platform.Db.Table.{where_}

abbrev pub Counts : Type 0
Counts = List (String × ℕ)

unfoldable pub add_one : String → Counts → Counts
add_one key [] = (key, 1) ∷ []
add_one key ((k, n) ∷ counts) =
    let rest = add_one key counts in if k == key then (k, suc n) ∷ counts else (k, n) ∷ rest

unfoldable pub group_texts : List String → Counts
unfolding add_one
group_texts [] = []
group_texts (key ∷ texts) = add_one key (group_texts texts)

module _ {A E : Type 0} ⦃s : StrEnum E⦄ where
  abbrev texts_of : (A → E) → List A → List String
  texts_of column rows = map (λ r. s.value (column r)) rows

  unfoldable pub group_count : (A → E) → List A → Counts
  unfolding group_texts
  group_count column rows = group_texts (texts_of column rows)

-- d.get(key, 0)
unfoldable pub count_at : String → Counts → ℕ
count_at key [] = 0
count_at key ((k, n) ∷ counts) = if k == key then n else count_at key counts

-- sum(d.values())
unfoldable pub total : Counts → ℕ
total [] = 0
total ((k, n) ∷ counts) = n + total counts

count_at-add_one :
    (key k : String) (counts : Counts)
    → count_at k (add_one key counts)
      ≡ (if key == k then suc (count_at k counts) else count_at k counts)
unfolding count_at add_one
count_at-add_one key k [] = ground arith
count_at-add_one key k ((j, n) ∷ counts) = ground (
  arith,
  count_at-add_one key k counts,
  string_eq.agrees j key,
  string_eq.agrees j k,
  string_eq.agrees key k,
)

total-add_one : (key : String) (counts : Counts) → total (add_one key counts) ≡ suc (total counts)
unfolding total add_one
total-add_one key [] = refl
total-add_one key ((k, n) ∷ counts) = ground (arith, total-add_one key counts)

total-texts : (texts : List String) → total (group_texts texts) ≡ length texts
unfolding total group_texts
total-texts [] = refl
total-texts (key ∷ texts) = total-add_one key (group_texts texts) ∙ ap suc (total-texts texts)

module _ {A E : Type 0} ⦃s : StrEnum E⦄ (column : A → E) where
  -- The groups have all rows between them.
  pub total-group_count : (rows : List A) → total (group_count column rows) ≡ length rows
  unfolding group_count
  total-group_count rows =
      total-texts (texts_of column rows) ∙ length-map (λ r. s.value (column r)) rows

  -- Each group has the rows whose column has its text.
  pub count_at-group_count :
      (key : String) (rows : List A)
      → count_at key (group_count column rows) ≡ count_where (λ r. s.value (column r) == key) rows
  unfolding group_count group_texts count_at count_where where_
  count_at-group_count key [] = refl
  count_at-group_count key (r ∷ rows) = ground (
    arith,
    count_at-add_one (s.value (column r)) key (group_count column rows),
    count_at-group_count key rows,
  )
