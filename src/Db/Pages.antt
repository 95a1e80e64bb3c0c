-- ===== src/Db/Pages.antt =====
-- The listings of app/repositories: `order_by(column.desc())`, `offset` and `limit`, with the total of
-- the rows that the query selects. Which of two rows with one key comes first is the database's
-- choice; here it is the one stored first. Pages count from 1, as the endpoints demand.
use uav_dag_offload_platform.Common.{
  ℕ, zero, suc, ◌-◌, ◌*◌, Bool, true, Option, none, some, List, [], ◌∷◌, ltb, if◌then◌else◌,
}
use uav_dag_offload_platform.Common.Equality.{Eq, ◌==◌}

module _ {A : Type 0} where
  unfoldable pub insert_by : (A → A → Bool) → A → List A → List A
  insert_by before x [] = x ∷ []
  insert_by before x (y ∷ ys) =
      let rest = insert_by before x ys in if before x y then x ∷ y ∷ ys else y ∷ rest

  unfoldable pub order_by : (A → A → Bool) → List A → List A
  unfolding insert_by
  order_by before [] = []
  order_by before (x ∷ xs) = insert_by before x (order_by before xs)

  -- order_by(column.desc()) and order_by(column.asc())
  abbrev pub newest_first : (A → ℕ) → List A → List A
  newest_first column xs =
      order_by (λ x y. if ltb (column x) (column y) then Bool.false else true) xs

  abbrev pub oldest_first : (A → ℕ) → List A → List A
  oldest_first column xs =
      order_by (λ x y. if ltb (column y) (column x) then Bool.false else true) xs

  unfoldable pub take : ℕ → List A → List A
  take zero xs = []
  take (suc n) [] = []
  take (suc n) (x ∷ xs) = x ∷ take n xs

  unfoldable pub drop : ℕ → List A → List A
  drop zero xs = xs
  drop (suc n) [] = []
  drop (suc n) (x ∷ xs) = drop n xs

  -- .offset((page - 1) * page_size).limit(page_size)
  unfoldable pub page_of : ℕ → ℕ → List A → List A
  unfolding take drop
  page_of page page_size xs = take page_size (drop ((page - 1) * page_size) xs)

-- `if value is not None: statement = statement.where(column == value)`
abbrev pub is_or_any : {A : Type 0} ⦃e : Eq A⦄ → Option A → A → Bool
is_or_any none x = true
is_or_any (some value) x = x == value
