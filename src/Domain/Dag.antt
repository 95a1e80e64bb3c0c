-- ===== src/Domain/Dag.antt =====
-- app/domain/dag.py: `validate_dag`, by Kahn's algorithm. A set is a list, of which the code asks
-- only membership and size; a dict is an association list in insertion order.
pub mod Graph
pub mod Counts
pub mod Loop
pub mod Visit
pub mod Correct
use uav_dag_offload_platform.Common.{
  ℕ, zero, suc, ◌≡◌, Bool, true, false, not, ◌&&◌, ◌||◌, Option, none, some, List, [], ◌∷◌, ◌++◌,
  map, eqb, length, if◌then◌else◌,
}
use uav_dag_offload_platform.Common.Int.{ℤ, pos, negsuc, succ_ℤ, pred_ℤ, is_zero_ℤ}
use uav_dag_offload_platform.Common.Equality.{Eq, ◌==◌}

pub data DagError : Type 0 where
  no_subtask duplicate_ids unknown_subtask self_dependency cycle : DagError

-- What `validate_dag` returns: `None`, or the `ValueError` raised.
pub data Verdict : Type 0 where
  valid : Verdict
  invalid : DagError → Verdict

abbrev pub Counts : Type 0 → Type 0
Counts K = List (K × ℤ)

abbrev pub is_zero_count : Option ℤ → Bool
is_zero_count none = false
is_zero_count (some n) = is_zero_ℤ n

abbrev pub judge : ℕ → Option ℕ → Option Verdict
judge n none = none
judge n (some visited) = some (if eqb visited n then valid else invalid cycle)

abbrev pub is_empty {ℓ} : {A : Type ℓ} → List A → Bool
is_empty [] = true
is_empty (x ∷ xs) = false

module _ {K : Type 0} ⦃e : Eq K⦄ where
  unfoldable pub contains : List K → K → Bool
  contains [] a = false
  contains (x ∷ xs) a = x == a || contains xs a

  -- set(xs)
  unfoldable pub set_of : List K → List K
  unfolding contains
  set_of [] = []
  set_of (x ∷ xs) = let rest = set_of xs in if contains rest x then rest else x ∷ rest

  -- The checks on each dependency, in order. `none`: all passed.
  unfoldable pub check_dependencies : List K → List (K × K) → Option DagError
  unfolding contains
  check_dependencies ids [] = none
  check_dependencies ids ((predecessor, successor) ∷ rest) =
      if not (contains ids predecessor) || not (contains ids successor)
      then some unknown_subtask
      else if predecessor == successor
      then some self_dependency
      else check_dependencies ids rest

  -- d.get(k)
  unfoldable pub count_of : Counts K → K → Option ℤ
  count_of [] k = none
  count_of ((j, n) ∷ d) k = if j == k then some n else count_of d k

  -- d[k] = f(d[k]). Every key that the code updates is one of the subtask ids.
  unfoldable pub update : (ℤ → ℤ) → K → Counts K → Counts K
  update f k [] = []
  update f k ((j, n) ∷ d) = if j == k then (j, f n) ∷ d else (j, n) ∷ update f k d

  unfoldable pub zero_counts : List K → Counts K
  zero_counts [] = []
  zero_counts (x ∷ xs) = (x, pos 0) ∷ zero_counts xs

  -- incoming_count after the loop over the dependencies
  unfoldable pub count_incoming : List (K × K) → Counts K → Counts K
  unfolding update
  count_incoming [] d = d
  count_incoming ((predecessor, successor) ∷ rest) d =
      count_incoming rest (update succ_ℤ successor d)

  -- graph[current], for the adjacency lists that the same loop builds
  unfoldable pub successors : K → List (K × K) → List K
  successors current [] = []
  successors current ((predecessor, successor) ∷ rest) =
      let later = successors current rest in
      if predecessor == current then successor ∷ later else later

  -- The keys with count 0, in insertion order.
  unfoldable pub roots : Counts K → List K
  roots [] = []
  roots ((j, n) ∷ d) = let rest = roots d in if is_zero_ℤ n then j ∷ rest else rest

  -- The `for successor in graph[current]` loop: the counts and the queue after it.
  unfoldable pub release : List K → Counts K → List K → Counts K × List K
  unfolding update count_of
  release [] d queue = (d, queue)
  release (s ∷ rest) d queue =
      let d' = update pred_ℤ s d in
      release rest d' (if is_zero_count (count_of d' s) then queue ++ s ∷ [] else queue)

  -- The `while queue` loop; `none`: the fuel ran out.
  unfoldable pub visit : ℕ → List (K × K) → Counts K → List K → ℕ → Option ℕ
  unfolding release successors
  visit fuel deps d [] visited = some visited
  visit zero deps d (current ∷ queue) visited = none
  visit (suc fuel) deps d (current ∷ queue) visited =
      let next = release (successors current deps) d queue in
      visit fuel deps next.0 next.1 (suc visited)

  -- From the counters on. Each subtask enters the queue at most once, so the number of subtasks is
  -- fuel enough.
  unfoldable pub search_order : List K → List (K × K) → Option Verdict
  unfolding visit count_incoming zero_counts roots
  search_order ids deps =
      let d = count_incoming deps (zero_counts ids) in
      judge (length ids) (visit (length ids) deps d (roots d) 0)

  -- `none`: the fuel ran out.
  unfoldable pub validate_dag : List K → List (K × K) → Option Verdict
  unfolding set_of check_dependencies search_order
  validate_dag ids deps =
      if is_empty ids
      then some (invalid no_subtask)
      else if not (eqb (length ids) (length (set_of ids)))
      then some (invalid duplicate_ids)
      else elim (check_dependencies ids deps) [
        | some error ↦ some (invalid error)
        | none ↦ search_order ids deps
      ]
