-- ===== src/Graph.antt =====
-- The dependency tables as graphs, and the search for a cycle. `has_cycle` and `has_task_cycle` of
-- src/board/services.py are one loop over two tables; it is stated once, over a table's rows, and
-- `Board.Dependencies` has the two methods.
pub mod Walks
pub mod Ends
pub mod Correct
pub mod Acyclic
use cloglog.Base.{
  ℕ, zero, suc, Bool, true, false, Option, none, some, List, [], ◌∷◌, ◌++◌, ◌==◌, contains,
  if◌then◌else◌, length,
}
use mathlib.Core.List.{reverse}

-- `get_feature_dependencies` and `get_task_dependencies`: the second column of a node's rows.
unfoldable pub dependencies : List (ℕ × ℕ) → ℕ → List ℕ
dependencies [] node = []
dependencies ((from, to) ∷ rows) node =
    if from == node then to ∷ dependencies rows node else dependencies rows node

-- The `while stack` loop. The head of the list is the top of the stack, so what `extend` appends
-- stands reversed in front. `none` means that the fuel ran out.
unfoldable pub dfs : List (ℕ × ℕ) → ℕ → ℕ → List ℕ → List ℕ → Option Bool
dfs rows goal fuel visited [] = some false
dfs rows goal zero visited (current ∷ stack) = none
dfs rows goal (suc fuel) visited (current ∷ stack) =
    let seen = dfs rows goal fuel visited stack in
    let new =
      dfs rows goal fuel (current ∷ visited) (reverse (dependencies rows current) ++ stack) in
    if current == goal then some true else if contains visited current then seen else new

-- Each row of the table is pushed once at most, so a round for each of them and one for the start
-- are enough.
unfoldable pub has_cycle : List (ℕ × ℕ) → ℕ → ℕ → Option Bool
unfolding dfs dependencies
has_cycle rows goal start = dfs rows goal (suc (length rows)) [] (start ∷ [])
