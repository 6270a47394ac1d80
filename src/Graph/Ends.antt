-- ===== src/Graph/Ends.antt =====
-- The search ends: the fuel of `has_cycle` is never used up.
use cloglog.Base.{
  ℕ, zero, suc, ◌+◌, ◌≤◌, ◌≡◌, ◌≢◌, refl, false, none, List, [], ◌∷◌, ◌++◌, arith, contains,
  if◌then◌else◌, length, length-append,
}
use mathlib.Core.List.{reverse, reverse_aux}
use cloglog.Graph.{dependencies, dfs, has_cycle}

-- The rows whose source is not visited: those that may still be pushed.
unpushed : List (ℕ × ℕ) → List ℕ → ℕ
unpushed [] visited = 0
unpushed ((from, to) ∷ rows) visited =
    (if contains visited from then 0 else 1) + unpushed rows visited

length-reverse_aux : (xs ys : List ℕ) → length (reverse_aux xs ys) ≡ length xs + length ys
length-reverse_aux [] ys = omega arith
length-reverse_aux (x ∷ xs) ys = omega (arith, length-reverse_aux xs (x ∷ ys))

length-reverse : (xs : List ℕ) → length (reverse xs) ≡ length xs
length-reverse xs = omega (arith, length-reverse_aux xs [])

unpushed-le : (rows : List (ℕ × ℕ)) (visited : List ℕ) → unpushed rows visited ≤ length rows
unfolding unpushed
unpushed-le [] visited = omega arith
unpushed-le ((from, to) ∷ rows) visited = ground (arith, unpushed-le rows visited)

-- Visiting a new node takes its rows from that number, and pushes as many.
unpushed-visit :
    (rows : List (ℕ × ℕ)) (visited : List ℕ) (u : ℕ)
    → contains visited u ≡ false
    → unpushed rows (u ∷ visited) + length (dependencies rows u) ≡ unpushed rows visited
unfolding unpushed dependencies
unpushed-visit [] visited u h = refl
unpushed-visit ((from, to) ∷ rows) visited u h = ground (arith, unpushed-visit rows visited u h)

dfs_ends :
    (rows : List (ℕ × ℕ)) (goal fuel : ℕ) (visited stack : List ℕ)
    → length stack + unpushed rows visited ≤ fuel
    → dfs rows goal fuel visited stack ≢ none
unfolding dfs
dfs_ends rows goal fuel visited [] h = ground arith
dfs_ends rows goal zero visited (u ∷ stack) h = absurd (omega arith)
dfs_ends rows goal (suc fuel) visited (u ∷ stack) h = ground (
  arith,
  dfs_ends rows goal fuel visited stack,
  dfs_ends rows goal fuel (u ∷ visited) (reverse (dependencies rows u) ++ stack),
  unpushed-visit rows visited u,
  length-append (reverse (dependencies rows u)) stack,
  length-reverse (dependencies rows u),
)

-- The search returns, whatever the table holds.
pub has_cycle_ends : (rows : List (ℕ × ℕ)) (goal start : ℕ) → has_cycle rows goal start ≢ none
unfolding has_cycle
has_cycle_ends rows goal start =
    dfs_ends rows goal (suc (length rows)) [] (start ∷ []) (omega (arith, unpushed-le rows []))
