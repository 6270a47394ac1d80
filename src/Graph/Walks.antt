-- ===== src/Graph/Walks.antt =====
-- Walks along the rows of a dependency table.
use cloglog.Base.{
  ℕ, ◌≡◌, sym, inl, inr, true, List, [], ◌∷◌, arith, ◌==◌, contains, ==_iff, Bool-cases,
}
use cloglog.Graph.{dependencies}
use mathlib.Core.List.{Memᴰ}

pub data Walk (rows : List (ℕ × ℕ)) : ℕ → ℕ → Type 0 where
  here : {u : ℕ} → Walk rows u u
  next : {u v w : ℕ} → Walk rows u v → Memᴰ w (dependencies rows v) → Walk rows u w

pub Walk-trans : {rows : List (ℕ × ℕ)} {u v w : ℕ} → Walk rows u v → Walk rows v w → Walk rows u w
Walk-trans p here = p
Walk-trans p (next q e) = next (Walk-trans p q) e

-- A walk with one step in front.
pub Walk-first :
    {rows : List (ℕ × ℕ)} {u v w : ℕ} → Memᴰ v (dependencies rows u) → Walk rows v w → Walk rows u w
Walk-first e p = Walk-trans (next here e) p

-- No node is reached again from one of its own dependencies.
unfoldable pub Acyclic : List (ℕ × ℕ) → Type 0
Acyclic rows = (u v : ℕ) → Memᴰ v (dependencies rows u) → ¬ Walk rows v u

pub mem_of_contains : (xs : List ℕ) (a : ℕ) → contains xs a ≡ true → Memᴰ a xs
mem_of_contains [] a h = cc
mem_of_contains (x ∷ xs) a h = elim (Bool-cases (x == a)) [
  | inl e ↦ Memᴰ.head (sym ((==_iff x a).0 e))
  | inr e ↦ Memᴰ.tail (mem_of_contains xs a (ground arith))
]

pub contains_of_mem : (xs : List ℕ) (a : ℕ) → Memᴰ a xs → contains xs a ≡ true
contains_of_mem [] a m = elim m [ ]
contains_of_mem (x ∷ xs) a (Memᴰ.head e) = ground arith
contains_of_mem (x ∷ xs) a (Memᴰ.tail m) = ground (arith, contains_of_mem xs a m)
