-- ===== src/Base/Unique.antt =====
-- Queries that select one row at most.
use mathlib.Core.Path.{◌≡◌, refl}
use mathlib.Core.Logic.{◌⊎◌, inl, inr}
use mathlib.Core.Bool.{Bool, true, false}
use mathlib.Core.List.{List, [], ◌∷◌}
use native.Mathlib.Omega.{arith}
use cloglog.Base.Tests.{leb, List-cases}
use cloglog.Base.Lists.{length, all, any, select, count}

pub count-select : {A : Type 0} (q : A → Bool) (xs : List A) → count q xs ≡ length (select q xs)
count-select q [] = refl
count-select q (x ∷ xs) = ground (arith, count-select q xs)

-- The rows of a query that has at most one.
pub none_or_one :
    {A : Type 0} (q : A → Bool) (xs : List A)
    → leb (count q xs) 1 ≡ true
    → (select q xs ≡ []) ⊎ ((a : A) × (select q xs ≡ a ∷ []))
none_or_one q xs h = elim (List-cases (select q xs)) [
  | inl e ↦ inl e
  | inr (a, rest, e) ↦ elim (List-cases rest) [
    | inl e' ↦ inr (a, rw e' at e)
    | inr (b, more, e') ↦ absurd (ground (arith, count-select q xs))
  ]
]

pub select-all : {A : Type 0} (q : A → Bool) (xs : List A) → all q (select q xs) ≡ true
select-all q [] = refl
select-all q (x ∷ xs) = ground (arith, select-all q xs)

any-select_nil : {A : Type 0} (q : A → Bool) (xs : List A) → select q xs ≡ [] → any q xs ≡ false
any-select_nil q [] h = refl
any-select_nil q (x ∷ xs) h = ground (arith, any-select_nil q xs)

-- A query that selects one row at most, and some row, selects one.
pub exactly_one :
    {A : Type 0} (q : A → Bool) (xs : List A)
    → leb (count q xs) 1 ≡ true
    → any q xs ≡ true
    → (a : A) × (select q xs ≡ a ∷ [])
exactly_one q xs h there = elim (none_or_one q xs h) [
  | inl e ↦ absurd (ground (arith, any-select_nil q xs e))
  | inr found ↦ found
]
