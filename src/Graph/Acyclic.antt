-- ===== src/Graph/Acyclic.antt =====
-- What adding and removing a row does to the walks of a table.
use cloglog.Base.{
  ℕ, ◌≡◌, sym, subst, inl, inr, ◌⊎◌, Bool, List, [], ◌∷◌, ◌++◌, ◌==◌, ==_iff, Bool-cases, select,
}
use mathlib.Core.List.{Memᴰ}
use mathlib.Core.List.Memᴰ
use cloglog.Graph.{dependencies}
use cloglog.Graph.Walks.{Walk, here, next, Walk-trans, Acyclic}

module _ (from to : ℕ) where
  -- A new row gives its source one more dependency.
  dependencies-append :
      (rows : List (ℕ × ℕ)) (u w : ℕ)
      → Memᴰ w (dependencies (rows ++ (from, to) ∷ []) u)
      → Memᴰ w (dependencies rows u) ⊎ ((u ≡ from) × (w ≡ to))
  unfolding dependencies
  dependencies-append [] u w m = elim (Bool-cases (from == u)) [
    | inl e ↦ inr (sym ((==_iff from u).0 e), Memᴰ.eq_of_singleton (rw e at m))
    | inr e ↦ inl (rw e at m)
  ]
  dependencies-append ((x, y) ∷ rows) u w m = elim (Bool-cases (x == u)) [
    | inl e ↦ rw e (shift (dependencies-append rows u w) (rw e at m))
    | inr e ↦ rw e (dependencies-append rows u w (rw e at m))
  ]
    where
      shift :
          (Memᴰ w (dependencies (rows ++ (from, to) ∷ []) u)
            → Memᴰ w (dependencies rows u) ⊎ ((u ≡ from) × (w ≡ to)))
          → Memᴰ w (y ∷ dependencies (rows ++ (from, to) ∷ []) u)
          → Memᴰ w (y ∷ dependencies rows u) ⊎ ((u ≡ from) × (w ≡ to))
      shift ih (Memᴰ.head e) = inl (Memᴰ.head e)
      shift ih (Memᴰ.tail m') = elim (ih m') [ inl old ↦ inl (Memᴰ.tail old) | inr new ↦ inr new ]

  -- A walk along the longer table that uses the new row comes to its source and goes on behind it.
  Walk-append :
      (rows : List (ℕ × ℕ)) {x y : ℕ}
      → Walk (rows ++ (from, to) ∷ []) x y
      → Walk rows x y ⊎ (Walk rows x from × Walk rows to y)
  Walk-append rows here = inl here
  Walk-append rows (next {v = v} {w = w} p e) = elim (Walk-append rows p) [
    | inl q ↦ elim (dependencies-append rows v w e) [
      | inl old ↦ inl (next q old)
      | inr (u, t) ↦ inr (subst (Walk rows _) u q, subst (Walk rows to) (sym t) here)
    ]
    | inr (q, r) ↦ elim (dependencies-append rows v w e) [
      | inl old ↦ inr (q, next r old)
      | inr (u, t) ↦ inr (q, subst (Walk rows to) (sym t) here)
    ]
  ]

  -- A row whose target does not lead back to its source closes no cycle.
  pub Acyclic-append :
      (rows : List (ℕ × ℕ)) → Acyclic rows → ¬ Walk rows to from → Acyclic (rows ++ (from, to) ∷ [])
  unfolding Acyclic
  Acyclic-append rows h open_end u v d p = elim (dependencies-append rows u v d) [
    | inl old ↦ elim (Walk-append rows p) [
      | inl q ↦ h u v old q
      | inr (q, r) ↦ open_end (Walk-trans (next r old) q)
    ]
    | inr (e, t) ↦ elim (Walk-append rows p) [
      | inl q ↦ open_end (subst (Walk rows to) e (subst (λ z. Walk rows z u) t q))
      | inr (q, r) ↦ open_end (subst (λ z. Walk rows z from) t q)
    ]
  ]

module _ (kept : ℕ × ℕ → Bool) where
  dependencies-select :
      (rows : List (ℕ × ℕ)) (u w : ℕ)
      → Memᴰ w (dependencies (select kept rows) u)
      → Memᴰ w (dependencies rows u)
  unfolding dependencies
  dependencies-select [] u w m = m
  dependencies-select ((x, y) ∷ rows) u w m = elim (Bool-cases (kept (x, y))) [
    | inl k ↦ elim (Bool-cases (x == u)) [
      | inl e ↦ rw e (shift (dependencies-select rows u w) (rw (k, e) at m))
      | inr e ↦ rw e (dependencies-select rows u w (rw (k, e) at m))
    ]
    | inr k ↦ elim (Bool-cases (x == u)) [
      | inl e ↦ rw e (Memᴰ.tail (dependencies-select rows u w (rw k at m)))
      | inr e ↦ rw e (dependencies-select rows u w (rw k at m))
    ]
  ]
    where
      shift :
          (Memᴰ w (dependencies (select kept rows) u) → Memᴰ w (dependencies rows u))
          → Memᴰ w (y ∷ dependencies (select kept rows) u)
          → Memᴰ w (y ∷ dependencies rows u)
      shift ih (Memᴰ.head e) = Memᴰ.head e
      shift ih (Memᴰ.tail m') = Memᴰ.tail (ih m')

  Walk-select : (rows : List (ℕ × ℕ)) {x y : ℕ} → Walk (select kept rows) x y → Walk rows x y
  Walk-select rows here = here
  Walk-select rows (next {v = v} {w = w} p e) =
      next (Walk-select rows p) (dependencies-select rows v w e)

  -- Removing rows closes no cycle.
  pub Acyclic-select : (rows : List (ℕ × ℕ)) → Acyclic rows → Acyclic (select kept rows)
  unfolding Acyclic
  Acyclic-select rows h u v d p = h u v (dependencies-select rows u v d) (Walk-select rows p)
