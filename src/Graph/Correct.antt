-- ===== src/Graph/Correct.antt =====
-- The search decides whether the goal can be reached from the start.
use cloglog.Base.{
  ℕ, zero, suc, ◌≡◌, ◌≢◌, ◌⊎◌, refl, sym, subst, ◌∙◌, inl, inr, Bool, true, false, Option, none,
  some, List, [], ◌∷◌, ◌++◌, arith, ◌==◌, ==_iff, contains, length, Bool-cases,
}
use mathlib.Core.List.{reverse, reverse_aux, Memᴰ}
use mathlib.Core.List.Memᴰ
use cloglog.Graph.{dependencies, dfs, has_cycle}
use cloglog.Graph.Walks.{Walk, here, next, Walk-first, mem_of_contains}
use cloglog.Graph.Ends.{has_cycle_ends}

reverse_aux_mem : (a : ℕ) (xs ys : List ℕ) → Memᴰ a (reverse_aux xs ys) → Memᴰ a xs ⊎ Memᴰ a ys
reverse_aux_mem a [] ys m = inr m
reverse_aux_mem a (x ∷ xs) ys m = elim (reverse_aux_mem a xs (x ∷ ys) m) [
  | inl old ↦ inl (Memᴰ.tail old)
  | inr (Memᴰ.head e) ↦ inl (Memᴰ.head e)
  | inr (Memᴰ.tail m') ↦ inr m'
]

mem_reverse_aux : (a : ℕ) (xs ys : List ℕ) → Memᴰ a xs ⊎ Memᴰ a ys → Memᴰ a (reverse_aux xs ys)
mem_reverse_aux a [] ys (inl m) = absurd (Memᴰ.not-nil m)
mem_reverse_aux a [] ys (inr m) = m
mem_reverse_aux a (x ∷ xs) ys (inl (Memᴰ.head e)) =
    mem_reverse_aux a xs (x ∷ ys) (inr (Memᴰ.head e))
mem_reverse_aux a (x ∷ xs) ys (inl (Memᴰ.tail m)) = mem_reverse_aux a xs (x ∷ ys) (inl m)
mem_reverse_aux a (x ∷ xs) ys (inr m) = mem_reverse_aux a xs (x ∷ ys) (inr (Memᴰ.tail m))

module _ (rows : List (ℕ × ℕ)) (goal : ℕ) where
  -- What is on the stack after a visit: a dependency, or what stood there.
  pushed :
      (u x : ℕ) (stack : List ℕ)
      → Memᴰ x (reverse (dependencies rows u) ++ stack)
      → Memᴰ x (dependencies rows u) ⊎ Memᴰ x stack
  pushed u x stack m = elim (Memᴰ.append_cases (reverse (dependencies rows u)) m) [
    | inl new ↦ elim (reverse_aux_mem x (dependencies rows u) [] new) [
      | inl dep ↦ inl dep
      | inr nothing ↦ absurd (Memᴰ.not-nil nothing)
    ]
    | inr old ↦ inr old
  ]

  -- `true` is found only at the end of a walk from a node of the stack.
  dfs_sound :
      (fuel : ℕ) (visited stack : List ℕ)
      → dfs rows goal fuel visited stack ≡ some true
      → (u : ℕ) × Memᴰ u stack × Walk rows u goal
  unfolding dfs
  dfs_sound fuel visited [] h = absurd (ground arith)
  dfs_sound zero visited (u ∷ stack) h = absurd (ground arith)
  dfs_sound (suc fuel) visited (u ∷ stack) h = elim (Bool-cases (u == goal)) [
    | inl e ↦ (u, Memᴰ.head refl, subst (Walk rows u) ((==_iff u goal).0 e) here)
    | inr e ↦ elim (Bool-cases (contains visited u)) [
      | inl seen ↦
          let (v, m, p) = dfs_sound fuel visited stack (ground arith) in (v, Memᴰ.tail m, p)
      | inr new ↦
          let (v, m, p) =
            dfs_sound fuel (u ∷ visited) (reverse (dependencies rows u) ++ stack) (ground arith) in
          elim (pushed u v stack m) [
            | inl dep ↦ (u, Memᴰ.head refl, Walk-first dep p)
            | inr old ↦ (v, Memᴰ.tail old, p)
          ]
    ]
  ]

  -- Where a node stands whose walks the search has taken on.
  abbrev Covered : List ℕ → List ℕ → ℕ → Type 0
  Covered visited stack x = Memᴰ x visited ⊎ Memᴰ x stack

  -- The visited nodes are not the goal, and their dependencies are visited or waiting.
  record IsClosed (visited stack : List ℕ) : Type 0 where
    missed : (v : ℕ) → Memᴰ v visited → v ≢ goal
    closed : (v w : ℕ) → Memᴰ v visited → Memᴰ w (dependencies rows v) → Covered visited stack w

  stays_visited :
      {visited : List ℕ} {x y : ℕ}
      → IsClosed visited []
      → Memᴰ x visited
      → Walk rows x y
      → Memᴰ y visited
  stays_visited c m here = m
  stays_visited c m (next {v = v} p e) = elim (c.closed v _ (stays_visited c m p) e) [
    | inl old ↦ old
    | inr nothing ↦ absurd (Memᴰ.not-nil nothing)
  ]

  -- A node that was visited before is only taken off the stack.
  cover_seen :
      (visited stack : List ℕ) (u : ℕ)
      → Memᴰ u visited
      → (x : ℕ) → Covered visited (u ∷ stack) x
      → Covered visited stack x
  cover_seen visited stack u seen x (inl m) = inl m
  cover_seen visited stack u seen x (inr (Memᴰ.head e)) = inl (Memᴰ.cast e seen)
  cover_seen visited stack u seen x (inr (Memᴰ.tail m)) = inr m

  cover_new :
      (visited stack : List ℕ) (u : ℕ)
      → (x : ℕ) → Covered visited (u ∷ stack) x
      → Covered (u ∷ visited) (reverse (dependencies rows u) ++ stack) x
  cover_new visited stack u x (inl m) = inl (Memᴰ.tail m)
  cover_new visited stack u x (inr (Memᴰ.head e)) = inl (Memᴰ.head e)
  cover_new visited stack u x (inr (Memᴰ.tail m)) =
      inr (Memᴰ.append_right (reverse (dependencies rows u)) m)

  IsClosed-new :
      (visited stack : List ℕ) (u : ℕ)
      → u ≢ goal
      → IsClosed visited (u ∷ stack)
      → IsClosed (u ∷ visited) (reverse (dependencies rows u) ++ stack)
  IsClosed-new visited stack u ne c = record { missed = missed; closed = closed }
    where
      missed : (v : ℕ) → Memᴰ v (u ∷ visited) → v ≢ goal
      missed v (Memᴰ.head e) = λ g. ne (sym e ∙ g)
      missed v (Memᴰ.tail m) = c.missed v m

      closed :
          (v w : ℕ)
          → Memᴰ v (u ∷ visited)
          → Memᴰ w (dependencies rows v)
          → Covered (u ∷ visited) (reverse (dependencies rows u) ++ stack) w
      closed v w (Memᴰ.head e) d = inr (
          Memᴰ.append_left stack (
            mem_reverse_aux w (dependencies rows u) []
              (inl (subst (λ z. Memᴰ w (dependencies rows z)) e d))))
      closed v w (Memᴰ.tail m) d = cover_new visited stack u w (c.closed v w m d)

  -- With `false` no walk leads from a node that was taken on to the goal.
  dfs_complete :
      (fuel : ℕ) (visited stack : List ℕ)
      → IsClosed visited stack
      → dfs rows goal fuel visited stack ≡ some false
      → (x : ℕ) → Covered visited stack x
      → ¬ Walk rows x goal
  unfolding dfs
  dfs_complete fuel visited [] c h x (inl m) p = c.missed goal (stays_visited c m p) refl
  dfs_complete fuel visited [] c h x (inr m) p = Memᴰ.not-nil m
  dfs_complete zero visited (u ∷ stack) c h x m p = absurd (ground arith)
  dfs_complete (suc fuel) visited (u ∷ stack) c h x m p = elim (Bool-cases (u == goal)) [
    | inl e ↦ absurd (ground arith)
    | inr e ↦ elim (Bool-cases (contains visited u)) [
      | inl seen ↦
          let cover = cover_seen visited stack u (mem_of_contains visited u seen) in
          dfs_complete fuel visited stack
            (record { missed = c.missed; closed = λ v w mv d. cover w (c.closed v w mv d) })
            (ground arith) x (cover x m) p
      | inr new ↦
          dfs_complete fuel (u ∷ visited) (reverse (dependencies rows u) ++ stack)
            (IsClosed-new visited stack u (ground arith) c) (ground arith) x
            (cover_new visited stack u x m) p
    ]
  ]

-- The search answers `true` exactly when some walk leads from the start to the goal.
pub has_cycle_correct :
    (rows : List (ℕ × ℕ)) (goal start : ℕ)
    → ((has_cycle rows goal start ≡ some true) × Walk rows start goal)
      ⊎ ((has_cycle rows goal start ≡ some false) × ¬ Walk rows start goal)
has_cycle_correct rows goal start = decide (has_cycle rows goal start) refl
  where
    none_visited : IsClosed rows goal [] (start ∷ [])
    none_visited = record {
      missed = λ v m. absurd (Memᴰ.not-nil m);
      closed = λ v w m d. absurd (Memᴰ.not-nil m);
    }

    decide :
        (r : Option Bool)
        → has_cycle rows goal start ≡ r
        → ((has_cycle rows goal start ≡ some true) × Walk rows start goal)
          ⊎ ((has_cycle rows goal start ≡ some false) × ¬ Walk rows start goal)
    decide none e = absurd (has_cycle_ends rows goal start e)
    decide (some true) e =
        let (u, m, p) =
          dfs_sound rows goal (suc (length rows)) [] (start ∷ []) (unfold has_cycle in e) in
        inl (e, subst (λ z. Walk rows z goal) (Memᴰ.eq_of_singleton m) p)
    decide (some false) e = inr (
      e,
      dfs_complete rows goal (suc (length rows)) [] (start ∷ []) none_visited
          (unfold has_cycle in e) start (inr (Memᴰ.head refl)),
    )
