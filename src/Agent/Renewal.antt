-- ===== src/Agent/Renewal.antt =====
-- Ending the session of a worktree and opening a new one (src/agent/services.py).
use cloglog.Base.{
  none_or_one, count-select, ℕ, ◌+◌, String, ◌≡◌, refl, ◌∙◌, inl, inr, Bool, true, false, some,
  List, [], ◌∷◌, ◌++◌, arith, ◌==◌, ==_self, leb, str_eq, count, select, select-update_where_none,
}
use cloglog.Models.{World, Session}
use cloglog.Action.{ok}
use cloglog.Agent.Repository.{
  get_active_session, end_session, create_session, is_active, is_session,
}
use cloglog.Agent.Service.{end_active_session}
use cloglog.Agent.Sessions.{HasOneActive, end_active_session-Shrinking}

module _ (status : String) (closes : str_eq status "active" ≡ false) where
  end_active_session-none :
      (k : ℕ) (w : World)
      → select (is_active k) w.sessions ≡ []
      → end_active_session k status w ≡ (ok tt, w)
  unfolding end_active_session get_active_session
  end_active_session-none k w e = rw e refl

  end_active_session-one :
      (k : ℕ) (w : World) (s : Session)
      → select (is_active k) w.sessions ≡ s ∷ []
      → end_active_session k status w ≡ end_session s.id status w
  unfolding end_active_session get_active_session
  end_active_session-one k w s e = rw e refl

  end_session-select :
      (k : ℕ) (w : World) (s : Session)
      → select (is_active k) w.sessions ≡ s ∷ []
      → select (is_active k) ((end_session s.id status w).1).sessions ≡ []
  unfolding end_session
  end_session-select k w s e =
      select-update_where_none (is_active k) (is_session s.id)
        (λ r. record r { status = status; ended_at = some w.now }) w.sessions
        (λ x h. ground (arith, closes)) (rw e ground (arith, ==_self s.id))

  -- The session that was active is ended.
  pub end_active_session-ends :
      (k : ℕ) (w : World)
      → leb (count (is_active k) w.sessions) 1 ≡ true
      → let (r, w') = end_active_session k status w in
        (r ≡ ok tt) × (count (is_active k) w'.sessions ≡ 0)
  unfolding end_session
  end_active_session-ends k w h = elim (none_or_one (is_active k) w.sessions h) [
    | inl e ↦
        let runs = end_active_session-none k w e in
        (rw runs refl, rw (runs, count-select (is_active k) w.sessions, e) refl)
    | inr (s, e) ↦
        let runs = end_active_session-one k w s e in
        (
          rw runs refl,
          rw runs (count-select (is_active k) _ ∙ rw (end_session-select k w s e) refl),
        )
  ]

count-append_last :
    (q : Session → Bool) (rows : List Session) (r : Session)
    → count q (rows ++ r ∷ []) ≡ count q rows + count q (r ∷ [])
count-append_last q [] r = omega arith
count-append_last q (x ∷ rows) r = omega (arith, count-append_last q rows r)

create_session-sessions :
    (k : ℕ) (w : World)
    → let (r, w') = create_session k w in
      (s : Session) × (r ≡ ok s)
      × (w'.sessions ≡ w.sessions ++ s ∷ [])
      × ((j : ℕ) → is_active j s ≡ (k == j))
unfolding create_session
create_session-sessions k w = (_, refl, refl, λ j. ground arith)

-- Ending what is active and opening a session leaves exactly one.
pub renew-sessions :
    (k : ℕ) (w : World)
    → HasOneActive w
    → let w₁ = (end_active_session k "ended" w).1 in
      let w₂ = (create_session k w₁).1 in HasOneActive w₂ × (count (is_active k) w₂.sessions ≡ 1)
renew-sessions k w h =
    let w₁ : World = (end_active_session k "ended" w).1 in
    let (returns, ended) = end_active_session-ends "ended" refl k w (h k) in
    let (s, made, rows, same) = create_session-sessions k w₁ in
    (
      λ j.
          rw (rows, count-append_last (is_active j) w₁.sessions s) ground
            (
              arith,
              h j,
              ended,
              end_active_session-Shrinking k "ended" refl w j,
              same j,
              active-same k j w₁,
            ),
      rw (rows, count-append_last (is_active k) w₁.sessions s) ground
          (arith, ended, same k, ==_self k),
    )
  where
    active-same :
        (k j : ℕ) (w : World)
        → (k == j) ≡ true
        → count (is_active k) w.sessions ≡ count (is_active j) w.sessions
    active-same k j w e = rw (k≡j k j e) refl
      where
        k≡j : (k j : ℕ) → (k == j) ≡ true → k ≡ j
        k≡j k j e = ground arith
