-- ===== src/Agent/Leave.antt =====
-- Leaving (`unregister` and `force_unregister` of src/agent/services.py).
use cloglog.Base.{
  ℕ, String, ◌≡◌, refl, ap, ◌⊎◌, inl, inr, Bool, true, false, Option, none, some, List, [], ◌∷◌,
  arith, ◌==◌, leb, count, all, not, delete_where, find-delete_where, Option-cases, Bool-cases,
}
use cloglog.Models.{World, Worktree, Session, Value, uuid, str}
use cloglog.Action.{ok, err, permission_error}
use cloglog.Agent.Repository.{get_worktree, delete_worktree, is_active, is_worktree}
use cloglog.Agent.Service.{
  force_unregister, publish_offline, end_active_session, is_foreign, caller_name,
}
use cloglog.Agent.Renewal.{end_active_session-ends}

-- The worktree is gone, and so are its sessions.
abbrev pub IsGone : ℕ → World → Type 0
IsGone k w = (get_worktree w k ≡ none) × (all (λ s. not (s.worktree_id == k)) w.sessions ≡ true)

all-delete_where :
    (p : Session → Bool) (rows : List Session) → all (λ s. not (p s)) (delete_where p rows) ≡ true
unfolding delete_where
all-delete_where p [] = refl
all-delete_where p (x ∷ rows) = ground (arith, all-delete_where p rows)

delete_worktree-IsGone :
    (k : ℕ) (w : World) → let (r, w') = delete_worktree k w in (r ≡ ok tt) × IsGone k w'
unfolding delete_worktree get_worktree
delete_worktree-IsGone k w = (
  refl,
  (
    find-delete_where (is_worktree k) w.worktrees,
    all-delete_where (λ s. s.worktree_id == k) w.sessions,
  ),
)

-- The data that a forced exit publishes.
abbrev forced_payload : ℕ → Option ℕ → Worktree → List (String × Value)
forced_payload k caller v =
    ("worktree_id", uuid k)
    ∷ ("worktree_path", str v.worktree_path)
    ∷ ("reason", str "force_unregistered")
    ∷ ("caller_project_id", caller_name caller)
    ∷ []

abbrev before_removal : ℕ → Option ℕ → Worktree → World → World
before_removal k caller v w =
    (publish_offline v.project_id (forced_payload k caller v)
      (end_active_session k "force_unregistered" w).1).1

force_unregister-removes :
    (k : ℕ) (caller : Option ℕ) (w : World) (v : Worktree)
    → get_worktree w k ≡ some v
    → is_foreign caller v ≡ false
    → end_active_session k "force_unregistered" w
      ≡ (ok tt, (end_active_session k "force_unregistered" w).1)
    → force_unregister k caller w ≡ (ok false, (delete_worktree k (before_removal k caller v w)).1)
unfolding force_unregister publish_offline delete_worktree
force_unregister-removes k caller w v e own h = rw (e, own, h) refl

force_unregister-gone :
    (k : ℕ) (caller : Option ℕ) (w : World)
    → get_worktree w k ≡ none
    → force_unregister k caller w ≡ (ok true, w)
unfolding force_unregister
force_unregister-gone k caller w e = rw e refl

force_unregister-refuses :
    (k : ℕ) (caller : Option ℕ) (w : World) (v : Worktree)
    → get_worktree w k ≡ some v
    → is_foreign caller v ≡ true
    → force_unregister k caller w ≡ (err permission_error, w)
unfolding force_unregister
force_unregister-refuses k caller w v e foreign = rw (e, foreign) refl

-- A forced exit, where the worktree has at most one active session. Of an unknown worktree it answers that it was gone. A caller of another project is
-- refused. In both cases nothing changes. Else the worktree and its sessions are gone, and to
-- force it out again changes nothing.
pub force_unregister_lem :
    (k : ℕ) (caller : Option ℕ) (w : World)
    → leb (count (is_active k) w.sessions) 1 ≡ true
    → ((get_worktree w k ≡ none) × (force_unregister k caller w ≡ (ok true, w)))
      ⊎ ((v : Worktree) × (get_worktree w k ≡ some v)
          × (((is_foreign caller v ≡ true)
                × (force_unregister k caller w ≡ (err permission_error, w)))
              ⊎ ((is_foreign caller v ≡ false)
                  × (let (r, w') = force_unregister k caller w in
                      (r ≡ ok false)
                      × IsGone k w'
                      × (force_unregister k caller w' ≡ (ok true, w'))))))
force_unregister_lem k caller w h = elim (Option-cases (get_worktree w k)) [
  | inl e ↦ inl (e, force_unregister-gone k caller w e)
  | inr (v, e) ↦ elim (Bool-cases (is_foreign caller v)) [
    | inl foreign ↦ inr (v, e, inl (foreign, force_unregister-refuses k caller w v e foreign))
    | inr own ↦
        let ends : (end_active_session k "force_unregistered" w).0 ≡ ok tt =
          (end_active_session-ends "force_unregistered" refl k w h).0 in
        let runs =
          force_unregister-removes k caller w v e own
            (ap (λ r. (r, (end_active_session k "force_unregistered" w).1)) ends) in
        let (_, (gone, sessions)) = delete_worktree-IsGone k (before_removal k caller v w) in
        inr (
          v,
          e,
          inr (
            own,
            (
              rw runs refl,
              rw runs (gone, sessions),
              rw runs (force_unregister-gone k caller _ gone),
            ),
          ),
        )
  ]
]
