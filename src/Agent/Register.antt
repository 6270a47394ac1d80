-- ===== src/Agent/Register.antt =====
-- Registration (`register` of src/agent/services.py).
use cloglog.Base.{
  none_or_one, ℕ, suc, String, ◌≡◌, refl, ◌⊎◌, inl, inr, Bool, true, false, not, Option, none, some,
  List, [], ◌∷◌, ◌++◌, arith, leb, count, select, List-cases,
}
use cloglog.Models.{World, Worktree}
use cloglog.Action.{Result, ok, err, multiple_results_found}
use cloglog.Agent.Repository.{
  new_worktree, upsert_worktree, set_agent_token_hash, create_session, is_active, is_at, reconnect,
  set_worktree,
}
use cloglog.Agent.Service.{register, Registration, end_active_session, derive_worktree_role}
use cloglog.Agent.Sessions.{HasOneActive}
use cloglog.Agent.Renewal.{end_active_session-ends, renew-sessions}

upsert_worktree-known :
    (p : ℕ) (path b role : String) (w : World) (v : Worktree)
    → select (is_at p path) w.worktrees ≡ v ∷ []
    → upsert_worktree p path b role w
      ≡ (ok (reconnect b role v, false), set_worktree v.id (reconnect b role) w)
unfolding upsert_worktree
upsert_worktree-known p path b role w v e = rw e refl

-- The row that a registration of an unknown path makes, and the world that it leaves.
abbrev made : ℕ → String → String → String → World → Worktree
made p path b role w = new_worktree (w.uuids 0) w.now p path b role

abbrev with_made : ℕ → String → String → String → World → World
with_made p path b role w = record w {
  worktrees = w.worktrees ++ made p path b role w ∷ [];
  uuids = λ n. w.uuids (suc n);
}

upsert_worktree-new :
    (p : ℕ) (path b role : String) (w : World)
    → select (is_at p path) w.worktrees ≡ []
    → upsert_worktree p path b role w ≡ (ok (made p path b role w, true), with_made p path b role w)
unfolding upsert_worktree
upsert_worktree-new p path b role w e = rw e refl

-- The world in which a registration ends the sessions that are open.
abbrev with_token : (ℕ → String) → Worktree → World → World
with_token token_hash v w =
    let u : World = record w { uuids = λ n. w.uuids (suc n) } in
    (set_agent_token_hash v.id (token_hash (w.uuids 0)) u).1

-- The worktree that a registration answers, and whether it was there before.
abbrev pub answer : Result Registration → Option (ℕ × Bool)
answer (ok a) = some (a.worktree_id, a.resumed)
answer (err e) = none

-- What a registration does once the row of its worktree is known.
register-rest :
    (token_hash : ℕ → String) (p : ℕ) (path b : String) (w : World) (v : Worktree) (new : Bool)
    (u : World)
    → upsert_worktree p path b (derive_worktree_role path) w ≡ (ok (v, new), u)
    → (end_active_session v.id "ended" (with_token token_hash v u)).0 ≡ ok tt
    → let (r, w') = register token_hash p path b w in
      (answer r ≡ some (v.id, not new))
      × (w'.sessions
          ≡ (create_session v.id
              (end_active_session v.id "ended" (with_token token_hash v u)).1).1.sessions)
unfolding register create_session set_agent_token_hash
register-rest token_hash p path b w v new u e h = (rw e ground arith, rw e ground arith)

with_token-HasOneActive :
    (token_hash : ℕ → String) (v : Worktree) (w : World)
    → HasOneActive w
    → HasOneActive (with_token token_hash v w)
unfolding set_agent_token_hash
with_token-HasOneActive token_hash v w h = h

register-from :
    (token_hash : ℕ → String) (p : ℕ) (path b : String) (w : World) (v : Worktree) (new : Bool)
    (u : World)
    → upsert_worktree p path b (derive_worktree_role path) w ≡ (ok (v, new), u)
    → HasOneActive u
    → let (r, w') = register token_hash p path b w in
      (answer r ≡ some (v.id, not new)) × HasOneActive w' × (count (is_active v.id) w'.sessions ≡ 1)
register-from token_hash p path b w v new u e h =
    let fresh : World = with_token token_hash v u in
    let one = with_token-HasOneActive token_hash v u h in
    let (returns, rows) =
      register-rest token_hash p path b w v new u e
        (end_active_session-ends "ended" refl v.id fresh (one v.id)).0 in
    let (others, own) = renew-sessions v.id fresh one in
    (returns, λ j. rw rows (others j), rw rows own)

-- Where no worktree has more than one active session and at most one row has the path, a registration
-- succeeds. It answers the row of the path if there is one, as resumed, and else a new row. Then the
-- worktree has exactly one active session, and no worktree has more than one.
pub register_lem :
    (token_hash : ℕ → String) (p : ℕ) (path b : String) (w : World)
    → HasOneActive w
    → leb (count (is_at p path) w.worktrees) 1 ≡ true
    → let (r, w') = register token_hash p path b w in
      (k : ℕ) × (resumed : Bool) × (answer r ≡ some (k, resumed))
      × HasOneActive w'
      × (count (is_active k) w'.sessions ≡ 1)
      × (((v : Worktree) × (select (is_at p path) w.worktrees ≡ v ∷ [])
            × (k ≡ v.id)
            × (resumed ≡ true))
          ⊎ ((select (is_at p path) w.worktrees ≡ []) × (k ≡ w.uuids 0) × (resumed ≡ false)))
register_lem token_hash p path b w h rows =
    let role = derive_worktree_role path in
    elim (none_or_one (is_at p path) w.worktrees rows) [
      | inl e ↦
          let v : Worktree = made p path b role w in
          let (returns, others, own) =
            register-from token_hash p path b w v true (with_made p path b role w)
              (upsert_worktree-new p path b role w e) h in
          (v.id, false, returns, others, own, inr (e, refl, refl))
      | inr (v, e) ↦
          let (returns, others, own) =
            register-from token_hash p path b w (reconnect b role v) false
              (set_worktree v.id (reconnect b role) w) (upsert_worktree-known p path b role w v e)
              h in
          (v.id, true, returns, others, own, inl (v, e, refl, refl))
    ]

upsert_worktree-many :
    (p : ℕ) (path b role : String) (w : World) (v u : Worktree) (rest : List Worktree)
    → select (is_at p path) w.worktrees ≡ v ∷ u ∷ rest
    → upsert_worktree p path b role w ≡ (err multiple_results_found, w)
unfolding upsert_worktree
upsert_worktree-many p path b role w v u rest e = rw e refl

register-raises :
    (token_hash : ℕ → String) (p : ℕ) (path b : String) (w : World)
    → upsert_worktree p path b (derive_worktree_role path) w ≡ (err multiple_results_found, w)
    → (register token_hash p path b w).1 ≡ w
unfolding register
register-raises token_hash p path b w e = rw e refl

pub register-HasOneActive :
    (token_hash : ℕ → String) (p : ℕ) (path b : String) (w : World)
    → HasOneActive w
    → HasOneActive (register token_hash p path b w).1
register-HasOneActive token_hash p path b w h =
    let role = derive_worktree_role path in
    elim (List-cases (select (is_at p path) w.worktrees)) [
      | inl e ↦
          (register-from token_hash p path b w (made p path b role w) true
            (with_made p path b role w) (upsert_worktree-new p path b role w e) h).1
      | inr (v, rest, e) ↦ elim (List-cases rest) [
        | inl none_left ↦
            (register-from token_hash p path b w (reconnect b role v) false
              (set_worktree v.id (reconnect b role) w)
              (upsert_worktree-known p path b role w v (rw none_left at e)) h).1
        | inr (u, more, e') ↦
            let stops =
              register-raises token_hash p path b w
                (upsert_worktree-many p path b role w v u more (rw e' at e)) in
            λ k. rw stops (h k)
      ]
    ]
