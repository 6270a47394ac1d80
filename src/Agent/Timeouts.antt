-- ===== src/Agent/Timeouts.antt =====
-- The sessions whose heartbeat stopped (`check_heartbeat_timeouts` of src/agent/services.py).
use cloglog.Base.{
  ℕ, ◌-◌, String, ◌≡◌, refl, Bool, true, false, ◌&&◌, List, [], ◌∷◌, some, arith, ==_self, ltb,
  str_eq, all, contains, select, update_where,
}
use cloglog.Models.{World, Session}
use cloglog.Action.{ok}
use cloglog.Agent.Repository.{is_session, end_session, get_timed_out_sessions, set_worktree_offline}
use cloglog.Agent.Service.{time_out_session, time_out, check_heartbeat_timeouts, publish_offline}

abbrev ids : List Session → List ℕ
ids [] = []
ids (s ∷ ss) = s.id ∷ ids ss

abbrev pub worktrees_of : List Session → List ℕ
worktrees_of [] = []
worktrees_of (s ∷ ss) = s.worktree_id ∷ worktrees_of ss

abbrev ended : String → ℕ → Session → Session
ended status now s = record s { status = status; ended_at = some now }

-- The selected rows all have ids of the list.
abbrev Within : List ℕ → (Session → Bool) → List Session → Type 0
Within ks q rows = all (λ r. contains ks r.id) (select q rows) ≡ true

Within-ended :
    (k : ℕ) (ks : List ℕ) (q : Session → Bool) (f : Session → Session) (rows : List Session)
    → ((x : Session) → q (f x) ≡ false)
    → Within (k ∷ ks) q rows
    → Within ks q (update_where (is_session k) f rows)
unfolding update_where
Within-ended k ks q f [] kills h = refl
Within-ended k ks q f (x ∷ rows) kills h = ground (arith, kills x, Within-ended k ks q f rows kills)

Within-none : (q : Session → Bool) (rows : List Session) → Within [] q rows → select q rows ≡ []
Within-none q [] h = refl
Within-none q (x ∷ rows) h = ground (arith, Within-none q rows)

all-contains-cons :
    (k : ℕ) (ks : List ℕ) (ss : List Session)
    → all (λ r. contains ks r.id) ss ≡ true
    → all (λ r. contains (k ∷ ks) r.id) ss ≡ true
all-contains-cons k ks [] h = refl
all-contains-cons k ks (s ∷ ss) h = ground (arith, all-contains-cons k ks ss)

contains-ids : (ss : List Session) → all (λ r. contains (ids ss) r.id) ss ≡ true
contains-ids [] = refl
contains-ids (s ∷ ss) =
    ground (arith, ==_self s.id, all-contains-cons s.id (ids ss) ss (contains-ids ss))

time_out_session-ends :
    (s : Session) (w : World)
    → let (r, w') = time_out_session s w in
      (r ≡ ok tt)
      × (w'.sessions ≡ update_where (is_session s.id) (ended "timed_out" w.now) w.sessions)
unfolding time_out_session end_session set_worktree_offline publish_offline
time_out_session-ends s w = (ground arith, ground arith)

-- After the loop no row is selected any more, if the rows that were selected are in the list.
time_out-ends :
    (q : Session → Bool) (ss : List Session) (w : World)
    → ((now : ℕ) (x : Session) → q (ended "timed_out" now x) ≡ false)
    → Within (ids ss) q w.sessions
    → let (r, w') = time_out ss w in (r ≡ ok (worktrees_of ss)) × (select q w'.sessions ≡ [])
unfolding time_out
time_out-ends q [] w kills h = (refl, Within-none q w.sessions h)
time_out-ends q (s ∷ ss) w kills h =
    let (returns, rows) = time_out_session-ends s w in
    let u : World = (time_out_session s w).1 in
    let left = Within-ended s.id (ids ss) q (ended "timed_out" w.now) w.sessions (kills w.now) h in
    let (rest, none_left) = time_out-ends q ss u kills (rw rows left) in ground arith

-- The sweep answers the worktrees of the sessions that timed out, in the order of the query, and
-- afterwards no active session is older than the cutoff.
pub check_heartbeat_timeouts_lem :
    (timeout : ℕ) (w : World)
    → let cutoff = w.now - timeout in
      let (r, w') = check_heartbeat_timeouts timeout w in
      (r ≡ ok (worktrees_of (get_timed_out_sessions w cutoff)))
      × (get_timed_out_sessions w' cutoff ≡ [])
unfolding check_heartbeat_timeouts get_timed_out_sessions
check_heartbeat_timeouts_lem timeout w =
    let q : Session → Bool =
      λ s. str_eq s.status "active" && ltb s.last_heartbeat (w.now - timeout) in
    time_out-ends q (select q w.sessions) w (λ now x. refl) (contains-ids (select q w.sessions))
