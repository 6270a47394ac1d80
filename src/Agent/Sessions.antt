-- ===== src/Agent/Sessions.antt =====
-- The sessions of the worktrees: at most one is active, whatever the calls.
use cloglog.Base.{
  ℕ, String, ◌≡◌, refl, Bool, true, false, Option, none, some, List, [], ◌∷◌, arith, ◌==◌, leb,
  str_eq, count, select, update_where, delete_where,
}
use cloglog.Models.{World, Session, Value}
use cloglog.Action.{
  Action, Result, ok, err, ◌>>=◌, bind_result, unless_none, scalar_one_or_none, pure, raise,
  value_error, worktree_not_found,
}
use cloglog.Agent.Repository.{
  get_worktree, get_active_session, end_session, is_active, is_session, delete_worktree,
  set_worktree_offline,
}
use cloglog.Agent.Service.{end_active_session, unregister, publish_offline}

-- Every worktree has at most one active session.
abbrev pub HasOneActive : World → Type 0
HasOneActive w = (k : ℕ) → leb (count (is_active k) w.sessions) 1 ≡ true

-- No worktree has more active sessions than before.
abbrev pub Shrinks : World → World → Type 0
Shrinks w w' =
    (k : ℕ) → leb (count (is_active k) w'.sessions) (count (is_active k) w.sessions) ≡ true

pub Shrinks-self : (w : World) → Shrinks w w
Shrinks-self w k = ground arith

pub Shrinks-then : (a b c : World) → Shrinks a b → Shrinks b c → Shrinks a c
Shrinks-then a b c f g k = ground (arith, f k, g k)

pub Shrinks-HasOneActive : (w w' : World) → Shrinks w w' → HasOneActive w → HasOneActive w'
Shrinks-HasOneActive w w' f h k = ground (arith, f k, h k)

count-update_where_le :
    (q p : Session → Bool) (f : Session → Session) (rows : List Session)
    → ((x : Session) → q (f x) ≡ false)
    → leb (count q (update_where p f rows)) (count q rows) ≡ true
unfolding update_where
count-update_where_le q p f [] kills = refl
count-update_where_le q p f (x ∷ rows) kills =
    ground (arith, kills x, count-update_where_le q p f rows kills)

count-delete_where_le :
    (q p : Session → Bool) (rows : List Session)
    → leb (count q (delete_where p rows)) (count q rows) ≡ true
unfolding delete_where
count-delete_where_le q p [] = refl
count-delete_where_le q p (x ∷ rows) = ground (arith, count-delete_where_le q p rows)

pub end_session-Shrinks :
    (k : ℕ) (s : String) (w : World) → str_eq s "active" ≡ false → Shrinks w (end_session k s w).1
unfolding end_session
end_session-Shrinks k s w h u =
    count-update_where_le (is_active u) (is_session k)
      (λ r. record r { status = s; ended_at = some w.now }) w.sessions (λ x. ground arith)

-- An action that never adds an active session.
abbrev pub Shrinking : {A : Type 0} → Action A → Type 0
Shrinking m = (w : World) → Shrinks w (m w).1

module _ {A : Type 0} where
  bind-Shrinks :
      {B : Type 0} (w : World) (p : Result A × World) (k : A → Action B)
      → Shrinks w p.1
      → ((a : A) → Shrinking (k a))
      → Shrinks w (bind_result p k).1
  bind-Shrinks w (ok a, v) k first rest = Shrinks-then w v (k a v).1 first (rest a v)
  bind-Shrinks w (err e, v) k first rest = first

  pub then-Shrinking :
      {B : Type 0} (m : Action A) (k : A → Action B)
      → Shrinking m
      → ((a : A) → Shrinking (k a))
      → Shrinking (m >>= k)
  then-Shrinking m k first rest w = bind-Shrinks w (m w) k (first w) rest

  pub unless_none-Shrinking :
      {B : Type 0} (o : Option A) (early : Action B) (rest : A → Action B)
      → Shrinking early
      → ((a : A) → Shrinking (rest a))
      → Shrinking (unless_none o early rest)
  unless_none-Shrinking none early rest e r = e
  unless_none-Shrinking (some a) early rest e r = r a

  pub scalar_one_or_none-Shrinking : (rows : List A) → Shrinking (scalar_one_or_none rows)
  scalar_one_or_none-Shrinking [] = Shrinks-self
  scalar_one_or_none-Shrinking (a ∷ []) = Shrinks-self
  scalar_one_or_none-Shrinking (a ∷ b ∷ rows) = Shrinks-self

pub end_active_session-Shrinking :
    (k : ℕ) (s : String) → str_eq s "active" ≡ false → Shrinking (end_active_session k s)
unfolding end_active_session get_active_session
end_active_session-Shrinking k s h =
    then-Shrinking (get_active_session k) (λ o. unless_none o (pure tt) (λ r. end_session r.id s))
      (λ w. scalar_one_or_none-Shrinking (select (is_active k) w.sessions) w)
      (λ o.
        unless_none-Shrinking o (pure tt) (λ r. end_session r.id s) Shrinks-self
          (λ r w. end_session-Shrinks r.id s w h))

pub delete_worktree-Shrinking : (k : ℕ) → Shrinking (delete_worktree k)
unfolding delete_worktree
delete_worktree-Shrinking k w u =
    count-delete_where_le (is_active u) (λ s. s.worktree_id == k) w.sessions

pub set_worktree_offline-Shrinking : (k : ℕ) → Shrinking (set_worktree_offline k)
unfolding set_worktree_offline
set_worktree_offline-Shrinking k w = Shrinks-self w

pub publish_offline-Shrinking :
    (k : ℕ) (payload : List (String × Value)) → Shrinking (publish_offline k payload)
unfolding publish_offline
publish_offline-Shrinking k payload w = Shrinks-self w

pub unregister-Shrinking :
    (k : ℕ) (artifacts : Option (List (String × Option String)))
    → Shrinking (unregister k artifacts)
unfolding unregister
unregister-Shrinking k artifacts w =
    unless_none-Shrinking (get_worktree w k) (raise (value_error worktree_not_found)) _ Shrinks-self
      (λ v.
        then-Shrinking (end_active_session k "ended") _
          (end_active_session-Shrinking k "ended" refl)
          (λ _.
            then-Shrinking (publish_offline v.project_id _) _
              (publish_offline-Shrinking v.project_id _) (λ _. delete_worktree-Shrinking k)))
      w
