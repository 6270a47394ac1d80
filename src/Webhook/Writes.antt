-- ===== src/Webhook/Writes.antt =====
-- What a webhook event writes: to the board, and at most one line to an inbox
-- (src/gateway/webhook_consumers.py).
use cloglog.Base.{
  ℕ, String, ◌≡◌, refl, ◌∙◌, subst, ◌⊎◌, inl, inr, Bool, true, false, Option, none, some, List, [],
  ◌∷◌, ◌++◌, arith, truthy, Option-cases, Bool-cases, ◌&&◌,
}
use cloglog.Models.{World, Project, Task, Json}
use cloglog.Action.{Action, pure, Result, ok, err, unless_none, bind_result, when, ◌>>=◌}
use cloglog.Board.Repository.{update_task, get_task, find_projects_by_repo}
use cloglog.Agent.Service.{append_to_inbox}
use cloglog.Webhook.Dispatcher.{WebhookEvent}
use cloglog.Webhook.Consumers.{
  ResolvedRecipient, mark_merged, set_head_sha, set_head_shas, update_pr_head_sha, write_board,
  send, head_sha_of, is_merge, carries_head,
}

-- What writes to the board returns and writes no inbox.
abbrev pub KeepsInboxes : Action (Unit {0}) → Type 0
KeepsInboxes m = (w : World) → ((m w).0 ≡ ok tt) × ((m w).1.inboxes ≡ w.inboxes)

update-keeps : (k : ℕ) (f : Task → Task) → KeepsInboxes (update_task k f >>= λ updated. pure tt)
unfolding update_task
update-keeps k f w = elim (Option-cases (get_task w k)) [
  | inl e ↦ rw e (refl, refl)
  | inr (t, e) ↦ rw e (refl, refl)
]

unless_none-keeps :
    (task : Option Task) (f : Task → Task)
    → KeepsInboxes (unless_none task (pure tt) (λ t. update_task t.id f >>= λ updated. pure tt))
unless_none-keeps none f w = (refl, refl)
unless_none-keeps (some t) f w = update-keeps t.id f w

mark_merged-keeps : (pr_url : String) → KeepsInboxes (mark_merged pr_url)
unfolding mark_merged
mark_merged-keeps pr_url w = unless_none-keeps _ _ w

set_head_sha-keeps : (pr_url sha : String) (k : ℕ) → KeepsInboxes (set_head_sha pr_url sha k)
unfolding set_head_sha
set_head_sha-keeps pr_url sha k w = unless_none-keeps _ _ w

bind_result-keeps :
    (w : World) (x : Result (Unit {0}) × World) (k : Action (Unit {0}))
    → KeepsInboxes k
    → (x.0 ≡ ok tt) × (x.1.inboxes ≡ w.inboxes)
    → ((bind_result x (λ _. k)).0 ≡ ok tt) × ((bind_result x (λ _. k)).1.inboxes ≡ w.inboxes)
bind_result-keeps w (ok a, u) k keeps (done, same) =
    let (done', same') = keeps u in (done', same' ∙ same)
bind_result-keeps w (err z, u) k keeps (done, same) = absurd (ground arith)

set_head_shas-keeps :
    (pr_url sha : String) (ps : List Project) → KeepsInboxes (set_head_shas pr_url sha ps)
unfolding set_head_shas
set_head_shas-keeps pr_url sha [] w = (refl, refl)
set_head_shas-keeps pr_url sha (p ∷ ps) w =
    bind_result-keeps w (set_head_sha pr_url sha p.id w) (set_head_shas pr_url sha ps)
      (set_head_shas-keeps pr_url sha ps) (set_head_sha-keeps pr_url sha p.id w)

update_pr_head_sha-keeps :
    (pr_url sha repo : String) → KeepsInboxes (update_pr_head_sha pr_url sha repo)
unfolding update_pr_head_sha
update_pr_head_sha-keeps pr_url sha repo w =
    set_head_shas-keeps pr_url sha (find_projects_by_repo w repo) w

when-keeps : (c : Bool) (m : Action (Unit {0})) → KeepsInboxes m → KeepsInboxes (when c m)
when-keeps true m keeps w = keeps w
when-keeps false m keeps w = (refl, refl)

pub write_board-keeps : (e : WebhookEvent) → KeepsInboxes (write_board e)
unfolding write_board
write_board-keeps e w =
    bind_result-keeps w (when (is_merge e.type) (mark_merged e.pr_url) w)
      (when (carries_head e.type && truthy (head_sha_of e))
        (update_pr_head_sha e.pr_url (head_sha_of e) e.repo_full_name))
      (when-keeps (carries_head e.type && truthy (head_sha_of e))
        (update_pr_head_sha e.pr_url (head_sha_of e) e.repo_full_name)
        (update_pr_head_sha-keeps e.pr_url (head_sha_of e) e.repo_full_name))
      (when-keeps (is_merge e.type) (mark_merged e.pr_url) (mark_merged-keeps e.pr_url) w)

-- At most one line is written: the message of the event, to a recipient of which `P` holds.
abbrev pub WritesOne :
    (Json → String)
    → Option Json
    → (ResolvedRecipient → Type 0)
    → List (String × String)
    → List (String × String)
    → Type 0
WritesOne dumps message P before after =
    (after ≡ before)
    ⊎ ((r : ResolvedRecipient) × (m : Json) × P r
        × (message ≡ some m)
        × (after ≡ before ++ (r.inbox_path, dumps m) ∷ []))

append_to_inbox-writes :
    (path line : String) (w : World)
    → ((append_to_inbox path line w).1.inboxes ≡ w.inboxes)
      ⊎ ((append_to_inbox path line w).1.inboxes ≡ w.inboxes ++ (path, line) ∷ [])
unfolding append_to_inbox
append_to_inbox-writes path line w = elim (Bool-cases (w.writable path)) [
  | inl h ↦ rw h (inr refl)
  | inr h ↦ rw h (inl refl)
]

send-WritesOne :
    (dumps : Json → String) (message : Option Json) (r : ResolvedRecipient)
    (P : ResolvedRecipient → Type 0) (w : World)
    → P r
    → WritesOne dumps message P w.inboxes (send dumps message r w).1.inboxes
send-WritesOne dumps none r P w rightful = inl refl
send-WritesOne dumps (some m) r P w rightful =
    elim (append_to_inbox-writes r.inbox_path (dumps m) w) [
      | inl same ↦ inl same
      | inr more ↦ inr (r, m, rightful, refl, more)
    ]

tell-WritesOne :
    (dumps : Json → String) (message : Option Json) (recipient : Option ResolvedRecipient)
    (P : ResolvedRecipient → Type 0) (w : World)
    → ((r : ResolvedRecipient) → recipient ≡ some r → P r)
    → WritesOne dumps message P w.inboxes
        (unless_none recipient (pure tt) (λ r. send dumps message r) w).1.inboxes
tell-WritesOne dumps message none P w rightful = inl refl
tell-WritesOne dumps message (some r) P w rightful =
    send-WritesOne dumps message r P w (rightful r refl)

-- What is told after the board was written, without a line in between.
pub after_board :
    (dumps : Json → String) (message : Option Json) (recipient : Option ResolvedRecipient)
    (P : ResolvedRecipient → Type 0) (before : List (String × String))
    (x : Result (Unit {0}) × World)
    → x.1.inboxes ≡ before
    → ((r : ResolvedRecipient) → recipient ≡ some r → P r)
    → WritesOne dumps message P before
        (bind_result x (λ _. unless_none recipient (pure tt) (λ r. send dumps message r))).1.inboxes
after_board dumps message recipient P before (err z, u) same rightful = inl same
after_board dumps message recipient P before (ok a, u) same rightful =
    subst
      (λ b.
        WritesOne dumps message P b
          (unless_none recipient (pure tt) (λ r. send dumps message r) u).1.inboxes)
      same (tell-WritesOne dumps message recipient P u rightful)
