-- ===== src/Webhook/Routing.antt =====
-- Who is told of a webhook event, and what is written (src/gateway/webhook_consumers.py).
use cloglog.Base.{
  sql_endswith, find-eq-some, ℕ, String, ◌≡◌, refl, sym, ◌∙◌, ap, ◌⊎◌, inl, inr, true, Option, none,
  some, List, [], ◌∷◌, arith, truthy, select, Bool-cases, str_eq, ◌==◌, ◌&&◌, if◌then◌else◌,
}
use cloglog.Models.{World, Worktree, Project, Json}
use cloglog.Action.{pure, gets, Result, ok, err, unless_none, bind_result, scalar_one_or_none, ◌>>◌}
use cloglog.Board.Repository.{find_project_by_repo}
use cloglog.Agent.Repository.{get_worktree_by_branch}
use cloglog.Webhook.Dispatcher.{WebhookEvent}
use cloglog.Webhook.Messages.{build_message}
use cloglog.Webhook.Consumers.{
  ResolvedRecipient, inbox_of, is_main_agent_event, owning_worktree, main_recipient,
  resolve_in_project, resolve_agent, write_board, send, handle,
}
use cloglog.Webhook.Writes.{WritesOne, write_board-keeps, after_board}

scalar_one_or_none-reads :
    {A : Type 0} (rows : List A) (w : World) → (scalar_one_or_none rows w).1 ≡ w
scalar_one_or_none-reads [] w = refl
scalar_one_or_none-reads (a ∷ []) w = refl
scalar_one_or_none-reads (a ∷ b ∷ rows) w = refl

get_worktree_by_branch-reads :
    (k : ℕ) (branch : String) (w : World) → (get_worktree_by_branch k branch w).1 ≡ w
unfolding get_worktree_by_branch
get_worktree_by_branch-reads k branch w = elim (Bool-cases (truthy branch)) [
  | inl h ↦ rw h (
      scalar_one_or_none-reads
        (select (λ v. v.project_id == k && str_eq v.branch_name branch && str_eq v.status "online")
          w.worktrees)
        w)
  | inr h ↦ rw h refl
]

module _ (main_inbox : Option String) where
  -- Who may be told of an event: the worktree of the live task with the pull request; or, in the
  -- project that the lookup answers, whose url ends with the repository's name, the online worktree of the branch, or for an event of the main agent
  -- its inbox.
  abbrev pub IsInProject : WebhookEvent → World → ResolvedRecipient → Type 0
  IsInProject e w r =
      (p : Project) × (find_project_by_repo w e.repo_full_name ≡ some p)
      × (sql_endswith p.repo_url e.repo_full_name ≡ true)
      × (((v : Worktree) × ((get_worktree_by_branch p.id e.head_branch w).0 ≡ ok (some v))
            × (r ≡ inbox_of v))
          ⊎ ((is_main_agent_event e.type ≡ true) × (main_recipient main_inbox w p.id ≡ some r)))

  abbrev pub IsRecipient : WebhookEvent → World → ResolvedRecipient → Type 0
  IsRecipient e w r =
      ((v : Worktree) × (owning_worktree w e.pr_url ≡ some v) × (r ≡ inbox_of v))
      ⊎ ((owning_worktree w e.pr_url ≡ none) × IsInProject e w r)

  -- A resolution only reads, and answers a recipient of which `P` holds.
  abbrev Resolves :
      World → (ResolvedRecipient → Type 0) → Result (Option ResolvedRecipient) × World → Type 0
  Resolves w P x = (x.1 ≡ w) × ((r : ResolvedRecipient) → x.0 ≡ ok (some r) → P r)

  found-suffix :
      (e : WebhookEvent) (w : World) (p : Project)
      → find_project_by_repo w e.repo_full_name ≡ some p
      → sql_endswith p.repo_url e.repo_full_name ≡ true
  unfolding find_project_by_repo
  found-suffix e w p found =
      find-eq-some (λ q. sql_endswith q.repo_url e.repo_full_name) w.projects found

  by_branch-Resolves :
      (e : WebhookEvent) (p : Project) (w : World) (x : Result (Option Worktree) × World)
      → get_worktree_by_branch p.id e.head_branch w ≡ x
      → find_project_by_repo w e.repo_full_name ≡ some p
      → Resolves w (IsInProject e w) (
          bind_result x (λ by_branch.
            unless_none by_branch
              (if is_main_agent_event e.type
                then gets (λ u. main_recipient main_inbox u p.id)
                else pure none)
              (λ v. pure (some (inbox_of v)))))
  by_branch-Resolves e p w (err z, u) h found =
      let same : u ≡ w =
        ap (λ x. x.1) (sym h) ∙ get_worktree_by_branch-reads p.id e.head_branch w in
      (same, λ r k. absurd (ground arith))
  by_branch-Resolves e p w (ok (some v), u) h found =
      let suffix = found-suffix e w p found in
      let same : u ≡ w =
        ap (λ x. x.1) (sym h) ∙ get_worktree_by_branch-reads p.id e.head_branch w in
      (same, λ r k. (p, found, suffix, inl (v, ap (λ x. x.0) h, ground arith)))
  by_branch-Resolves e p w (ok none, u) h found =
      let suffix = found-suffix e w p found in
      let same : u ≡ w =
        ap (λ x. x.1) (sym h) ∙ get_worktree_by_branch-reads p.id e.head_branch w in
      elim (Bool-cases (is_main_agent_event e.type)) [
        | inl main ↦ rw main (
          same,
          λ r k. (
            p,
            found,
            suffix,
            inr (refl, ap (λ x. main_recipient main_inbox x p.id) (sym same) ∙ ground arith),
          ),
        )
        | inr other ↦ rw other (same, λ r k. absurd (ground arith))
      ]

  resolve_in_project-Resolves :
      (e : WebhookEvent) (p : Project) (w : World)
      → find_project_by_repo w e.repo_full_name ≡ some p
      → Resolves w (IsInProject e w) (resolve_in_project main_inbox e p.id w)
  unfolding resolve_in_project
  resolve_in_project-Resolves e p w found = by_branch-Resolves e p w _ refl found

  of_project :
      (e : WebhookEvent) (w : World) (project : Option Project)
      → find_project_by_repo w e.repo_full_name ≡ project
      → Resolves w
          (IsInProject e w)
          (unless_none project (pure none) (λ p. resolve_in_project main_inbox e p.id) w)
  of_project e w none found = (refl, λ r k. absurd (ground arith))
  of_project e w (some p) found = resolve_in_project-Resolves e p w found

  of_owner :
      (e : WebhookEvent) (w : World) (owner : Option Worktree)
      → owning_worktree w e.pr_url ≡ owner
      → Resolves w (IsRecipient e w) (
          unless_none owner
            (λ u.
              unless_none
                (find_project_by_repo u e.repo_full_name)
                (pure none)
                (λ p. resolve_in_project main_inbox e p.id)
                u)
            (λ v. pure (some (inbox_of v)))
            w)
  of_owner e w none owned =
      let (same, rightful) = of_project e w (find_project_by_repo w e.repo_full_name) refl in
      (same, λ r k. inr (owned, rightful r k))
  of_owner e w (some v) owned = (refl, λ r k. inl (v, owned, ground arith))

  resolve_agent-Resolves :
      (e : WebhookEvent) (w : World) → Resolves w (IsRecipient e w) (resolve_agent main_inbox e w)
  unfolding resolve_agent
  resolve_agent-Resolves e w = of_owner e w (owning_worktree w e.pr_url) refl

module _ (main_inbox : Option String) (dumps : Json → String) (str : Json → String) where
  after_resolution :
      (e : WebhookEvent) (w : World) (P : ResolvedRecipient → Type 0)
      (x : Result (Option ResolvedRecipient) × World)
      → x.1 ≡ w
      → ((r : ResolvedRecipient) → x.0 ≡ ok (some r) → P r)
      → WritesOne dumps
          (build_message str e)
          P
          w.inboxes
          (bind_result x (λ recipient.
            write_board e
            >> unless_none recipient (pure tt) (λ r. send dumps (build_message str e) r))).1.inboxes
  after_resolution e w P (err z, u) same rightful = inl (ap (λ v. v.inboxes) same)
  after_resolution e w P (ok recipient, u) same rightful =
      after_board dumps (build_message str e) recipient P w.inboxes (write_board e u)
        ((write_board-keeps e u).1 ∙ ap (λ v. v.inboxes) same) (λ r k. rightful r (ap ok k))

  -- An event writes at most one line, also where a lookup or the file fails: its message, to the inbox
  -- of the worktree of the live task that has the pull request; and if there is no such worktree, only
  -- in the project that is found for the event's repository, one whose url ends with the repository's
  -- name as LIKE reads it: to the online worktree of the branch, or, if the event is one for the main
  -- agent, to the main agent. Where no project's url ends so, it reaches no other inbox.
  pub handle-WritesOne :
      (e : WebhookEvent) (w : World)
      → WritesOne dumps
          (build_message str e)
          (IsRecipient main_inbox e w)
          w.inboxes
          (handle main_inbox dumps str e w).1.inboxes
  unfolding handle
  handle-WritesOne e w =
      let (same, rightful) = resolve_agent-Resolves main_inbox e w in
      after_resolution e w (IsRecipient main_inbox e w) (resolve_agent main_inbox e w) same rightful
