-- ===== src/ReviewEngine/Cleanup.antt =====
-- The temporary checkouts of a review (src/gateway/review_engine.py).
use cloglog.Base.{
  inl, inr, ℕ, suc, String, ◌≡◌, refl, sym, ap, ◌∙◌, Bool, true, false, not, ◌&&◌, Option, none,
  some, List, [], ◌∷◌, ◌++◌, ◌+◌, Option-cases, if◌then◌else◌,
}
use cloglog.Models.{World, PrReviewTurn, Project}
use cloglog.Board.Repository.{find_project_by_repo}
use cloglog.ReviewLoop.Findings.{ReviewResult}
use cloglog.ReviewLoop.Run.{Ended}
use cloglog.ReviewEngine.SourceRoot.{Resolved}
use cloglog.ReviewEngine.Sources.{resolve_pr_review_root_sound}
use cloglog.Webhook.Consumers.{head_sha_of}
use cloglog.ReviewEngine.SkipComments.{
  SkipReason, max_reviews, no_reviewable_files, diff_too_large, agent_timeout, agent_unparseable,
  opencode_failed,
}
use cloglog.ReviewEngine.ReviewPr.{
  EngineSetting, Elsewhere, AgentAttempt, Handling, untouched, skip, sends, with_result,
  end_attempt, attempts, run_review_agent, single_turn_root, after_opencode, after_codex, after_run,
  is_failure, opencode_loop, codex_loop, runs_opencode, opencode_stage, codex_stage, makes,
  checkout_of, in_root, in_project, root_of, review_filtered, review_diff, review_pr,
}
use cloglog.Webhook.Dispatcher.{WebhookEvent}

-- The checkouts that were made are those whose removal was asked for.
pub record IsClean (h : Handling) : Type 0 where
  pub cleaned : h.made ≡ h.removals

-- A part of the handler that makes and removes none.
record KeepsCheckouts (h h' : Handling) : Type 0 where
  made_same : h'.made ≡ h.made
  removals_same : h'.removals ≡ h.removals

if-keeps :
    (h : Handling) (b : Bool) (x y : Handling)
    → KeepsCheckouts h x
    → KeepsCheckouts h y
    → KeepsCheckouts h (if b then x else y)
if-keeps h true x y a b = a
if-keeps h false x y a b = b

keeps-IsClean : (h h' : Handling) → KeepsCheckouts h h' → IsClean h → IsClean h'
keeps-IsClean h h' k c = record { cleaned = k.made_same ∙ (c.cleaned ∙ sym k.removals_same) }

untouched-IsClean : (turns : List PrReviewTurn) → IsClean (untouched turns)
untouched-IsClean turns = record { cleaned = refl }

module _ (s : EngineSetting) (o : Elsewhere) (e : WebhookEvent) where
  with_result-keeps :
      (r : Option ReviewResult) (h h' : Handling) (other : Handling → Handling)
      → KeepsCheckouts h h'
      → KeepsCheckouts h (other h')
      → KeepsCheckouts h (with_result s o e r h' other)
  with_result-keeps none h h' other a b = b
  with_result-keeps (some r) h h' other a b =
      if-keeps h o.takes_review (record h' { posted = h'.posted ++ r ∷ [] }) h'
        (record { made_same = a.made_same; removals_same = a.removals_same }) a

  end_attempt-keeps :
      (a : AgentAttempt) (h h' : Handling)
      → KeepsCheckouts h h'
      → KeepsCheckouts h (end_attempt s o e a h')
  end_attempt-keeps a h h' k =
      if-keeps h a.timed_out (skip agent_timeout (record h' { timeouts = h'.timeouts + 1 }))
        (skip agent_unparseable h')
        (record { made_same = k.made_same; removals_same = k.removals_same })
        (record { made_same = k.made_same; removals_same = k.removals_same })

  attempts-keeps :
      (filtered root : String) (h : Handling) → KeepsCheckouts h (attempts s o e filtered root h)
  unfolding attempts
  attempts-keeps filtered root h =
      let h1 : Handling = sends s o e filtered root h in
      let h2 : Handling = sends s o e filtered root h1 in
      with_result-keeps (o.attempt 1).result h h1 _
        (record { made_same = refl; removals_same = refl })
        (if-keeps h (o.attempt 1).timed_out _ _
          (with_result-keeps (o.attempt 2).result h h2 (end_attempt s o e (o.attempt 2))
            (record { made_same = refl; removals_same = refl })
            (end_attempt-keeps (o.attempt 2) h h2
              (record { made_same = refl; removals_same = refl })))
          (end_attempt-keeps (o.attempt 1) h h1
            (record { made_same = refl; removals_same = refl })))

  run_review_agent-keeps :
      (filtered : String) (h : Handling) → KeepsCheckouts h (run_review_agent s o e filtered h)
  unfolding run_review_agent
  run_review_agent-keeps filtered h = elim (Option-cases (single_turn_root s o e)) [
    | inl n ↦ rw (n, run_review_agent) (record { made_same = refl; removals_same = refl })
    | inr (root, n) ↦ rw (n, run_review_agent) (attempts-keeps filtered root h)
  ]

  after_opencode-keeps :
      (ended : Ended) (h h' : Handling)
      → KeepsCheckouts h h'
      → KeepsCheckouts h (after_opencode s o e ended h')
  after_opencode-keeps ended h h' k =
      if-keeps h (ended.returned && is_failure s o e ended.progress.outcome)
        (skip opencode_failed h') h'
        (record { made_same = k.made_same; removals_same = k.removals_same }) k

  after_codex-keeps :
      (ended : Ended) (h h' : Handling)
      → KeepsCheckouts h h'
      → KeepsCheckouts h (after_codex s o e ended h')
  after_codex-keeps ended h h' k =
      if-keeps h (ended.returned && ended.progress.outcome.last_timed_out)
        (record (skip agent_timeout h') { timeouts = h'.timeouts + 1 }) h'
        (record { made_same = k.made_same; removals_same = k.removals_same }) k

  opencode_stage-keeps :
      (filtered root : String) (project_id session_index : ℕ) (h : Handling)
      → KeepsCheckouts h (opencode_stage s o e filtered root project_id session_index h)
  unfolding opencode_stage
  opencode_stage-keeps filtered root project_id session_index h =
      let ended : Ended = opencode_loop s o e project_id session_index h in
      let h' : Handling = after_run s o e ended (sends s o e filtered root h) in
      if-keeps h (runs_opencode s o e) (after_opencode s o e ended h') h
        (after_opencode-keeps ended h h' (record { made_same = refl; removals_same = refl }))
        (record { made_same = refl; removals_same = refl })

  codex_stage-keeps :
      (filtered root : String) (project_id session_index : ℕ) (h : Handling)
      → KeepsCheckouts h (codex_stage s o e filtered root project_id session_index h)
  unfolding codex_stage
  codex_stage-keeps filtered root project_id session_index h =
      let ended : Ended = codex_loop s o e project_id session_index h in
      let h' : Handling = after_run s o e ended (sends s o e filtered root h) in
      if-keeps h (not h.raised && s.codex_available) (after_codex s o e ended h') h
        (after_codex-keeps ended h h' (record { made_same = refl; removals_same = refl }))
        (record { made_same = refl; removals_same = refl })

  in_root-IsClean :
      (filtered : String) (project_id session_index : ℕ) (found : Option Resolved) (h : Handling)
      → IsClean h
      → ((r : Resolved) → found ≡ some r → r.1 ≡ checkout_of s o e r.0)
      → IsClean (in_root s o e filtered project_id session_index found h)
  in_root-IsClean filtered project_id session_index none h c own = record { cleaned = c.cleaned }
  in_root-IsClean filtered project_id session_index (some (root, made)) h c own =
      let h1 : Handling = makes s o e made h in
      let h2 : Handling = opencode_stage s o e filtered root.path project_id session_index h1 in
      let a = opencode_stage-keeps filtered root.path project_id session_index h1 in
      let b = codex_stage-keeps filtered root.path project_id session_index h2 in
      record {
        cleaned =
            b.made_same
            ∙ a.made_same
            ∙ ap (λ m. h.made ++ m) (own (root, made) refl)
            ∙ ap (λ r. r ++ checkout_of s o e root)
                (c.cleaned ∙ sym (b.removals_same ∙ a.removals_same));
      }

  -- The root that is found has the checkout that was made for it.
  root_of-checkout :
      (w : World) (project_id : ℕ) (r : Resolved)
      → root_of s o e w project_id ≡ some r
      → r.1 ≡ checkout_of s o e r.0
  root_of-checkout w project_id r h =
      let (c, source, at_root) =
        resolve_pr_review_root_sound s.host s.source w project_id e.pr_url e.pr_number
          (head_sha_of e) e.head_branch e.repo_full_name r h in
      elim at_root [ inl same ↦ rw same refl | inr (temp, behind, created, same) ↦ rw same refl ]

  in_project-IsClean :
      (w : World) (filtered : String) (prior : ℕ) (found : Option Project) (h : Handling)
      → IsClean h
      → IsClean (in_project s o e w filtered prior found h)
  in_project-IsClean w filtered prior none h c = c
  in_project-IsClean w filtered prior (some p) h c =
      in_root-IsClean filtered p.id (suc prior) (root_of s o e w p.id) h c (root_of-checkout w p.id)

  if-IsClean : (b : Bool) (x y : Handling) → IsClean x → IsClean y → IsClean (if b then x else y)
  if-IsClean true x y a b = a
  if-IsClean false x y a b = b

  -- Whatever happens, also where an exception leaves a stage: when the handler ends, it has asked for the
  -- removal of exactly the checkouts that the search for a source has made, each in the clone that it was
  -- made of.
  pub review_pr-IsClean :
      (w : World) (turns : List PrReviewTurn) → IsClean (review_pr s o e w turns)
  unfolding review_pr review_diff review_filtered
  review_pr-IsClean w turns =
      let start : IsClean (untouched turns) = untouched-IsClean turns in
      let skipped : (r : SkipReason) → IsClean (skip r (untouched turns)) =
        λ r. record { cleaned = refl } in
      if-IsClean _ _ _ (if-IsClean _ _ _ (skipped max_reviews) start) (
        if-IsClean _ _ _ (skipped no_reviewable_files) (
          if-IsClean _ _ _ (skipped diff_too_large) (
            if-IsClean _ _ _
              (if-IsClean s.codex_available _ _
                (keeps-IsClean _ _ (run_review_agent-keeps _ (untouched turns)) start) start)
              (in_project-IsClean w _ _ (find_project_by_repo w e.repo_full_name) _ start))))
