-- ===== src/ReviewEngine/Guarded.antt =====
-- What a reviewer is started with (src/gateway/review_engine.py).
use cloglog.Base.{
  sym, Bool-cases, leb, text_length, ◌||◌, ◌==◌, ltb, ℕ, suc, String, ◌≡◌, refl, ◌⊎◌, inl, inr,
  Bool, true, false, not, ◌&&◌, Option, none, some, List, [], ◌∷◌, ◌++◌, arith, truthy, strip,
  select, Option-cases, if◌then◌else◌,
}
use cloglog.Models.{World, PrReviewTurn, Project}
use cloglog.Board.Repository.{find_project_by_repo}
use cloglog.ReviewLoop.Findings.{ReviewResult}
use cloglog.ReviewEngine.Filter.{filter_diff, is_kept}
use cloglog.ReviewEngine.Filtered.{sections, filter_diff_lem}
use cloglog.ReviewEngine.Comments.{
  should_skip_for_cap, latest_codex_review_is_approval, max_reviews_per_pr,
}
use cloglog.ReviewEngine.SourceRoot.{Resolved}
use cloglog.ReviewEngine.Sources.{
  IsRegistered, IsSource, IsRoot, registry_path-IsRegistered, resolve_pr_review_root_sound,
}
use cloglog.Webhook.Consumers.{head_sha_of}
use cloglog.ReviewEngine.SkipComments.{max_reviews}
use cloglog.ReviewEngine.ReviewPr.{
  EngineSetting, Elsewhere, AgentAttempt, Sent, Handling, untouched, sends, with_result,
  end_attempt, attempts, run_review_agent, single_turn_root, opencode_stage, codex_stage, in_root,
  in_project, root_of, review_filtered, review_diff, review_pr, runs_opencode, skip, is_too_large,
  prior_sessions, latest_is_approval, has_registry,
}
use cloglog.Webhook.Dispatcher.{WebhookEvent}

abbrev pub AllSent : (Sent → Type 0) → List Sent → Type 0
AllSent G [] = Unit
AllSent G (x ∷ xs) = G x × AllSent G xs

AllSent-last :
    (G : Sent → Type 0) (xs : List Sent) (x : Sent) → AllSent G xs → G x → AllSent G (xs ++ x ∷ [])
AllSent-last G [] x h g = (g, tt)
AllSent-last G (y ∷ xs) x h g = (h.0, AllSent-last G xs x h.1 g)

not-eq_false : {b : Bool} → not b ≡ false → b ≡ true
not-eq_false {b} h = ground arith

if-sent :
    (G : Sent → Type 0) (b : Bool) (x y : Handling)
    → AllSent G x.sent
    → AllSent G y.sent
    → AllSent G (if b then x else y).sent
if-sent G true x y a b = a
if-sent G false x y a b = b

if-sent_known :
    (G : Sent → Type 0) (b : Bool) (x y : Handling)
    → (b ≡ true → AllSent G x.sent)
    → (b ≡ false → AllSent G y.sent)
    → AllSent G (if b then x else y).sent
if-sent_known G true x y f g = f refl
if-sent_known G false x y f g = g refl

module _ (s : EngineSetting) (o : Elsewhere) (e : WebhookEvent) (G : Sent → Type 0) where
  with_result-sent :
      (r : Option ReviewResult) (h : Handling) (other : Handling → Handling)
      → AllSent G h.sent
      → AllSent G (other h).sent
      → AllSent G (with_result s o e r h other).sent
  with_result-sent none h other a b = b
  with_result-sent (some r) h other a b = if-sent G o.takes_review _ h a a

  end_attempt-sent :
      (a : AgentAttempt) (h : Handling) → AllSent G h.sent → AllSent G (end_attempt s o e a h).sent
  end_attempt-sent a h g = if-sent G a.timed_out _ _ g g

  attempts-sent :
      (filtered root : String) (h : Handling)
      → AllSent G h.sent
      → G (record { diff = filtered; root = root })
      → AllSent G (attempts s o e filtered root h).sent
  unfolding attempts
  attempts-sent filtered root h a g =
      let h1 : Handling = sends s o e filtered root h in
      let h2 : Handling = sends s o e filtered root h1 in
      let first : AllSent G h1.sent = AllSent-last G h.sent _ a g in
      let second : AllSent G h2.sent = AllSent-last G h1.sent _ first g in
      with_result-sent (o.attempt 1).result h1 _ first (
        if-sent G (o.attempt 1).timed_out _ _
          (with_result-sent (o.attempt 2).result h2 (end_attempt s o e (o.attempt 2)) second
            (end_attempt-sent (o.attempt 2) h2 second))
          (end_attempt-sent (o.attempt 1) h1 first))

  opencode_stage-sent :
      (filtered root : String) (project_id session_index : ℕ) (h : Handling)
      → AllSent G h.sent
      → G (record { diff = filtered; root = root })
      → AllSent G (opencode_stage s o e filtered root project_id session_index h).sent
  unfolding opencode_stage
  opencode_stage-sent filtered root project_id session_index h a g =
      let sent : AllSent G (sends s o e filtered root h).sent = AllSent-last G h.sent _ a g in
      if-sent G (runs_opencode s o e) _ h (if-sent G _ _ _ sent sent) a

  codex_stage-sent :
      (filtered root : String) (project_id session_index : ℕ) (h : Handling)
      → AllSent G h.sent
      → G (record { diff = filtered; root = root })
      → AllSent G (codex_stage s o e filtered root project_id session_index h).sent
  unfolding codex_stage
  codex_stage-sent filtered root project_id session_index h a g =
      let sent : AllSent G (sends s o e filtered root h).sent = AllSent-last G h.sent _ a g in
      if-sent G (not h.raised && s.codex_available) _ h (if-sent G _ _ _ sent sent) a

  run_review_agent-sent :
      (filtered : String) (h : Handling)
      → AllSent G h.sent
      → ((root : String)
          → single_turn_root s o e ≡ some root
          → G (record { diff = filtered; root = root }))
      → AllSent G (run_review_agent s o e filtered h).sent
  unfolding run_review_agent
  run_review_agent-sent filtered h a g = elim (Option-cases (single_turn_root s o e)) [
    | inl n ↦ rw (n, run_review_agent) a
    | inr (root, n) ↦ rw (n, run_review_agent) (attempts-sent filtered root h a (g root n))
  ]

  in_root-sent :
      (filtered : String) (project_id session_index : ℕ) (found : Option Resolved) (h : Handling)
      → AllSent G h.sent
      → ((root : Resolved) → found ≡ some root → G (record { diff = filtered; root = root.0.path }))
      → AllSent G (in_root s o e filtered project_id session_index found h).sent
  in_root-sent filtered project_id session_index none h a g = a
  in_root-sent filtered project_id session_index (some root) h a g =
      codex_stage-sent filtered root.0.path project_id session_index _
        (opencode_stage-sent filtered root.0.path project_id session_index _ a (g root refl))
        (g root refl)

  in_project-sent :
      (w : World) (filtered : String) (prior : ℕ) (found : Option Project) (h : Handling)
      → AllSent G h.sent
      → ((p : Project) (root : Resolved)
          → found ≡ some p
          → root_of s o e w p.id ≡ some root
          → G (record { diff = filtered; root = root.0.path }))
      → AllSent G (in_project s o e w filtered prior found h).sent
  in_project-sent w filtered prior none h a g = a
  in_project-sent w filtered prior (some p) h a g =
      in_root-sent filtered p.id (suc prior) (root_of s o e w p.id) h a (λ root. g p root refl)

-- The path that the registry has for the repository, or, where there is no registry, the source of the
-- host; or a root that the lookups find for the pull request in the project of the repository.
abbrev pub IsRootFor : EngineSetting → Elsewhere → WebhookEvent → World → String → Type 0
IsRootFor s o e w path =
    IsRegistered s.host s.source e.repo_full_name path
    ⊎ ((s.source.review_repo_roots ≡ []) × (path ≡ s.source.review_source_root))
    ⊎ ((p : Project) × (c : String) × (root : Resolved) × (find_project_by_repo w e.repo_full_name
          ≡ some p)
        × IsSource s.host s.source w p.id e.pr_url e.head_branch e.repo_full_name c
        × IsRoot s.host s.source (head_sha_of e) e.pr_number e.head_branch e.repo_full_name c root
        × (path ≡ root.0.path))

-- Where codex reviews, fewer than five sessions count, and none does or the latest review at the commit
-- is no approval; what is sent has the sections that are kept, some text, and no more than the limit.
abbrev pub IsGuarded :
    EngineSetting → Elsewhere → WebhookEvent → World → List PrReviewTurn → Sent → Type 0
IsGuarded s o e w turns x =
    let prior = prior_sessions s o e turns in
    let approved = latest_codex_review_is_approval (head_sha_of e) o.reviews in
    ((not s.codex_available || (ltb prior 5 && (prior == 0 || not approved))) ≡ true)
    × (sections x.diff ≡ select is_kept (sections o.diff))
    × (truthy (strip x.diff) ≡ true)
    × (leb (text_length x.diff) 200000 ≡ true)
    × IsRootFor s o e w x.root

-- What the cap lets through.
below_cap :
    (s : EngineSetting) (o : Elsewhere) (e : WebhookEvent) (prior : ℕ)
    → (s.codex_available && (should_skip_for_cap prior (latest_is_approval s o e prior)).0) ≡ false
    → (not s.codex_available
        || (ltb prior 5
            && (prior == 0 || not (latest_codex_review_is_approval (head_sha_of e) o.reviews))))
      ≡ true
unfolding should_skip_for_cap latest_is_approval max_reviews_per_pr
below_cap s o e prior h = ground arith

some-injective : {a b : String} → some a ≡ some b → a ≡ b
some-injective h = cc

no_registry :
    (s : EngineSetting) (o : Elsewhere) (e : WebhookEvent) (roots : List (String × String))
    → has_registry s o e roots ≡ false
    → roots ≡ []
no_registry s o e [] h = refl
no_registry s o e (r ∷ roots) h = absurd (ground arith)

single_turn_root-IsRootFor :
    (s : EngineSetting) (o : Elsewhere) (e : WebhookEvent) (w : World) (path : String)
    → single_turn_root s o e ≡ some path
    → IsRootFor s o e w path
unfolding single_turn_root
single_turn_root-IsRootFor s o e w path h =
    elim (Bool-cases (has_registry s o e s.source.review_repo_roots)) [
      | inl n ↦ inl (
          registry_path-IsRegistered s.host s.source e.repo_full_name
            (rw (n, single_turn_root) at h))
      | inr n ↦ inr (
          inl (
            no_registry s o e s.source.review_repo_roots n,
            sym (some-injective (rw (n, single_turn_root) at h)),
          ))
    ]

root_of-IsRootFor :
    (s : EngineSetting) (o : Elsewhere) (e : WebhookEvent) (w : World) (p : Project)
    (root : Resolved)
    → find_project_by_repo w e.repo_full_name ≡ some p
    → root_of s o e w p.id ≡ some root
    → IsRootFor s o e w root.0.path
root_of-IsRootFor s o e w p root f r =
    let (c, source, at_root) =
      resolve_pr_review_root_sound s.host s.source w p.id e.pr_url e.pr_number (head_sha_of e)
        e.head_branch e.repo_full_name root r in
    inr (inr (p, c, root, f, source, at_root, refl))

review_filtered-sent :
    (s : EngineSetting) (o : Elsewhere) (e : WebhookEvent) (G : Sent → Type 0) (w : World)
    (filtered : String) (prior : ℕ) (h : Handling)
    → AllSent G h.sent
    → ((path : String) → IsRootFor s o e w path → G (record { diff = filtered; root = path }))
    → AllSent G (review_filtered s o e w filtered prior h).sent
unfolding review_filtered
review_filtered-sent s o e G w filtered prior h a g =
    if-sent G _ _ _
      (if-sent G s.codex_available _ h
        (run_review_agent-sent s o e G filtered h a
          (λ root n. g root (single_turn_root-IsRootFor s o e w root n)))
        a)
      (in_project-sent s o e G w filtered prior (find_project_by_repo w e.repo_full_name) h a
        (λ p root f r. g root.0.path (root_of-IsRootFor s o e w p root f r)))

review_diff-sent :
    (s : EngineSetting) (o : Elsewhere) (e : WebhookEvent) (w : World) (turns : List PrReviewTurn)
    (h : Handling)
    → ((G : Sent → Type 0) → AllSent G h.sent)
    → (s.codex_available
        && (should_skip_for_cap
            (prior_sessions s o e turns)
            (latest_is_approval s o e (prior_sessions s o e turns))).0)
      ≡ false
    → AllSent (IsGuarded s o e w turns) (review_diff s o e w (prior_sessions s o e turns) h).sent
unfolding review_diff
review_diff-sent s o e w turns h nothing below =
    let G : Sent → Type 0 = IsGuarded s o e w turns in
    let filtered : String = filter_diff o.diff in
    if-sent_known G (not (truthy (strip filtered))) _ _ (λ _. nothing G)
      (λ text.
        if-sent_known G (is_too_large s o e filtered) _ _ (λ _. nothing G)
          (λ fits.
            review_filtered-sent s o e G w filtered (prior_sessions s o e turns) h (nothing G)
              (λ path own. (
                below_cap s o e (prior_sessions s o e turns) below,
                filter_diff_lem o.diff,
                not-eq_false text,
                (ground arith),
                own,
              ))))

-- Whatever GitHub, git and the reviewers answer: every reviewer is started with the kept sections of
-- the diff, which have some text and at most 200,000 characters, and on a source of its own: the
-- worktree of the pull request or of its branch in the project that is found for the repository, the
-- path that the registry has for the repository, or, where there is no registry, the source of the
-- host, or a checkout of the head commit. Where codex reviews on the host, fewer than five sessions
-- count then, and none does or the latest review at the commit is no approval; a host with opencode
-- alone checks neither.
pub review_pr-IsGuarded :
    (s : EngineSetting) (o : Elsewhere) (e : WebhookEvent) (w : World) (turns : List PrReviewTurn)
    → AllSent (IsGuarded s o e w turns) (review_pr s o e w turns).sent
unfolding review_pr
review_pr-IsGuarded s o e w turns =
    let G : Sent → Type 0 = IsGuarded s o e w turns in
    if-sent_known G _ _ _
      (λ _. if-sent G _ (skip max_reviews (untouched turns)) (untouched turns) tt tt)
      (λ below. review_diff-sent s o e w turns (untouched turns) (λ P. tt) below)
