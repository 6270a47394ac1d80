-- ===== src/Review/Repository/Status.antt =====
-- What the board shows of the codex reviews of a pull request.
use cloglog.Base.{
  ℕ, String, Bool, true, false, not, ◌&&◌, ◌||◌, none, some, List, [], ◌∷◌, ◌==◌, leb, ltb, str_eq,
  truthy, is_some, is_text, any, select, length, contains, sort_by, if◌then◌else◌,
}
use cloglog.Models.{PrReviewTurn}

-- The distinct values of a column.
unfoldable pub distinct : List ℕ → List ℕ
distinct [] = []
distinct (k ∷ ks) = if contains ks k then distinct ks else k ∷ distinct ks

-- The session indexes that are there.
unfoldable pub session_indexes : List PrReviewTurn → List ℕ
session_indexes [] = []
session_indexes (t ∷ ts) = elim t.session_index [
  | none ↦ session_indexes ts
  | some k ↦ k ∷ session_indexes ts
]

abbrev pub is_posted : PrReviewTurn → Bool
is_posted t = is_some t.posted_at

abbrev pub is_counted : String → PrReviewTurn → Bool
is_counted pr_url t =
    str_eq t.pr_url pr_url
    && str_eq t.stage "codex"
    && is_some t.posted_at
    && is_some t.session_index

unfoldable pub count_posted_codex_sessions : String → List PrReviewTurn → ℕ
count_posted_codex_sessions pr_url turns =
    length (distinct (session_indexes (select (is_counted pr_url) turns)))

abbrev pub contains_text : List String → String → Bool
contains_text [] s = false
contains_text (x ∷ xs) s = str_eq x s || contains_text xs s

-- The set of the URLs, each once.
unfoldable pub distinct_texts : List String → List String
distinct_texts [] = []
distinct_texts (s ∷ ss) = if contains_text ss s then distinct_texts ss else s ∷ distinct_texts ss

unfoldable pub pr_urls_of : List PrReviewTurn → List String
pr_urls_of [] = []
pr_urls_of (t ∷ ts) = t.pr_url ∷ pr_urls_of ts

unfoldable pub codex_touched_pr_urls : ℕ → List String → List PrReviewTurn → List String
codex_touched_pr_urls project_id [] turns = []
codex_touched_pr_urls project_id (u ∷ us) turns = distinct_texts (
    pr_urls_of (
      select
        (λ t.
          t.project_id == project_id && str_eq t.stage "codex" && contains_text (u ∷ us) t.pr_url)
        turns))

pub data CodexStatus : Type 0 where
  not_started working pass exhausted failed stale : CodexStatus
  -- CodexProgress: the turn, `max_turns` and the commit
  progress : (turn max_turns : ℕ) (sha : String) → CodexStatus

-- The number of the review sessions that have posted.
unfoldable pub posted_sessions : List PrReviewTurn → ℕ
posted_sessions turns = length (distinct (session_indexes (select is_posted turns)))

abbrev pub is_running : PrReviewTurn → Bool
is_running t = str_eq t.status "running"

abbrev pub is_completed : PrReviewTurn → Bool
is_completed t = str_eq t.status "completed"

abbrev pub has_passed : PrReviewTurn → Bool
has_passed t =
    str_eq t.status "completed" && t.consensus_reached && not (is_text t.outcome "db_error")

-- `max(current, key=lambda t: t.turn_number)`: the first of the greatest.
unfoldable pub latest_turn : PrReviewTurn → List PrReviewTurn → PrReviewTurn
latest_turn t [] = t
latest_turn t (u ∷ us) =
    if ltb t.turn_number u.turn_number then latest_turn u us else latest_turn t us

abbrev pub has_failed : PrReviewTurn → Bool
has_failed t =
    str_eq t.status "timed_out" || str_eq t.status "failed" || is_text t.outcome "db_error"

abbrev pub at_sha : String → PrReviewTurn → Bool
at_sha sha t = str_eq t.head_sha sha

abbrev pub is_nil : List PrReviewTurn → Bool
is_nil [] = true
is_nil (t ∷ ts) = false

-- The part of `_derive_codex_status` for a commit that has turns.
unfoldable pub status_of_turns :
    List PrReviewTurn → PrReviewTurn → List PrReviewTurn → String → ℕ → ℕ → CodexStatus
status_of_turns all_turns t ts head_sha max_turns max_pr_sessions =
    if any is_running (t ∷ ts)
    then working
    else if any has_passed (t ∷ ts)
    then pass
    else if has_failed (latest_turn t ts)
    then failed
    else if leb max_pr_sessions (posted_sessions all_turns)
    then exhausted
    else progress (length (select is_completed (t ∷ ts))) max_turns head_sha

-- `_derive_codex_status`
unfoldable pub derive_codex_status : List PrReviewTurn → String → ℕ → ℕ → CodexStatus
derive_codex_status all_turns head_sha max_turns max_pr_sessions =
    if truthy head_sha
    then elim (select (at_sha head_sha) all_turns) [
      | [] ↦
          if is_nil all_turns
          then not_started
          else if leb max_pr_sessions (posted_sessions all_turns)
          then exhausted
          else stale
      | t ∷ ts ↦ status_of_turns all_turns t ts head_sha max_turns max_pr_sessions
    ]
    else not_started

-- The turns of one pull request, in the order in which they were made.
unfoldable pub turns_of_pr : ℕ → String → List PrReviewTurn → List PrReviewTurn
turns_of_pr project_id pr_url turns =
    sort_by (λ t. t.created_at)
      (select
        (λ t. str_eq t.pr_url pr_url && (t.project_id == project_id && str_eq t.stage "codex"))
        turns)

-- The statuses of the pull requests that are asked for, each with the commit it is at.
unfoldable pub codex_status_by_pr :
    ℕ → List (String × String) → ℕ → ℕ → List PrReviewTurn → List (String × CodexStatus)
codex_status_by_pr project_id [] max_turns max_pr_sessions turns = []
codex_status_by_pr project_id ((pr_url, head_sha) ∷ rest) max_turns max_pr_sessions turns =
    (
      pr_url,
      derive_codex_status (turns_of_pr project_id pr_url turns) head_sha max_turns max_pr_sessions,
    )
    ∷ codex_status_by_pr project_id rest max_turns max_pr_sessions turns
