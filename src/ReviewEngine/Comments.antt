-- ===== src/ReviewEngine/Comments.antt =====
-- What the engine posts of a review, and reads back of it (src/gateway/review_engine.py). How Python
-- raises the case of a text is a parameter. Whether GitHub takes a request is an argument.
use cloglog.Base.{
  ℕ, String, Bool, true, false, ◌&&◌, Option, none, some, List, [], ◌∷◌, leb, str_eq, is_text, any,
  contains, truthy, join_by, decimal, append_text, starts_with, lstrip, select, if◌then◌else◌,
}
use cloglog.ReviewLoop.Findings.{ReviewFinding, ReviewResult, is_severe}
use cloglog.ReviewEngine.Diff.{ValidLines, lines_of, extract_diff_new_lines}

-- An inline comment; its side is always "RIGHT".
pub record Comment : Type 0 where
  pub path : String
  pub line : ℕ
  pub body : String

-- A review that GitHub has, of which the engine reads the author, the commit and the body.
pub record Review : Type 0 where
  pub login : Option String
  pub commit_id : Option String
  pub body : Option String

unfoldable pub codex_bot : String
codex_bot = "cloglog-codex-reviewer[bot]"

unfoldable pub approve_body_prefix : String
approve_body_prefix = ":pass:"

unfoldable pub effective_verdict : ReviewResult → String
effective_verdict r =
    if str_eq r.verdict "approve" && any is_severe r.findings then "request_changes" else r.verdict

unfoldable pub verdict_icon : String → String
verdict_icon v =
    if str_eq v "approve" then "pass" else if str_eq v "request_changes" then "warning" else "info"

unfoldable pub is_commentable : ValidLines → ReviewFinding → Bool
is_commentable valid f = contains (lines_of f.file valid) f.line

module _ (upper : String → String) where
  abbrev pub comment_of : ReviewFinding → Comment
  comment_of f = record {
    path = f.file;
    line = f.line;
    body = join_by "" ("**[" ∷ upper f.severity ∷ "]** " ∷ f.body ∷ []);
  }

  -- The inline comments, and the findings that stand at no line of the diff.
  unfoldable pub partition_findings :
      List ReviewFinding → ValidLines → List Comment × List ReviewFinding
  partition_findings [] valid = ([], [])
  partition_findings (f ∷ fs) valid =
      let (inline, orphans) = partition_findings fs valid in
      if is_commentable valid f then (comment_of f ∷ inline, orphans) else (inline, f ∷ orphans)

  unfoldable pub orphan_lines : List ReviewFinding → List String
  orphan_lines [] = []
  orphan_lines (f ∷ fs) =
      join_by "" (
        "- **[" ∷ upper f.severity ∷ "]** `" ∷ f.file ∷ ":" ∷ decimal f.line ∷ "` — " ∷ f.body ∷ [])
      ∷ orphan_lines fs

  unfoldable pub orphan_section : List ReviewFinding → List String
  orphan_section [] = []
  orphan_section (f ∷ fs) =
      "" ∷ "### Findings not attached to a diff line" ∷ "" ∷ orphan_lines (f ∷ fs)

  -- `"\n".join` of the first line, which is never empty, and the orphans.
  unfoldable pub format_review_body : ReviewResult → List ReviewFinding → String
  format_review_body r orphans = append_text ":" (
      append_text (verdict_icon (effective_verdict r))
        (append_text ": " (join_by "\n" (r.summary ∷ orphan_section orphans))))

  pub record Payload : Type 0 where
    pub body : String
    pub comments : List Comment
    pub commit_id : Option String

  -- The request of `post_review`; its event is always "COMMENT".
  unfoldable pub review_payload : ReviewResult → String → String → Payload
  review_payload r diff head_sha =
      let (inline, orphans) = partition_findings r.findings (extract_diff_new_lines diff) in
      record {
        body = format_review_body r orphans;
        comments = inline;
        commit_id = if truthy head_sha then some head_sha else none;
      }

  -- `accepts` says of each attempt whether GitHub takes the request. Whether the review was posted, and
  -- the requests that were sent.
  unfoldable pub post_review :
      (ℕ → Payload → Bool) → ReviewResult → String → String → Bool × List Payload
  post_review accepts r diff head_sha =
      let payload = review_payload r diff head_sha in
      if accepts 1 payload
      then (true, payload ∷ [])
      else (accepts 2 payload, payload ∷ payload ∷ [])

-- The rows of a list of reviews that are codex's, of a commit.
abbrev pub is_codex_review : Review → Bool
is_codex_review v = is_text v.login codex_bot

abbrev pub body_or_empty : Option String → String
body_or_empty none = ""
body_or_empty (some s) = s

abbrev pub or_else : Option String → Option String → Option String
or_else none b = b
or_else (some a) b = some a

-- `(rows[-1].get("body") or "")`, where there is a row
abbrev pub last_body : List Review → Option String
last_body [] = none
last_body (v ∷ vs) = or_else (last_body vs) (some (body_or_empty v.body))

abbrev pub is_approval : Option String → Bool
is_approval none = false
is_approval (some body) = starts_with (lstrip body) approve_body_prefix

-- `reviews` is what GitHub lists, the oldest first; a failed request raises before this.
unfoldable pub latest_codex_review_is_approval : String → List Review → Bool
latest_codex_review_is_approval head_sha reviews =
    truthy head_sha
    && is_approval
        (last_body (select (λ v. is_codex_review v && is_text v.commit_id head_sha) reviews))

unfoldable pub max_reviews_per_pr : ℕ
max_reviews_per_pr = 5

-- Whether the review is skipped, and whether for the number of sessions.
unfoldable pub should_skip_for_cap : ℕ → Bool → Bool × Bool
should_skip_for_cap prior_sessions latest_is_approval =
    if latest_is_approval
    then (true, false)
    else if leb max_reviews_per_pr prior_sessions
    then (true, true)
    else (false, false)
