-- ===== src/ReviewLoop/Prompt.antt =====
-- The preamble of a prompt that replays the earlier turns: `_dedupe_learnings`,
-- `_render_pr_body_section`, `_render_prior_history_section` and `build_codex_prompt`
-- (src/gateway/review_loop.py). What Python's `str` writes for a value other than a text, and `upper`,
-- are parameters. A learning or a finding is the dictionary that the reviewer's JSON has.
use Prim.Native.String.{◌++◌ as cat}
use cloglog.Base.{
  ℕ, String, Bool, true, false, not, ◌&&◌, ◌||◌, Option, none, some, List, [], ◌∷◌, ◌++◌, ◌+◌, ◌==◌,
  map, str_eq, truthy, strip, join_by, decimal, text_take, if◌then◌else◌,
}
use cloglog.Models.{
  Json, null, boolean, number, real, text, array, object, nil, item, empty, field, get_field,
}
use cloglog.Review.Repository.{PriorTurnSummary}

-- A learning that is kept: its topic and its note.
pub record Learning : Type 0 where
  pub topic : String
  pub note : String

-- `seen[topic] = note`, in the order in which the topics came first.
unfoldable pub see : Learning → List Learning → List Learning
see l [] = l ∷ []
see l (x ∷ xs) = if str_eq x.topic l.topic then record x { note = l.note } ∷ xs else x ∷ see l xs

unfoldable pub see_all : List Learning → List Learning → List Learning
see_all [] seen = seen
see_all (l ∷ ls) seen =
    see_all ls (if not (truthy l.topic) || not (truthy l.note) then seen else see l seen)

-- `pr_body or ""`
abbrev or_blank : Option String → String
or_blank none = ""
or_blank (some s) = s

unfoldable pub render_pr_body_section : Option String → String
render_pr_body_section pr_body =
    let body = strip (or_blank pr_body) in
    if not (truthy body)
    then "## What this PR is doing\n\n(The PR has no description. Reviewing diff intent unverified.)\n"
    else cat "## What this PR is doing\n\n" (cat body "\n")

abbrev history_intro : String
history_intro =
    "You have reviewed earlier commits of this PR. Findings you raised previously and codebase facts you noted are listed below. Use the rules in the prompt's \"Prior review history\" section to decide whether to re-state, drop, or supersede each."

-- `bool(v)`
unfoldable pub truthy_json : Json → Bool
truthy_json null = false
truthy_json (boolean b) = b
truthy_json (number n) = not (n == 0)
truthy_json (real r) = not (str_eq r "0.0" || str_eq r "-0.0")
truthy_json (text s) = truthy s
truthy_json (array nil) = false
truthy_json (array (item j js)) = true
truthy_json (object empty) = false
truthy_json (object (field k j fs)) = true

-- `fields.get(key, default)`, of a value that is a dictionary.
unfoldable pub get_or_text : String → String → Json → Json
get_or_text key default (object fs) = elim (get_field key fs) [ none ↦ text default | some j ↦ j ]
get_or_text key default j = text default

abbrev response_for : List (String × String) → String → String
response_for [] i = "(none)"
response_for ((j, reply) ∷ rest) i = if str_eq j i then reply else response_for rest i

module _ (str : Json → String) where
  unfoldable pub to_str : Json → String
  to_str (text s) = s
  to_str j = str j

  unfoldable pub learning_of : Json → Learning
  learning_of j = record {
    topic = strip (to_str (get_or_text "topic" "" j));
    note = strip (to_str (get_or_text "note" "" j));
  }

  unfoldable pub learnings_of : List PriorTurnSummary → List Learning
  learnings_of [] = []
  learnings_of (t ∷ ts) = map learning_of t.learnings ++ learnings_of ts

  unfoldable pub dedupe_learnings : List PriorTurnSummary → List Learning
  dedupe_learnings turns = see_all (learnings_of turns) []

module _ (str : Json → String) (upper : String → String) (eq : Json → Json → Bool) where
  unfoldable pub finding_lines : List (String × String) → ℕ → List Json → List String
  finding_lines responses i [] = []
  finding_lines responses i (f ∷ fs) =
      let file = to_str str (get_or_text "file" "?" f) in
      let line = to_str str (get_or_text "line" "?" f) in
      let severity = upper (to_str str (get_or_text "severity" "info" f)) in
      let body = get_or_text "body" "" f in
      let named = get_or_text "title" "" f in
      let title = if truthy_json named then named else body in
      (join_by "" ("- `" ∷ file ∷ ":" ∷ line ∷ "` **[" ∷ severity ∷ "]** " ∷ to_str str title ∷ [])
        ∷ [])
      ++ ((if truthy_json body && not (eq body title)
            then cat "  - Body: " (to_str str body) ∷ []
            else [])
          ++ (cat "  - Author response: " (response_for responses (decimal i))
              ∷ finding_lines responses (i + 1) fs))

  unfoldable pub turn_lines : PriorTurnSummary → List String
  turn_lines t =
      let sha = text_take 7 t.head_sha in
      let sha7 = if truthy sha then sha else "unknown" in
      join_by "" ("#### Turn " ∷ decimal t.turn_number ∷ " (commit `" ∷ sha7 ∷ "`)" ∷ [])
      ∷ ""
      ∷ (elim t.findings [
        | [] ↦ "(no findings filed this turn)" ∷ []
        | f ∷ fs ↦ finding_lines t.author_responses 0 (f ∷ fs)
      ]
          ++ "" ∷ [])

  unfoldable pub learning_lines : List Learning → List String
  learning_lines [] = []
  learning_lines (l ∷ ls) =
      join_by "" ("- **" ∷ l.topic ∷ "** — " ∷ l.note ∷ []) ∷ learning_lines ls

  unfoldable pub learning_section : List Learning → List String
  learning_section [] = []
  learning_section (l ∷ ls) =
      "### Codebase learnings from prior turns" ∷ "" ∷ (learning_lines (l ∷ ls) ++ "" ∷ [])

  unfoldable pub all_turn_lines : List PriorTurnSummary → List String
  all_turn_lines [] = []
  all_turn_lines (t ∷ ts) = turn_lines t ++ all_turn_lines ts

  unfoldable pub render_prior_history_section : List PriorTurnSummary → String
  render_prior_history_section [] = ""
  render_prior_history_section (t ∷ ts) =
      let deduped = dedupe_learnings str (t ∷ ts) in
      cat
        (join_by "\n" (
          "## Prior review history"
          ∷ ""
          ∷ history_intro
          ∷ ""
          ∷ (learning_section deduped ++ ("### Prior findings" ∷ "" ∷ all_turn_lines (t ∷ ts)))))
        "\n"

  unfoldable pub build_codex_prompt :
      String → Option String → List PriorTurnSummary → String → String
  build_codex_prompt base_prompt pr_body turns diff =
      let history = render_prior_history_section turns in
      join_by "\n\n" (
        base_prompt
        ∷ render_pr_body_section pr_body
        ∷ ((if truthy history then history ∷ [] else []) ++ (cat "DIFF:\n" diff ∷ [])))
