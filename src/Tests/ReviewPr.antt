-- ===== src/Tests/ReviewPr.antt =====
-- The review of a pull request on a host with a registry of two repositories.
use cloglog.Base.{String, ◌≡◌, refl, true, false, none, some, [], ◌∷◌, str_eq, if◌then◌else◌}
use cloglog.Agent.Service.{find_by_pr_url}
use cloglog.Models.{text, object, field, empty}
use cloglog.ReviewEngine.SourceRoot.{
  Host, SourceSetting, PrReviewRoot, Resolved, resolve_pr_review_root, registered_source,
  registry_path, registry_entry, at_head, resolve_main_clone_anchor,
}
use cloglog.ReviewEngine.Sources.{IsSource, IsRoot, resolve_pr_review_root_sound}
use cloglog.ReviewEngine.ReviewPr.{EngineSetting, Elsewhere, review_pr}
use cloglog.ReviewEngine.Guarded.{AllSent, IsGuarded, review_pr-IsGuarded}
use cloglog.ReviewEngine.Cleanup.{IsClean, review_pr-IsClean}
use cloglog.Webhook.Dispatcher.{WebhookEvent, WebhookEventType}
use cloglog.Tests.Sample.{sample}
use cloglog.Tests.ReviewLoop.{outside, result}

-- A host where "/r" is a clone at another commit.
abbrev host : Host
host = record {
  is_dir = λ path. false;
  git_common_dir = λ path. if str_eq path "/r" then some "/r/.git" else none;
  probe_git_head = λ path. some "old";
  parent = λ path. "/r";
  create_review_checkout = λ clone sha n branch. some "/r/.cloglog/review-checkouts/abc-7";
}

abbrev source : SourceSetting
source = record {
  review_repo_roots = ("o/r", "/r") ∷ ("o/x", "/x") ∷ [];
  review_source_root = "/main";
}

abbrev temporary : PrReviewRoot
temporary = record {
  path = "/r/.cloglog/review-checkouts/abc-7";
  is_temp = true;
  main_clone = some "/r";
}

abbrev resolved : Resolved
resolved = (temporary, ("/r", "/r/.cloglog/review-checkouts/abc-7") ∷ [])

found : resolve_pr_review_root host source sample 1 "" 7 "abc" "" "o/r" ≡ some resolved
unfolding resolve_pr_review_root registered_source registry_path registry_entry find_by_pr_url
    at_head resolve_main_clone_anchor
found = refl

resolve_pr_review_root_sound_example :
    (c : String) × IsSource host source sample 1 "" "" "o/r" c
    × IsRoot host source "abc" 7 "" "o/r" c resolved
resolve_pr_review_root_sound_example =
    resolve_pr_review_root_sound host source sample 1 "" 7 "abc" "" "o/r" resolved found

-- An entry that is no repository is refused, and the host's own source is not taken for it.
refused : resolve_pr_review_root host source sample 1 "" 7 "abc" "" "o/x" ≡ none
unfolding resolve_pr_review_root registered_source registry_path registry_entry find_by_pr_url
refused = refl

abbrev engine : EngineSetting
engine = record {
  codex_available = true;
  opencode_available = false;
  opencode_enabled = false;
  has_session_factory = true;
  has_ci_dispatcher = true;
  opencode_max_turns = 2;
  codex_max_turns = 1;
  opencode_label = "opencode";
  host = host;
  source = source;
}

abbrev elsewhere : Elsewhere
elsewhere = record {
  reviews = [];
  diff = "diff --git a/a.py b/a.py\n+1\n";
  has_opencode_token = false;
  attempt = λ n. record { result = some result; timed_out = false };
  takes_review = true;
  opencode = outside;
  codex = outside;
}

abbrev pushed : WebhookEvent
pushed = record {
  type = WebhookEventType.pr_synchronize;
  delivery_id = "d";
  repo_full_name = "o/r";
  pr_number = 7;
  pr_url = "https://github.com/o/r/pull/7";
  head_branch = "wt";
  base_branch = "main";
  sender = "agent";
  raw = object (
      field "pull_request" (object (field "head" (object (field "sha" (text "abc") empty)) empty))
        empty);
}

review_pr-IsGuarded_example :
    AllSent
      (IsGuarded engine elsewhere pushed sample [])
      (review_pr engine elsewhere pushed sample []).sent
review_pr-IsGuarded_example = review_pr-IsGuarded engine elsewhere pushed sample []

review_pr-IsClean_example : IsClean (review_pr engine elsewhere pushed sample [])
review_pr-IsClean_example = review_pr-IsClean engine elsewhere pushed sample []
