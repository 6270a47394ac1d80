-- ===== src/ReviewEngine/Posting.antt =====
-- The verdict of a review in what is posted (src/gateway/review_engine.py).
use cloglog.Base.{all, ◌≡◌, String, true, not, ◌&&◌, some, List, is_text}
use cloglog.ReviewEngine.Comments.{Review, codex_bot, Payload}

-- The review that GitHub has of a request.
abbrev pub as_posted : {upper : String → String} → String → Payload upper → Review
as_posted login p = record { login = some login; commit_id = p.commit_id; body = some p.body }

-- Reviews by others than codex, or of other commits.
abbrev pub AreOther : String → List Review → Type 0
AreOther head_sha vs =
    all (λ v. not (is_text v.login codex_bot && is_text v.commit_id head_sha)) vs ≡ true
