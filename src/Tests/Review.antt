-- ===== src/Tests/Review.antt =====
-- The review turns and their theorems on a small table.
use cloglog.Base.{String, ◌≡◌, refl, true, false, none, some, List, [], ◌∷◌, arith, any}
use cloglog.Models.{PrReviewTurn}
use cloglog.Review.Repository.{
  Key, new_turn, claim_turn, mark_posted, is_stage, failed, derive_codex_status, status_of_turns,
  latest_turn, is_running, has_passed,
}
use cloglog.Review.History.{Steps, stay, step, posts}
use cloglog.Review.Claims.{HasUniqueKeys, claim_turn-once}
use cloglog.Review.Posts.{mark_posted-once}
use cloglog.Review.Codex.{current, failed_last, derive_codex_status-failed}

abbrev pr : String
pr = "https://github.com/o/r/pull/7"

abbrev key : Key
key = record { pr_url = pr; head_sha = "abc"; stage = "codex"; turn_number = 1 }

abbrev turn : PrReviewTurn
turn = new_turn 61 10 1 7 key (some 1)

abbrev table : List PrReviewTurn
table = turn ∷ []

abbrev failed_table : List PrReviewTurn
failed_table = record turn { status = "failed" } ∷ []

claims_key : claim_turn 61 10 1 7 key (some 1) [] ≡ some (true, table)
unfolding claim_turn is_stage
claims_key = refl

later : Steps table (mark_posted 20 key table).1
later = step stay (posts 20 key)

unique : HasUniqueKeys table
unique k = ground arith

claim_turn-once_example :
    claim_turn 62 30 1 7 key none (mark_posted 20 key table).1
    ≡ some (false, (mark_posted 20 key table).1)
claim_turn-once_example = claim_turn-once 61 10 1 7 key (some 1) [] claims_key later 62 30 1 7 none

posts_key : (mark_posted 20 key table).0 ≡ true
unfolding mark_posted
posts_key = refl

mark_posted-once_example :
    mark_posted 30 key (mark_posted 20 key table).1 ≡ (false, (mark_posted 20 key table).1)
mark_posted-once_example = mark_posted-once 20 30 key table posts_key stay

shows_failed : derive_codex_status failed_table "abc" 1 5 ≡ failed
unfolding derive_codex_status status_of_turns latest_turn
shows_failed = refl

derive_codex_status-failed_example :
    (any is_running (current "abc" failed_table) ≡ false)
    × (any has_passed (current "abc" failed_table) ≡ false)
    × (any (failed_last (current "abc" failed_table)) (current "abc" failed_table) ≡ true)
derive_codex_status-failed_example = derive_codex_status-failed failed_table "abc" 1 5 shows_failed
