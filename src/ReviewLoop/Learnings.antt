-- ===== src/ReviewLoop/Learnings.antt =====
-- The learnings of the earlier turns by their topics (`_dedupe_learnings` of
-- src/gateway/review_loop.py).
use text.Mathlib.TextEquality.{eq_iff}
use cloglog.Base.{
  String, ◌≡◌, refl, ap, ◌∙◌, Bool, true, false, not, ◌&&◌, ◌||◌, Option, none, some, List, [], ◌∷◌,
  arith, leb, str_eq, truthy, count, if◌then◌else◌,
}
use cloglog.Models.{Json}
use cloglog.Review.Repository.{PriorTurnSummary}
use cloglog.ReviewLoop.Prompt.{Learning, see, see_all, learnings_of, dedupe_learnings}

-- The note of a topic, of the first entry that has it.
abbrev pub note_of : String → List Learning → Option String
note_of topic [] = none
note_of topic (l ∷ ls) = if str_eq l.topic topic then some l.note else note_of topic ls

abbrev pub has_topic : String → Learning → Bool
has_topic topic l = str_eq l.topic topic

-- The reference: the note of the last learning that has the topic and a note that is not blank.
abbrev pub last_note : String → Option String → List Learning → Option String
last_note topic found [] = found
last_note topic found (l ∷ ls) =
    last_note topic
      (if truthy l.topic && truthy l.note && str_eq l.topic topic then some l.note else found) ls

note_of-see :
    (topic : String) (l : Learning) (seen : List Learning)
    → note_of topic (see l seen)
      ≡ (if str_eq l.topic topic then some l.note else note_of topic seen)
unfolding see
note_of-see topic l [] = refl
note_of-see topic l (x ∷ seen) = ground (
  arith,
  eq_iff l.topic topic,
  eq_iff x.topic l.topic,
  eq_iff x.topic topic,
  note_of-see topic l seen,
)

note_of-seen :
    (topic : String) (l : Learning) (seen : List Learning)
    → note_of topic (if not (truthy l.topic) || not (truthy l.note) then seen else see l seen) ≡ (
        if truthy l.topic && truthy l.note && str_eq l.topic topic
        then some l.note
        else note_of topic seen)
note_of-seen topic l seen = ground (arith, note_of-see topic l seen)

note_of-see_all :
    (topic : String) (ls seen : List Learning)
    → note_of topic (see_all ls seen) ≡ last_note topic (note_of topic seen) ls
unfolding see_all
note_of-see_all topic [] seen = refl
note_of-see_all topic (l ∷ ls) seen =
    note_of-see_all topic ls _ ∙ ap (λ found. last_note topic found ls) (note_of-seen topic l seen)

count-see_other :
    (topic : String) (l : Learning) (seen : List Learning)
    → str_eq l.topic topic ≡ false
    → count (has_topic topic) (see l seen) ≡ count (has_topic topic) seen
unfolding see
count-see_other topic l [] other = ground arith
count-see_other topic l (x ∷ seen) other =
    ground (arith, eq_iff x.topic l.topic, count-see_other topic l seen)

count-see :
    (topic : String) (l : Learning) (seen : List Learning)
    → leb (count (has_topic topic) seen) 1 ≡ true
    → leb (count (has_topic topic) (see l seen)) 1 ≡ true
unfolding see
count-see topic l [] few = ground arith
count-see topic l (x ∷ seen) few = ground (
  arith,
  eq_iff x.topic l.topic,
  eq_iff x.topic topic,
  eq_iff l.topic topic,
  count-see_other topic l seen,
  count-see topic l seen,
)

count-see_all :
    (topic : String) (ls seen : List Learning)
    → leb (count (has_topic topic) seen) 1 ≡ true
    → leb (count (has_topic topic) (see_all ls seen)) 1 ≡ true
unfolding see_all
count-see_all topic [] seen few = few
count-see_all topic (l ∷ ls) seen few = count-see_all topic ls _ (kept topic l seen few)
  where
    kept :
        (topic : String) (l : Learning) (seen : List Learning)
        → leb (count (has_topic topic) seen) 1 ≡ true
        → leb
            (count
              (has_topic topic)
              (if not (truthy l.topic) || not (truthy l.note) then seen else see l seen))
            1
          ≡ true
    kept topic l seen few = ground (arith, count-see topic l seen)

-- The learnings that a prompt replays: of every topic one at most, with the note of the last earlier
-- learning that has this topic and whose topic and note are not blank; a topic without such a
-- learning does not come.
pub dedupe_learnings_latest :
    (str : Json → String) (turns : List PriorTurnSummary) (topic : String)
    → let ls = learnings_of str turns in
      (note_of topic (dedupe_learnings str turns) ≡ last_note topic none ls)
      × (leb (count (has_topic topic) (dedupe_learnings str turns)) 1 ≡ true)
unfolding dedupe_learnings
dedupe_learnings_latest str turns topic = (
  note_of-see_all topic (learnings_of str turns) [],
  count-see_all topic (learnings_of str turns) [] refl,
)
