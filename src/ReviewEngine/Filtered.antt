-- ===== src/ReviewEngine/Filtered.antt =====
-- What is left of a diff by the filter (src/gateway/review_engine.py).
use Prim.Native.Char.{Char, code}
use cloglog.Base.{
  String, ◌≡◌, refl, sym, ap, ◌∙◌, inl, inr, true, false, none, List, [], ◌∷◌, arith, all, select,
  map, truthy, split, cut, join_by, append_text, drop_prefix, starts_with, Bool-cases, Option-cases,
  ◌==◌,
}
use text.Mathlib.TextEquality.{eq_iff}
use cloglog.Base.Split.{split_within}
use cloglog.Base.Split.Prefixes.{is_free, drop_prefix-parts, drop_prefix-append}
use cloglog.Base.Split.Laws.{split-free, split-join, free-start, free-behind, free_none, free-end}
use cloglog.ReviewEngine.Filter.{
  header, is_kept, preamble_of, sections_of, push_line, rstrip_lines, assemble, filtered,
  filter_diff,
}

abbrev separator : String
separator = "\ndiff --git "

-- The sections of a diff, as `filter_diff` reads them.
unfoldable pub sections : String → List String
sections diff = sections_of (split separator diff)

abbrev section : String → String
section raw = append_text header raw

abbrev line_feed : Char
line_feed = "\n"

abbrev AreFree : List String → Type 0
AreFree ss = all (is_free separator) ss ≡ true

free_is : (s : String) → cut separator s ≡ none → is_free separator s ≡ true
free_is s e = rw e refl

section-free : (raw : String) → cut separator raw ≡ none → cut separator (section raw) ≡ none
section-free raw e = free-behind line_feed header refl header raw refl e

all_cons :
    (s : String) (ss : List String) → is_free separator s ≡ true → AreFree ss → AreFree (s ∷ ss)
all_cons s ss e f = rw (e, f) refl

-- The sections of a split text are headers with texts that are free.
sections_of-raws :
    (parts : List String)
    → AreFree parts
    → (raws : List String) × (sections_of parts ≡ map section raws) × AreFree raws
unfolding starts_with
sections_of-raws [] free = ([], refl, refl)
sections_of-raws (first ∷ raws) free = elim (Option-cases (drop_prefix header first)) [
  | inl e ↦ (raws, rw (e, starts_with) refl, ground arith)
  | inr (t, e) ↦
      let parts : first ≡ section t = drop_prefix-parts header first e in
      let free_first : cut separator (section t) ≡ none =
        ap (cut separator) (sym parts) ∙ free_none line_feed header refl first (ground arith) in
      (
        t ∷ raws,
        rw (e, starts_with) (ap (λ r. r ∷ map section raws) parts),
        all_cons t raws (free_is t (free-end line_feed header refl header t free_first))
            (ground arith),
      )
]

-- The preamble is free and starts with no header.
preamble_of-free :
    (parts : List String)
    → AreFree parts
    → (cut separator (preamble_of parts) ≡ none) × (starts_with (preamble_of parts) header ≡ false)
unfolding starts_with drop_prefix cut
preamble_of-free [] free = (refl, refl)
preamble_of-free (first ∷ raws) free = elim (Bool-cases (starts_with first header)) [
  | inl e ↦ rw e (refl, refl)
  | inr e ↦ rw e (free_none line_feed header refl first (ground arith), e)
]

select-raws :
    (raws : List String)
    → AreFree raws
    → (us : List String) × (select is_kept (map section raws) ≡ map section us) × AreFree us
select-raws [] free = ([], refl, refl)
select-raws (raw ∷ raws) free =
    let (us, e, f) = select-raws raws (ground arith) in
    elim (Bool-cases (is_kept (section raw))) [
      | inl k ↦ (raw ∷ us, rw k (ap (λ r. section raw ∷ r) e), ground arith)
      | inr k ↦ (us, rw k e, f)
    ]

join_by-section :
    (u : String) (us : List String)
    → join_by separator (section u ∷ us) ≡ section (join_by separator (u ∷ us))
unfolding join_by append_text
join_by-section u [] = refl
join_by-section u (v ∷ us) = refl

-- The lines between the sections are the separators of the texts behind the headers.
join_by-sections :
    (u : String) (us : List String)
    → join_by "\n" (map section (u ∷ us)) ≡ section (join_by separator (u ∷ us))
unfolding join_by append_text
join_by-sections u [] = refl
join_by-sections u (v ∷ us) =
    ap (λ r. section (append_text u (String.◌∷◌ line_feed r))) (join_by-sections v us)

push_line-start :
    (c : Char) (r y : String)
    → (z : String) × (String.◌∷◌ c (append_text r y) ≡ append_text (push_line c r) z)
unfolding push_line append_text
push_line-start c String.[] y = elim (Bool-cases (code c == 10)) [
  | inl e ↦ (String.◌∷◌ c y, rw e refl)
  | inr e ↦ (y, rw e refl)
]
push_line-start c (String.◌∷◌ d r) y = (y, refl)

rstrip_lines-start : (s : String) → (y : String) × (s ≡ append_text (rstrip_lines s) y)
unfolding rstrip_lines push_line append_text
rstrip_lines-start String.[] = ("", refl)
rstrip_lines-start (String.◌∷◌ c s) =
    let (y, e) = rstrip_lines-start s in
    let (z, f) = push_line-start c (rstrip_lines s) y in (z, ap (String.◌∷◌ c) e ∙ f)

not_empty : {c : Char} {s : String} → String.◌∷◌ c s ≡ "" → ⊥
not_empty e = cc

empty : (p : String) → truthy p ≡ false → p ≡ ""
empty p e = (eq_iff p "").0 (ground arith)

truthy-section : (rest : String) → truthy (section rest) ≡ true
unfolding append_text
truthy-section rest = elim (Bool-cases (truthy (section rest))) [
  | inl e ↦ e
  | inr e ↦ absurd (not_empty (empty (section rest) e))
]

assemble_nothing : (p : String) → assemble p "" ≡ p
assemble_nothing p = elim (Bool-cases (truthy p)) [ inl e ↦ rw e refl | inr e ↦ rw e refl ]

assemble_both :
    (p rest : String)
    → truthy p ≡ true
    → assemble p (section rest) ≡ append_text (rstrip_lines p) (append_text separator rest)
unfolding append_text
assemble_both p rest e = rw (e, truthy-section rest) refl

assemble_body : (p rest : String) → truthy p ≡ false → assemble p (section rest) ≡ section rest
unfolding append_text
assemble_body p rest e = rw (e, truthy-section rest) refl

without_header :
    (p : String) (us : List String)
    → starts_with p header ≡ false
    → sections_of (p ∷ us) ≡ map section us
without_header p us e = rw e refl

with_header : (u : String) (us : List String) → sections_of (section u ∷ us) ≡ map section (u ∷ us)
unfolding starts_with drop_prefix append_text
with_header u us = refl

-- Where a text does not start with the header, no start of it does.
starts_with-start :
    (p y : String)
    → p ≡ append_text (rstrip_lines p) y
    → starts_with p header ≡ false
    → starts_with (rstrip_lines p) header ≡ false
unfolding starts_with
starts_with-start p y start e = elim (Option-cases (drop_prefix header (rstrip_lines p))) [
  | inl n ↦ rw n refl
  | inr (t, n) ↦ absurd (
      ground (arith, ap (drop_prefix header) start, drop_prefix-append header (rstrip_lines p) y n))
]

-- What an assembled diff is split into.
assemble-sections :
    (p : String) (us : List String)
    → cut separator p ≡ none
    → starts_with p header ≡ false
    → AreFree us
    → sections_of (split separator (assemble p (join_by "\n" (map section us)))) ≡ map section us
unfolding join_by
assemble-sections p [] free no_header free_us =
    ap (λ r. sections_of (split separator r)) (assemble_nothing p)
    ∙ (ap sections_of (split-join line_feed header refl p [] (all_cons p [] (free_is p free) refl))
        ∙ without_header p [] no_header)
assemble-sections p (u ∷ us) free no_header free_us =
    let rest = join_by separator (u ∷ us) in
    ap (λ r. sections_of (split separator (assemble p r))) (join_by-sections u us)
    ∙ elim (Bool-cases (truthy p)) [
      | inl e ↦
          let (y, start) = rstrip_lines-start p in
          let free_start : cut separator (rstrip_lines p) ≡ none =
            free-start line_feed header refl (rstrip_lines p) y
              (ap (cut separator) (sym start) ∙ free) in
          ap (λ r. sections_of (split separator r)) (assemble_both p rest e)
          ∙ (ap sections_of (
                split-join line_feed header refl (rstrip_lines p) (u ∷ us)
                  (all_cons (rstrip_lines p) (u ∷ us) (free_is _ free_start) free_us))
              ∙ without_header (rstrip_lines p) (u ∷ us) (starts_with-start p y start no_header))
      | inr e ↦
          ap (λ r. sections_of (split separator r))
            (assemble_body p rest e ∙ sym (join_by-section u us))
          ∙ (ap sections_of (
                split-join line_feed header refl (section u) us (
                  all_cons (section u) us
                    (free_is _ (section-free u (free_none line_feed header refl u (ground arith))))
                    (ground arith)))
              ∙ with_header u us)
    ]

-- The texts that a diff is split into, filtered and put together again.
filtered-sections :
    (parts : List String)
    → AreFree parts
    → sections_of (split separator (filtered parts)) ≡ select is_kept (sections_of parts)
filtered-sections parts free =
    let (raws, of_parts, free_raws) = sections_of-raws parts free in
    let (us, kept, free_us) = select-raws raws free_raws in
    let (free_p, no_header) = preamble_of-free parts free in
    rw (of_parts, kept) (assemble-sections (preamble_of parts) us free_p no_header free_us)

nothing : sections_of (split separator "") ≡ select is_kept (sections_of (split separator ""))
unfolding split split_within starts_with drop_prefix
nothing = refl

-- The sections of a filtered diff are the sections of the diff that are kept, in their order: none is
-- there whose path is skipped, such as that of a secret, and no other one is lost or changed.
pub filter_diff_lem : (diff : String) → sections (filter_diff diff) ≡ select is_kept (sections diff)
unfolding sections filter_diff
filter_diff_lem diff = elim (Bool-cases (truthy diff)) [
  | inl e ↦ rw e (filtered-sections (split separator diff) (split-free line_feed header refl diff))
  | inr e ↦ rw (e, empty diff e) nothing
]
