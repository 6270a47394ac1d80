-- ===== src/Board/RepoUrl.antt =====
-- `normalize_repo_url` (src/board/repo_url.py). A round of its loop takes at least one character, so
-- it runs on the length of the text as fuel.
use Prim.Native.String.{◌++◌ as text_append}
use cloglog.Base.{
  ℕ, zero, suc, ◌+◌, ◌≤◌, ◌<◌, String, ◌≡◌, refl, sym, ◌∙◌, ap, subst, Bool, true, false, not, ◌||◌,
  Option, none, some, arith, str_eq, is_some, truthy, strip, drop_prefix, drop_suffix, text_length,
  if◌then◌else◌, Bool-cases, Option-cases, inl, inr,
}
use text.Mathlib.TextEquality.{eq_iff}

abbrev or_same : String → Option String → String
or_same s none = s
or_same s (some t) = t

abbrev on_https : Option String → Option String
on_https none = none
on_https (some rest) = some (text_append "https://github.com/" rest)

abbrev or_else : Option String → Option String → Option String
or_else none b = b
or_else (some a) b = some a

-- The form over SSH and the one over HTTP become the one over HTTPS.
unfoldable pub to_https : String → String
to_https s = or_same s (
    or_else (on_https (drop_prefix "git@github.com:" s))
      (on_https (drop_prefix "http://github.com/" s)))

unfoldable pub has_suffix : String → Bool
has_suffix s = is_some (drop_suffix "/" s) || is_some (drop_suffix ".git" s)

abbrev without : String → String → String
without t s = or_same s (drop_suffix t s)

unfoldable pub drop_suffixes : ℕ → String → String
drop_suffixes zero s = s
drop_suffixes (suc fuel) s =
    let rest = drop_suffixes fuel (without ".git" (without "/" s)) in
    if has_suffix s then rest else s

unfoldable pub normalize_repo_url : String → String
normalize_repo_url url =
    let s = strip url in
    if not (truthy s) then "" else drop_suffixes (text_length (to_https s)) (to_https s)

whole-length :
    (s t : String) {rest : String}
    → str_eq s t ≡ true
    → some "" ≡ some rest
    → text_length rest + text_length t ≡ text_length s
whole-length s t {rest} e h =
    let same : s ≡ t = (eq_iff s t).0 e in
    let nothing : "" ≡ rest = ground arith in
    subst (λ u. text_length u + text_length t ≡ text_length s) nothing
      (omega (arith, ap text_length same))

-- A suffix that is taken off makes the text shorter by its length.
drop_suffix-length :
    (t s : String) {rest : String}
    → drop_suffix t s ≡ some rest
    → text_length rest + text_length t ≡ text_length s
unfolding drop_suffix
drop_suffix-length t String.[] h = elim (Bool-cases (str_eq "" t)) [
  | inl e ↦ whole-length "" t e (rw e at h)
  | inr e ↦ absurd (ground arith)
]
drop_suffix-length t (String.◌∷◌ c s) {rest} h = elim (Bool-cases (str_eq (String.◌∷◌ c s) t)) [
  | inl e ↦ whole-length (String.◌∷◌ c s) t e (rw e at h)
  | inr e ↦ elim (Option-cases (drop_suffix t s)) [
    | inl none_left ↦ absurd (ground arith)
    | inr (u, found) ↦
        let shorter : text_length u + text_length t ≡ text_length s =
          drop_suffix-length t s found in
        let front : String.◌∷◌ c u ≡ rest = ground arith in
        subst (λ x. text_length x + text_length t ≡ suc (text_length s)) front
          (omega (arith, shorter))
  ]
]

without-length :
    (t s : String)
    → (text_length (without t s) ≤ text_length s)
      × (is_some (drop_suffix t s) ≡ true
          → text_length (without t s) + text_length t ≡ text_length s)
without-length t s = elim (Option-cases (drop_suffix t s)) [
  | inl e ↦ rw e (omega arith, λ h. ground arith)
  | inr (u, e) ↦ rw e (omega (arith, drop_suffix-length t s e), λ h. drop_suffix-length t s e)
]

or_same-none : (s : String) (o : Option String) → is_some o ≡ false → or_same s o ≡ s
or_same-none s none h = refl
or_same-none s (some t) h = absurd (ground arith)

round-shorter :
    (s : String)
    → has_suffix s ≡ true
    → text_length (without ".git" (without "/" s)) < text_length s
unfolding has_suffix
round-shorter s h = elim (Bool-cases (is_some (drop_suffix "/" s))) [
  | inl slash ↦
      omega (arith, (without-length "/" s).1 slash, (without-length ".git" (without "/" s)).0)
  | inr no_slash ↦
      subst (λ u. text_length (without ".git" u) < text_length s)
        (sym (or_same-none s (drop_suffix "/" s) no_slash))
        (omega (arith, (without-length ".git" s).1 (ground arith)))
]

drop_suffixes-clean :
    (fuel : ℕ) (s : String) → text_length s ≤ fuel → has_suffix (drop_suffixes fuel s) ≡ false
unfolding drop_suffixes has_suffix drop_suffix
drop_suffixes-clean zero String.[] enough = refl
drop_suffixes-clean zero (String.◌∷◌ c s) enough = absurd (omega arith)
drop_suffixes-clean (suc fuel) s enough = elim (Bool-cases (has_suffix s)) [
  | inl h ↦
      rw h (
        drop_suffixes-clean fuel (without ".git" (without "/" s))
          (omega (arith, round-shorter s h)))
  | inr h ↦ rw h h
]

drop_suffixes-same : (fuel : ℕ) (s : String) → has_suffix s ≡ false → drop_suffixes fuel s ≡ s
unfolding drop_suffixes
drop_suffixes-same zero s clean = refl
drop_suffixes-same (suc fuel) s clean = rw clean refl

has_suffix-empty : has_suffix "" ≡ false
unfolding has_suffix drop_suffix
has_suffix-empty = refl

-- The canonical form: no space around it, HTTPS, and no suffix.
abbrev pub IsCanonical : String → Type 0
IsCanonical s = (strip s ≡ s) × (to_https s ≡ s) × (has_suffix s ≡ false)

-- The loop of the normalization ends, and what is stored ends with neither "/" nor ".git", whatever
-- was given.
pub normalize_repo_url_lem : (url : String) → has_suffix (normalize_repo_url url) ≡ false
unfolding normalize_repo_url
normalize_repo_url_lem url = elim (Bool-cases (truthy (strip url))) [
  | inl h ↦ rw h (
      drop_suffixes-clean (text_length (to_https (strip url))) (to_https (strip url)) (omega arith))
  | inr h ↦ rw h has_suffix-empty
]

-- A url that is canonical is stored as it is.
pub normalize_repo_url_canonical : (url : String) → IsCanonical url → normalize_repo_url url ≡ url
unfolding normalize_repo_url
normalize_repo_url_canonical url (stripped, https, ends) =
    let same : to_https (strip url) ≡ url = ap to_https stripped ∙ https in
    elim (Bool-cases (truthy (strip url))) [
      | inl h ↦ rw h (
          drop_suffixes-same (text_length (to_https (strip url))) (to_https (strip url))
            (ap has_suffix same ∙ ends)
          ∙ same)
      | inr h ↦
          let blank : strip url ≡ "" = (eq_iff (strip url) "").0 (ground arith) in
          rw h (sym blank ∙ stripped)
    ]
