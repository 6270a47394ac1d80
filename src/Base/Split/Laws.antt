-- ===== src/Base/Split/Laws.antt =====
-- `str.split` and `str.join` with a separator whose first character does not come again in it: each is
-- the other's inverse.
use Prim.Native.Nat.{ℕ, zero, suc, ◌≤◌, ◌<◌}
use Prim.Native.Char.{Char, code}
use Prim.Native.String.{String}
use mathlib.Core.Path.{◌≡◌, refl, sym, ap, ◌∙◌, subst}
use mathlib.Core.Logic.{inl, inr}
use mathlib.Core.Bool.{true, false}
use mathlib.Core.List.{List, [], ◌∷◌}
use mathlib.Core.Option.{Option, none, some}
use native.Mathlib.Omega.{arith}
use cloglog.Base.Tests.{◌==◌, Option-cases}
use cloglog.Base.Lists.{all, length}
use cloglog.Base.Texts.{drop_prefix, append_text, join_by, text_length}
use cloglog.Base.Split.{put_first, cut, split_within, split}
use cloglog.Base.Split.Prefixes.{
  is_free, lacks, drop_prefix-append, drop_prefix_self, drop_prefix-parts, drop_prefix-straddle,
  text_length-append, text_length-drop_prefix,
}

-- The separators of this module: a character, and behind it a text without it.
module _ (h : Char) (m : String) (once : lacks h m ≡ true) where
  abbrev sep : String
  sep = String.◌∷◌ h m

  some_pair :
      {x y a b : String}
      → ◌≡◌ {A = Option (String × String)} (some (x, y)) (some (a, b))
      → (x ≡ a) × (y ≡ b)
  some_pair e = (cc, cc)

  parts_of :
      {s x y a b : String}
      → (x ≡ a) × (y ≡ b)
      → s ≡ append_text x (append_text sep y)
      → s ≡ append_text a (append_text sep b)
  parts_of (p, q) e = e ∙ cc

  straddle :
      (c : Char) (a rest : String)
      → drop_prefix sep (String.◌∷◌ c a) ≡ none
      → drop_prefix sep (String.◌∷◌ c (append_text a (String.◌∷◌ h rest))) ≡ none
  unfolding drop_prefix append_text
  straddle c a rest p = ground (arith, drop_prefix-straddle h m a rest once)

  cut-here :
      (c : Char) (s : String) {t : String}
      → drop_prefix sep (String.◌∷◌ c s) ≡ some t
      → cut sep (String.◌∷◌ c s) ≡ some ("", t)
  unfolding cut
  cut-here c s p = rw (p, cut) refl

  cut-later :
      (c : Char) (s : String)
      → drop_prefix sep (String.◌∷◌ c s) ≡ none
      → cut sep (String.◌∷◌ c s) ≡ put_first c (cut sep s)
  unfolding cut
  cut-later c s p = rw (p, cut) refl

  cut-parts :
      (s : String) {a b : String} → cut sep s ≡ some (a, b) → s ≡ append_text a (append_text sep b)
  unfolding cut append_text
  cut-parts String.[] e = absurd (ground arith)
  cut-parts (String.◌∷◌ c s) {a} {b} e = elim (Option-cases (drop_prefix sep (String.◌∷◌ c s))) [
    | inr (t, p) ↦
        parts_of (some_pair (sym (cut-here c s p) ∙ e))
          (drop_prefix-parts sep (String.◌∷◌ c s) {t = t} p)
    | inl p ↦ elim (Option-cases (cut sep s)) [
      | inl n ↦ absurd (ground (arith, cut-later c s p))
      | inr ((a', b'), n) ↦
          parts_of (some_pair (sym (cut-later c s p ∙ ap (put_first c) n) ∙ e))
            (ap (String.◌∷◌ c) (cut-parts s {a = a'} {b = b'} n))
    ]
  ]

  -- A separator behind a text without one is the first.
  pub cut-append :
      (a b : String) → cut sep a ≡ none → cut sep (append_text a (append_text sep b)) ≡ some (a, b)
  unfolding append_text
  cut-append String.[] b e = cut-here h (append_text m b) (drop_prefix_self sep b)
  cut-append (String.◌∷◌ c a) b e = elim (Option-cases (drop_prefix sep (String.◌∷◌ c a))) [
    | inr (t, p) ↦ absurd (ground (arith, cut-here c a p))
    | inl p ↦ elim (Option-cases (cut sep a)) [
      | inr (n, q) ↦ absurd (ground (arith, cut-later c a p))
      | inl q ↦
          let rest = append_text m b in
          cut-later c (append_text a (String.◌∷◌ h rest)) (straddle c a rest p)
          ∙ ap (put_first c) (cut-append a b q)
    ]
  ]

  some-ne-none : {x : String} → some x ≡ none → ⊥
  some-ne-none e = cc

  shorter :
      (c : Char) (s : String) {t : String}
      → drop_prefix sep (String.◌∷◌ c s) ≡ some t
      → text_length t < suc (text_length s)
  unfolding drop_prefix
  shorter c s {t} p = ground (arith, text_length-drop_prefix m s {t = t})

  -- What is no prefix of a text is no prefix of a part of it.
  stays :
      (c : Char) (s : String) {a b : String}
      → drop_prefix sep (String.◌∷◌ c s) ≡ none
      → cut sep s ≡ some (a, b)
      → drop_prefix sep (String.◌∷◌ c a) ≡ none
  unfolding append_text
  stays c s {a} {b} p e = elim (Option-cases (drop_prefix sep (String.◌∷◌ c a))) [
    | inl n ↦ n
    | inr (t, n) ↦ absurd (
        some-ne-none (
          sym (drop_prefix-append sep (String.◌∷◌ c a) (append_text sep b) n)
          ∙ (ap (λ r. drop_prefix sep (String.◌∷◌ c r)) (sym (cut-parts s e)) ∙ p)))
  ]

  pair-ne-none : {r : String × String} → some r ≡ none → ⊥
  pair-ne-none e = cc

  put_first-none : (c : Char) (o : Option (String × String)) → put_first c o ≡ none → o ≡ none
  put_first-none c none e = refl
  put_first-none c (some r) e = absurd (cc)

  -- The separator does not start with another character than its first.
  other :
      (c : Char) (s : String) → (code h == code c) ≡ false → drop_prefix sep (String.◌∷◌ c s) ≡ none
  unfolding drop_prefix
  other c s n = rw n refl

  pub free_none : (p : String) → is_free sep p ≡ true → cut sep p ≡ none
  free_none p free = elim (Option-cases (cut sep p)) [
    | inl e ↦ e
    | inr (r, e) ↦ absurd (ground arith)
  ]

  -- The first part has no separator, and the second is shorter than the whole.
  cut-shorter :
      (s : String) {a b : String}
      → cut sep s ≡ some (a, b)
      → (cut sep a ≡ none) × (text_length b < text_length s)
  unfolding cut
  cut-shorter String.[] e = absurd (ground arith)
  cut-shorter (String.◌∷◌ c s) {a} {b} e = elim (Option-cases (drop_prefix sep (String.◌∷◌ c s))) [
    | inr (t, p) ↦
        let (x, y) = some_pair (sym (cut-here c s p) ∙ e) in
        (ap (cut sep) (sym x), subst (λ r. text_length r < suc (text_length s)) y (shorter c s p))
    | inl p ↦ elim (Option-cases (cut sep s)) [
      | inl n ↦ absurd (ground (arith, cut-later c s p))
      | inr ((a', b'), n) ↦
          let (x, y) = some_pair (sym (cut-later c s p ∙ ap (put_first c) n) ∙ e) in
          let (free, less) = cut-shorter s {a = a'} {b = b'} n in
          (
            ap (cut sep) (sym x) ∙ (cut-later c a' (stays c s p n) ∙ ap (put_first c) free),
            subst (λ r. text_length r < suc (text_length s)) y (omega (arith, less)),
          )
    ]
  ]

  split_within-free :
      (n : ℕ) (s : String) → text_length s ≤ n → all (is_free sep) (split_within n sep s) ≡ true
  unfolding split_within cut
  split_within-free zero String.[] l = refl
  split_within-free zero (String.◌∷◌ c s) l = absurd (omega arith)
  split_within-free (suc n) s l = elim (Option-cases (cut sep s)) [
    | inl e ↦ rw (e, split_within) (ground (arith, e))
    | inr ((a, b), e) ↦
        let (free, less) = cut-shorter s e in
        rw (e, split_within) (ground (arith, free, split_within-free n b))
  ]

  split_within-join :
      (n : ℕ) (p : String) (ps : List String)
      → length ps ≤ n
      → all (is_free sep) (p ∷ ps) ≡ true
      → split_within n sep (join_by sep (p ∷ ps)) ≡ p ∷ ps
  unfolding split_within join_by
  split_within-join zero p [] l free = refl
  split_within-join zero p (q ∷ qs) l free = absurd (omega arith)
  split_within-join (suc n) p [] l free = rw (free_none p (ground arith), split_within) refl
  split_within-join (suc n) p (q ∷ qs) l free =
      rw (cut-append p (join_by sep (q ∷ qs)) (free_none p (ground arith)), split_within)
        (ap (λ r. p ∷ r) (split_within-join n q qs (omega arith) (ground arith)))

  length-le-join : (p : String) (ps : List String) → length ps ≤ text_length (join_by sep (p ∷ ps))
  unfolding join_by append_text
  length-le-join p [] = omega arith
  length-le-join p (q ∷ qs) = omega (
    arith,
    text_length-append p (append_text sep (join_by sep (q ∷ qs))),
    text_length-append m (join_by sep (q ∷ qs)),
    length-le-join q qs,
  )

  pub split-free : (s : String) → all (is_free sep) (split sep s) ≡ true
  unfolding split
  split-free s = split_within-free (text_length s) s (omega arith)

  pub split-join :
      (p : String) (ps : List String)
      → all (is_free sep) (p ∷ ps) ≡ true
      → split sep (join_by sep (p ∷ ps)) ≡ p ∷ ps
  unfolding split
  split-join p ps free =
      split_within-join (text_length (join_by sep (p ∷ ps))) p ps (length-le-join p ps) free

  -- A part at the start of a text without a separator has none, and nothing that lacks the separator's
  -- character brings one in.
  pub free-start : (a b : String) → cut sep (append_text a b) ≡ none → cut sep a ≡ none
  unfolding append_text cut
  free-start String.[] b e = refl
  free-start (String.◌∷◌ c a) b e =
      elim (Option-cases (drop_prefix sep (String.◌∷◌ c (append_text a b)))) [
        | inr (t, p) ↦ absurd (pair-ne-none (sym (cut-here c (append_text a b) p) ∙ e))
        | inl p ↦ elim (Option-cases (drop_prefix sep (String.◌∷◌ c a))) [
          | inr (t, q) ↦
              absurd (some-ne-none (sym (drop_prefix-append sep (String.◌∷◌ c a) b q) ∙ p))
          | inl q ↦
              let rest = free-start a b (put_first-none c _ (sym (cut-later c _ p) ∙ e)) in
              cut-later c a q ∙ ap (put_first c) rest
        ]
      ]

  pub free-behind :
      (a b : String) → lacks h a ≡ true → cut sep b ≡ none → cut sep (append_text a b) ≡ none
  unfolding append_text
  free-behind String.[] b l e = e
  free-behind (String.◌∷◌ c a) b l e =
      cut-later c (append_text a b) (other c (append_text a b) (ground arith))
      ∙ ap (put_first c) (free-behind a b (ground arith) e)

  pub free-end : (a b : String) → cut sep (append_text a b) ≡ none → cut sep b ≡ none
  unfolding append_text
  free-end String.[] b e = e
  free-end (String.◌∷◌ c a) b e =
      elim (Option-cases (drop_prefix sep (String.◌∷◌ c (append_text a b)))) [
        | inr (t, p) ↦ absurd (pair-ne-none (sym (cut-here c (append_text a b) p) ∙ e))
        | inl p ↦ free-end a b (put_first-none c _ (sym (cut-later c _ p) ∙ e))
      ]
