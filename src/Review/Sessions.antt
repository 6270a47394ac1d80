-- ===== src/Review/Sessions.antt =====
-- The two counts of the review sessions that have posted.
use cloglog.Base.{
  ℕ, String, ◌≡◌, refl, ◌∙◌, inl, inr, true, not, ◌&&◌, ◌||◌, Option, none, some, List, [], ◌∷◌,
  arith, ◌==◌, leb, str_eq, all, select, length, contains, sort_by, insert_by, Bool-cases,
  Option-cases, if◌then◌else◌,
}
use cloglog.Models.{PrReviewTurn}
use cloglog.Review.Repository.{
  posted_sessions, distinct, session_indexes, is_posted, is_counted, count_posted_codex_sessions,
  turns_of_pr,
}

same_session : (a b : ℕ) (ks : List ℕ) → (a == b) ≡ true → contains ks a ≡ contains ks b
same_session a b [] e = refl
same_session a b (k ∷ ks) e = ground (arith, same_session a b ks)

-- The number of distinct values does not depend on the order.
distinct-swap :
    (a b : ℕ) (ks : List ℕ) → length (distinct (a ∷ b ∷ ks)) ≡ length (distinct (b ∷ a ∷ ks))
unfolding distinct
distinct-swap a b ks = ground (arith, same_session a b ks, same_session b a ks)

-- The session of a turn that has posted.
abbrev posted_index : PrReviewTurn → Option ℕ
posted_index t = if is_posted t then t.session_index else none

-- The values that are there.
abbrev values : {A : Type 0} → (A → Option ℕ) → List A → List ℕ
values f [] = []
values f (x ∷ xs) = elim (f x) [ none ↦ values f xs | some k ↦ k ∷ values f xs ]

contains-values-insert_by :
    {A : Type 0} (f : A → Option ℕ) (key : A → ℕ) (x : A) (xs : List A) (k : ℕ)
    → contains (values f (insert_by key x xs)) k ≡ contains (values f (x ∷ xs)) k
contains-values-insert_by f key x [] k = refl
contains-values-insert_by f key x (y ∷ ys) k =
    ground (arith, contains-values-insert_by f key x ys k)

distinct-cons :
    (k : ℕ) (ks js : List ℕ)
    → contains ks k ≡ contains js k
    → length (distinct ks) ≡ length (distinct js)
    → length (distinct (k ∷ ks)) ≡ length (distinct (k ∷ js))
unfolding distinct
distinct-cons k ks js same lengths = ground arith

-- One step of an insertion.
insert_by-step :
    {A : Type 0} (f : A → Option ℕ) (key : A → ℕ) (x y : A) (ys : List A)
    → length (distinct (values f (insert_by key x ys))) ≡ length (distinct (values f (x ∷ ys)))
    → length (distinct (values f (y ∷ insert_by key x ys)))
      ≡ length (distinct (values f (x ∷ y ∷ ys)))
insert_by-step f key x y ys ih = elim (Option-cases (f y)) [
  | inl e ↦ ground arith
  | inr (k, e) ↦ elim (Option-cases (f x)) [
    | inl e' ↦
        let c =
          distinct-cons k (values f (insert_by key x ys)) (values f (x ∷ ys))
            (contains-values-insert_by f key x ys k) ih in
        ground arith
    | inr (j, e') ↦
        let c =
          distinct-cons k (values f (insert_by key x ys)) (values f (x ∷ ys))
            (contains-values-insert_by f key x ys k) ih in
        ground (arith, distinct-swap k j (values f ys))
  ]
]

distinct-insert_by :
    {A : Type 0} (f : A → Option ℕ) (key : A → ℕ) (x : A) (xs : List A)
    → length (distinct (values f (insert_by key x xs))) ≡ length (distinct (values f (x ∷ xs)))
distinct-insert_by f key x [] = refl
distinct-insert_by f key x (y ∷ ys) = elim (Bool-cases (leb (key x) (key y))) [
  | inl e ↦ rw e refl
  | inr e ↦ rw e (insert_by-step f key x y ys (distinct-insert_by f key x ys))
]

contains-values-sort_by :
    {A : Type 0} (f : A → Option ℕ) (key : A → ℕ) (xs : List A) (k : ℕ)
    → contains (values f (sort_by key xs)) k ≡ contains (values f xs) k
contains-values-sort_by f key [] k = refl
contains-values-sort_by f key (x ∷ xs) k =
    contains-values-insert_by f key x (sort_by key xs) k
    ∙ ground (arith, contains-values-sort_by f key xs k)

distinct-sort_by :
    {A : Type 0} (f : A → Option ℕ) (key : A → ℕ) (xs : List A)
    → length (distinct (values f (sort_by key xs))) ≡ length (distinct (values f xs))
distinct-sort_by f key [] = refl
distinct-sort_by f key (x ∷ xs) =
    distinct-insert_by f key x (sort_by key xs) ∙ elim (Option-cases (f x)) [
      | inl e ↦ ground (arith, distinct-sort_by f key xs)
      | inr (k, e) ↦
          let c =
            distinct-cons k (values f (sort_by key xs)) (values f xs)
              (contains-values-sort_by f key xs k) (distinct-sort_by f key xs) in
          ground arith
    ]

posted_sessions-values :
    (turns : List PrReviewTurn)
    → session_indexes (select is_posted turns) ≡ values posted_index turns
unfolding session_indexes
posted_sessions-values [] = refl
posted_sessions-values (t ∷ ts) = ground (arith, posted_sessions-values ts)

-- Whether a turn is of the pull request and of the codex stage; the two counts disagree only on the
-- projects.
counted-values :
    (p : ℕ) (url : String) (turns : List PrReviewTurn)
    → all (λ t. not (str_eq t.pr_url url) || t.project_id == p) turns ≡ true
    → session_indexes (select (is_counted url) turns)
      ≡ values posted_index
          (select (λ t. str_eq t.pr_url url && (t.project_id == p && str_eq t.stage "codex")) turns)
unfolding session_indexes
counted-values p url [] h = refl
counted-values p url (t ∷ ts) h = ground (arith, counted-values p url ts)

-- Where all turns of a pull request are of one project, the count by which its status is derived is the
-- count by which the review loop stops (`count_posted_codex_sessions`).
posted_sessions-agree :
    (p : ℕ) (url : String) (turns : List PrReviewTurn)
    → all (λ t. not (str_eq t.pr_url url) || t.project_id == p) turns ≡ true
    → posted_sessions (turns_of_pr p url turns) ≡ count_posted_codex_sessions url turns
unfolding posted_sessions count_posted_codex_sessions turns_of_pr
posted_sessions-agree p url turns h =
    rw (posted_sessions-values, counted-values p url turns h)
      (distinct-sort_by posted_index (λ t. t.created_at)
        (select (λ t. str_eq t.pr_url url && (t.project_id == p && str_eq t.stage "codex")) turns))
