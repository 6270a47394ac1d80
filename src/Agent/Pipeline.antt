-- ===== src/Agent/Pipeline.antt =====
-- The pipeline spec → plan → impl (`_collect_pipeline_blockers` of src/agent/services.py).
use cloglog.Base.{
  String, ◌≡◌, refl, sym, ap, ◌∙◌, inl, inr, Bool, true, false, not, ◌&&◌, ◌||◌, none, some, List,
  [], ◌∷◌, arith, str_eq, truthy?, all, select, sort_by, Bool-cases, all-sort_by,
}
use text.Mathlib.TextEquality.{eq_iff}
use cloglog.Models.{Task}
use cloglog.Agent.Service.{
  collect_pipeline_blockers, unresolved_predecessors, predecessor_type, pipeline_resolved, is_empty,
}

unresolved_predecessors-empty :
    (kind : String) (ps : List Task)
    → is_empty (unresolved_predecessors kind ps) ≡ all pipeline_resolved ps
unfolding unresolved_predecessors
unresolved_predecessors-empty kind [] = refl
unresolved_predecessors-empty kind (p ∷ ps) = ground (arith, unresolved_predecessors-empty kind ps)

all-select :
    (p q : Task → Bool) (ts : List Task) → all p (select q ts) ≡ all (λ t. not (q t) || p t) ts
all-select p q [] = refl
all-select p q (t ∷ ts) = ground (arith, all-select p q ts)

-- The types of the pipeline, and when a task of each lets the next one start.
abbrev pub comes_before : String → String → Bool
comes_before before after =
    (str_eq before "spec" && str_eq after "plan") || (str_eq before "plan" && str_eq after "impl")

abbrev pub lets_next_start : Task → Bool
lets_next_start p =
    str_eq p.status "done"
    || (str_eq p.status "review" && truthy? p.pr_url && truthy? p.artifact_path)

all-same : {p q : Task → Bool} → ((t : Task) → p t ≡ q t) → (ts : List Task) → all p ts ≡ all q ts
all-same same [] = refl
all-same same (t ∷ ts) = ground (arith, same t, all-same same ts)

module _ (t : Task) (ts : List Task) where
  collect_pipeline_blockers-eq :
      (kind : String)
      → predecessor_type t ≡ some kind
      → collect_pipeline_blockers t ts
        ≡ unresolved_predecessors kind
            (sort_by (λ p. p.number) (select (λ p. str_eq p.task_type kind) ts))
  unfolding collect_pipeline_blockers
  collect_pipeline_blockers-eq kind e = rw (e, collect_pipeline_blockers) refl

  collect_pipeline_blockers-some :
      (kind : String)
      → predecessor_type t ≡ some kind
      → is_empty (collect_pipeline_blockers t ts)
        ≡ all (λ p. not (str_eq p.task_type kind) || pipeline_resolved p) ts
  collect_pipeline_blockers-some kind e =
      ap is_empty (collect_pipeline_blockers-eq kind e)
      ∙ (unresolved_predecessors-empty kind
            (sort_by (λ p. p.number) (select (λ p. str_eq p.task_type kind) ts))
          ∙ (all-sort_by pipeline_resolved (λ p. p.number)
                (select (λ p. str_eq p.task_type kind) ts)
              ∙ all-select pipeline_resolved (λ p. str_eq p.task_type kind) ts))

  collect_pipeline_blockers-none : predecessor_type t ≡ none → collect_pipeline_blockers t ts ≡ []
  unfolding collect_pipeline_blockers
  collect_pipeline_blockers-none e = rw (e, collect_pipeline_blockers) refl

predecessor_type-plan : (t : Task) → t.task_type ≡ "plan" → predecessor_type t ≡ some "spec"
unfolding predecessor_type
predecessor_type-plan t e = rw e refl

predecessor_type-impl : (t : Task) → t.task_type ≡ "impl" → predecessor_type t ≡ some "plan"
unfolding predecessor_type
predecessor_type-impl t e = rw e refl

predecessor_type-other :
    (t : Task)
    → str_eq t.task_type "plan" ≡ false
    → str_eq t.task_type "impl" ≡ false
    → predecessor_type t ≡ none
unfolding predecessor_type
predecessor_type-other t e e' = ground arith

-- A spec or a plan in review lets the next task start when it has a pull request and an artifact.
lets_next_start-agrees :
    (kind : String) (p : Task)
    → str_eq kind "spec" || str_eq kind "plan" ≡ true
    → (not (str_eq p.task_type kind) || pipeline_resolved p)
      ≡ (not (str_eq p.task_type kind) || lets_next_start p)
unfolding pipeline_resolved
lets_next_start-agrees kind p h = elim (Bool-cases (str_eq p.task_type kind)) [
  | inl e ↦
      let same : p.task_type ≡ kind = (eq_iff p.task_type kind).0 e in rw same ground (arith, h)
  | inr e ↦ rw e refl
]

all-true : (p : Task → Bool) → ((t : Task) → p t ≡ true) → (ts : List Task) → all p ts ≡ true
all-true p h [] = refl
all-true p h (t ∷ ts) = ground (arith, h t, all-true p h ts)

-- A task of the pipeline is not blocked by it exactly when every task of the feature that comes before
-- it, a spec before a plan and a plan before an implementation, lets the next task start: it is done,
-- or it is in review with a pull request and an artifact.
pub collect_pipeline_blockers-empty :
    (t : Task) (ts : List Task)
    → is_empty (collect_pipeline_blockers t ts)
      ≡ all (λ p. not (comes_before p.task_type t.task_type) || lets_next_start p) ts
collect_pipeline_blockers-empty t ts = elim (Bool-cases (str_eq t.task_type "plan")) [
  | inl e ↦
      let plan : t.task_type ≡ "plan" = (eq_iff t.task_type "plan").0 e in
      collect_pipeline_blockers-some t ts "spec" (predecessor_type-plan t plan)
      ∙ all-same (λ p. lets_next_start-agrees "spec" p refl ∙ rw plan ground arith) ts
  | inr e ↦ elim (Bool-cases (str_eq t.task_type "impl")) [
    | inl e' ↦
        let impl : t.task_type ≡ "impl" = (eq_iff t.task_type "impl").0 e' in
        collect_pipeline_blockers-some t ts "plan" (predecessor_type-impl t impl)
        ∙ all-same (λ p. lets_next_start-agrees "plan" p refl ∙ rw impl ground arith) ts
    | inr e' ↦
        ap is_empty (collect_pipeline_blockers-none t ts (predecessor_type-other t e e'))
        ∙ sym (all-true _ (λ p. ground (arith, e, e')) ts)
  ]
]
