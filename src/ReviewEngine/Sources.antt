-- ===== src/ReviewEngine/Sources.antt =====
-- Where the source of a review may come from (src/gateway/review_engine.py).
use cloglog.Base.{
  ℕ, String, ◌≡◌, refl, ◌⊎◌, inl, inr, true, Option, none, some, List, [], ◌∷◌, arith, truthy,
  is_some, Option-cases, Bool-cases, subst,
}
use cloglog.Models.{World}
use cloglog.Agent.Service.{WorktreeRow, find_by_branch, find_by_pr_url}
use cloglog.ReviewEngine.SourceRoot.{
  Host, SourceSetting, Resolved, registry_entry, or_then, existing_path, usable, registry_path,
  by_branch, registered_source, host_source, is_behind, as_is, at_head, resolve_main_clone_anchor,
  resolve_pr_review_root,
}

module _ (host : Host) (setting : SourceSetting) where
  -- The path of a worktree that is a directory here.
  abbrev IsWorktree : Option WorktreeRow → String → Type 0
  IsWorktree found c =
      (row : WorktreeRow) × (found ≡ some row) × (row.worktree_path ≡ c) × (host.is_dir c ≡ true)

  -- The registry's path for the repository, which is a repository itself.
  abbrev pub IsRegistered : String → String → Type 0
  IsRegistered repo c =
      (registry_entry setting.review_repo_roots repo ≡ some c)
      × (is_some (host.git_common_dir c) ≡ true)

  -- The worktree of the project's task with the pull request, the worktree of the project with the
  -- branch, the registry's path, or, where there is no registry, the source of the host.
  abbrev pub IsSource : World → ℕ → String → String → String → String → Type 0
  IsSource w project_id pr_url head_branch repo c =
      IsWorktree (find_by_pr_url w project_id pr_url) c
      ⊎ IsWorktree (find_by_branch w project_id head_branch) c
      ⊎ IsRegistered repo c
      ⊎ ((setting.review_repo_roots ≡ []) × (c ≡ setting.review_source_root))

  -- The source itself, with no checkout made, or the one checkout that was made, of the commit, since the
  -- source is at another one.
  abbrev pub IsRoot : String → ℕ → String → String → String → Resolved → Type 0
  IsRoot head_sha pr_number head_branch repo c root =
      (root ≡ (as_is host setting c, []))
      ⊎ ((temp : String) × (is_behind host setting (host.probe_git_head c) head_sha ≡ true)
          × (host.create_review_checkout (resolve_main_clone_anchor host setting c repo) head_sha
                pr_number head_branch
              ≡ some temp)
          × (root ≡ (
            record {
              path = temp;
              is_temp = true;
              main_clone = some (resolve_main_clone_anchor host setting c repo);
            },
            (resolve_main_clone_anchor host setting c repo, temp) ∷ [],
          )))

  or_then-cases :
      (a b : Option String) {c : String} → or_then a b ≡ some c → (a ≡ some c) ⊎ (b ≡ some c)
  or_then-cases none b h = inr h
  or_then-cases (some a) b h = inl h

  existing_path-IsWorktree :
      (found : Option WorktreeRow) {c : String}
      → existing_path host setting found ≡ some c
      → IsWorktree found c
  existing_path-IsWorktree none h = absurd (ground arith)
  existing_path-IsWorktree (some row) h = elim (Bool-cases (host.is_dir row.worktree_path)) [
    | inl e ↦ (row, refl, ground arith, ground arith)
    | inr e ↦ absurd (ground arith)
  ]

  by_branch-found :
      (w : World) (project_id : ℕ) (head_branch : String) {row : WorktreeRow}
      → by_branch host setting w project_id head_branch ≡ some row
      → find_by_branch w project_id head_branch ≡ some row
  by_branch-found w project_id head_branch h = ground arith

  usable-eq :
      (entry : Option String) {c : String}
      → usable host setting entry ≡ some c
      → (entry ≡ some c) × (is_some (host.git_common_dir c) ≡ true)
  usable-eq none h = absurd (ground arith)
  usable-eq (some path) h = elim (Bool-cases (is_some (host.git_common_dir path))) [
    | inl e ↦ (ground arith, ground arith)
    | inr e ↦ absurd (ground arith)
  ]

  host_source-eq :
      (roots : List (String × String)) {c : String}
      → host_source host setting roots ≡ some c
      → (roots ≡ []) × (c ≡ setting.review_source_root)
  host_source-eq [] h = (refl, ground arith)
  host_source-eq (r ∷ roots) h = absurd (ground arith)

  at_head-IsRoot :
      (head_sha : String) (pr_number : ℕ) (head_branch repo c : String)
      → IsRoot head_sha pr_number head_branch repo c
          (at_head host setting head_sha pr_number head_branch repo c)
  unfolding at_head
  at_head-IsRoot head_sha pr_number head_branch repo c = elim (Bool-cases (truthy head_sha)) [
    | inr e ↦ inl (rw e refl)
    | inl e ↦ elim (Bool-cases (is_behind host setting (host.probe_git_head c) head_sha)) [
      | inr k ↦ inl (rw (e, k) refl)
      | inl k ↦
          elim (Option-cases (
            host.create_review_checkout (resolve_main_clone_anchor host setting c repo) head_sha
              pr_number head_branch)) [
                | inl n ↦ inl (rw (e, k, n) refl)
                | inr (temp, n) ↦ inr (temp, k, n, rw (e, k, n) refl)
              ]
    ]
  ]

  registered_source-IsSource :
      (w : World) (project_id : ℕ) (pr_url head_branch repo : String) {c : String}
      → registered_source host setting w project_id pr_url head_branch repo ≡ some c
      → IsSource w project_id pr_url head_branch repo c
  unfolding registered_source registry_path
  registered_source-IsSource w project_id pr_url head_branch repo h =
      elim (or_then-cases (existing_path host setting (find_by_pr_url w project_id pr_url)) _ h) [
        | inl e ↦ inl (existing_path-IsWorktree _ e)
        | inr k ↦
            elim (or_then-cases
              (existing_path host setting (by_branch host setting w project_id head_branch)) _ k) [
                | inl e ↦
                    let (row, found, at, here) = existing_path-IsWorktree _ e in
                    inr (inl (row, by_branch-found w project_id head_branch found, at, here))
                | inr e ↦ inr (inr (inl (usable-eq _ e)))
              ]
      ]

  source :
      (w : World) (project_id : ℕ) (pr_url head_branch repo c : String)
      → or_then
          (registered_source host setting w project_id pr_url head_branch repo)
          (host_source host setting setting.review_repo_roots)
        ≡ some c
      → IsSource w project_id pr_url head_branch repo c
  source w project_id pr_url head_branch repo c h =
      elim (or_then-cases (registered_source host setting w project_id pr_url head_branch repo) _
        h) [
          | inl e ↦ registered_source-IsSource w project_id pr_url head_branch repo e
          | inr e ↦ inr (inr (inr (host_source-eq setting.review_repo_roots e)))
        ]

  none-ne-root : {root : Resolved} → none ≡ some root → ⊥
  none-ne-root h = cc

  root_eq : {a b : Resolved} → some a ≡ some b → a ≡ b
  root_eq h = cc

  pub registry_path-IsRegistered :
      (repo : String) {c : String} → registry_path host setting repo ≡ some c → IsRegistered repo c
  unfolding registry_path
  registry_path-IsRegistered repo h = usable-eq (registry_entry setting.review_repo_roots repo) h

  -- A pull request is reviewed against a source of its own: where a root is found, it is the worktree
  -- of the project's task with the pull request, the worktree of the project with the branch, the
  -- path that the registry has for the repository, or, where there is no registry, the source of the
  -- host; or a checkout of the head commit, where that source is at another commit, and no other checkout
  -- is made.
  pub resolve_pr_review_root_sound :
      (w : World) (project_id : ℕ) (pr_url : String) (pr_number : ℕ)
      (head_sha head_branch repo : String) (root : Resolved)
      → resolve_pr_review_root host setting w project_id pr_url pr_number head_sha head_branch repo
        ≡ some root
      → (c : String) × IsSource w project_id pr_url head_branch repo c
        × IsRoot head_sha pr_number head_branch repo c root
  unfolding resolve_pr_review_root
  resolve_pr_review_root_sound w project_id pr_url pr_number head_sha head_branch repo root h =
      elim (Option-cases (
        or_then (registered_source host setting w project_id pr_url head_branch repo)
          (host_source host setting setting.review_repo_roots))) [
            | inl e ↦ absurd (none-ne-root (rw (e, resolve_pr_review_root) at h))
            | inr (c, e) ↦ (
              c,
              source w project_id pr_url head_branch repo c e,
              subst (IsRoot head_sha pr_number head_branch repo c)
                  (root_eq (rw (e, resolve_pr_review_root) at h))
                  (at_head-IsRoot head_sha pr_number head_branch repo c),
            )
          ]
