-- ===== src/Gateway/Credentials.antt =====
-- What a request that a dependency lets pass has shown (src/gateway/auth.py).
use cloglog.Base.{
  ap, ◌∙◌, ℕ, String, ◌≡◌, refl, ◌⊎◌, inl, inr, Bool, true, false, not, str_eq, truthy, subst, sym,
  find-eq-some, Option, none, some, arith, truthy?, ◌==◌, ==_iff, Option-cases, Bool-cases,
}
use text.Mathlib.TextEquality.{eq_iff}
use cloglog.Models.{World, Project, Worktree}
use cloglog.Action.{ok}
use cloglog.Board.Service.{verify_api_key}
use cloglog.Agent.Repository.{get_worktree, get_worktree_by_token_hash}
use cloglog.Gateway.Outcome.{
  refuse_if, returned, required, of_result, >>=-returned, required-returned, refuse_if-returned,
  of_result-returned,
}
use cloglog.Gateway.Auth.{
  HttpRequest, AuthSetting, extract_bearer_token, token_or_empty, check_digest, check_path,
  target_of, project_or_own, project_target, own_token, get_current_project, get_current_agent,
  get_mcp_or_project, get_supervisor_auth,
}

-- `hmac.compare_digest` answers true for equal texts only, and the empty text is no UUID.
pub record IsSound (c : AuthSetting) : Type 0 where
  pub compares : (a b : String) → c.compare_digest a b ≡ some true → a ≡ b
  pub not_empty : c.uuid_of "" ≡ none

not-eq_false : {b : Bool} → not b ≡ false → b ≡ true
not-eq_false {b} h = ground arith

returned-eq : {A : Type 0} {a b : A} → returned a ≡ returned b → a ≡ b
returned-eq h = cc

module _ (c : AuthSetting) (q : HttpRequest) where
  -- The MCP service's key, under the header of MCP requests.
  abbrev pub IsMcp : Type 0
  IsMcp =
      (truthy? q.x_mcp_request ≡ true)
      × (token_or_empty (extract_bearer_token q) ≡ c.mcp_service_key)

  -- The API key of a project of the table.
  abbrev pub IsKeyOf : World → Project → Type 0
  IsKeyOf w p =
      (token : String) × (token_or_empty (extract_bearer_token q) ≡ token)
      × ((verify_api_key c.hexdigest token w).0 ≡ ok (some p))

  -- The token of the agent of a worktree of the table.
  abbrev pub IsTokenOf : World → Worktree → Type 0
  IsTokenOf w v =
      (token : String) × (token_or_empty (extract_bearer_token q) ≡ token)
      × ((get_worktree_by_token_hash (c.hexdigest token) w).0 ≡ ok (some v))

  -- The worktree that the path names.
  abbrev pub IsPath : ℕ → Type 0
  IsPath k = (param : String) × (q.worktree_id ≡ some param) × (c.uuid_of param ≡ some k)

  pub get_current_project_shows :
      (w : World) (p : Project) → get_current_project c q w ≡ returned p → IsKeyOf w p
  unfolding get_current_project
  get_current_project_shows w p h =
      let (token, t, h1) = >>=-returned (required 401 (extract_bearer_token q)) _ h in
      let (row, r, h2) = >>=-returned (of_result (verify_api_key c.hexdigest token w)) _ h1 in
      (
        token,
        ap token_or_empty (required-returned 401 (extract_bearer_token q) t),
        of_result-returned _ r ∙ ap ok (required-returned 401 row h2),
      )

  check_digest-eq :
      (status : ℕ) (a b : String) {u : Unit {0}}
      → IsSound c
      → check_digest c status a b ≡ returned u
      → a ≡ b
  unfolding check_digest
  check_digest-eq status a b sound h = elim (Option-cases (c.compare_digest a b)) [
    | inl e ↦ absurd (ground arith)
    | inr (same, e) ↦ sound.compares a b (
        e
        ∙ ap some (not-eq_false (refuse_if-returned status (not same) (rw (e, check_digest) at h))))
  ]

  pub check_path-eq :
      (v : Worktree) (k : ℕ) {u : Unit {0}}
      → IsSound c
      → IsPath k
      → check_path c q v ≡ returned u
      → k ≡ v.id
  unfolding check_path
  check_path-eq v k sound (param, named, read) h = elim (Bool-cases (str_eq param "")) [
    | inl e ↦ absurd (ground (arith, sound.not_empty, ap c.uuid_of ((eq_iff param "").0 e)))
    | inr e ↦ ground arith
  ]

  -- The agent is the one that the path names, if it names one.
  pub get_current_agent_shows :
      (w : World) (v : Worktree)
      → get_current_agent c q w ≡ returned v
      → IsTokenOf w v × (check_path c q v ≡ returned tt)
  unfolding get_current_agent
  get_current_agent_shows w v h =
      let (token, t, h1) = >>=-returned (required 401 (extract_bearer_token q)) _ h in
      let (row, r, h2) =
        >>=-returned (of_result (get_worktree_by_token_hash (c.hexdigest token) w)) _ h1 in
      let (worktree, f, h3) = >>=-returned (required 401 row) _ h2 in
      let (u, checked, h4) = >>=-returned (check_path c q worktree) _ h3 in
      let same = returned-eq h4 in
      (
        (
          token,
          ap token_or_empty (required-returned 401 (extract_bearer_token q) t),
          of_result-returned _ r ∙ ap ok (required-returned 401 row f ∙ ap some same),
        ),
        subst (λ x. check_path c q x ≡ returned tt) same checked,
      )

  -- The MCP service, or the key of the project that is the caller.
  pub get_mcp_or_project_shows :
      (w : World) (caller : Option Project)
      → IsSound c
      → get_mcp_or_project c q w ≡ returned caller
      → IsMcp ⊎ ((p : Project) × (caller ≡ some p) × IsKeyOf w p)
  unfolding get_mcp_or_project
  get_mcp_or_project_shows w caller sound h =
      let token : String = token_or_empty (extract_bearer_token q) in
      let (u, full, h1) = >>=-returned (refuse_if 401 (not (truthy token))) _ h in
      elim (Bool-cases (truthy? q.x_mcp_request)) [
        | inl mcp ↦
            let (v, same, h2) =
              >>=-returned (check_digest c 401 token c.mcp_service_key) _ (rw mcp at h1) in
            inl (mcp, check_digest-eq 401 token c.mcp_service_key sound same)
        | inr no_mcp ↦
            let (row, r, h2) =
              >>=-returned (of_result (verify_api_key c.hexdigest token w)) _ (rw no_mcp at h1) in
            let (p, f, h3) = >>=-returned (required 401 row) _ h2 in
            inr (
              p,
              sym (returned-eq h3),
              (token, refl, of_result-returned _ r ∙ ap ok (required-returned 401 row f)),
            )
      ]

  target_of-returned :
      (param : String) {k : ℕ} → target_of c param ≡ returned k → c.uuid_of param ≡ some k
  target_of-returned param h = elim (Option-cases (c.uuid_of param)) [
    | inl e ↦ absurd (ground arith)
    | inr (k, e) ↦ ground arith
  ]

  -- The supervisor's credentials for the worktree: the MCP service, the key of its project, or its own
  -- token.
  abbrev pub IsSupervisor : World → Worktree → Type 0
  IsSupervisor w v = IsMcp ⊎ ((p : Project) × (v.project_id ≡ p.id) × IsKeyOf w p) ⊎ IsTokenOf w v

  get_worktree-id : (w : World) (k : ℕ) {v : Worktree} → get_worktree w k ≡ some v → v.id ≡ k
  unfolding get_worktree
  get_worktree-id w k {v} h = (==_iff v.id k).0 (find-eq-some (λ x. x.id == k) w.worktrees h)

  -- The API key of a project, or an agent's own token.
  project_or_own_shows :
      (w : World) (v : Worktree) (k : ℕ) (token : String) (project : Option Project)
      → token_or_empty (extract_bearer_token q) ≡ token
      → (verify_api_key c.hexdigest token w).0 ≡ ok project
      → project_or_own c k token project w ≡ returned v
      → (v.id ≡ k) × IsSupervisor w v
  unfolding project_target own_token
  project_or_own_shows w v k token none t verified h =
      let (row, r, h1) =
        >>=-returned (of_result (get_worktree_by_token_hash (c.hexdigest token) w)) _ h in
      let (worktree, f, h2) = >>=-returned (required 401 row) _ h1 in
      let (u, own, h3) = >>=-returned (refuse_if 401 (not (worktree.id == k))) _ h2 in
      let same = returned-eq h3 in
      (
        (==_iff v.id k).0
            (subst (λ x. (x.id == k) ≡ true) same (not-eq_false (refuse_if-returned 401 _ own))),
        inr (
            inr (
              token,
              t,
              of_result-returned _ r ∙ ap ok (required-returned 401 row f ∙ ap some same),
            )),
      )
  project_or_own_shows w v k token (some p) t verified h =
      let (worktree, f, h1) = >>=-returned (required 404 (get_worktree w k)) _ h in
      let (u, owned, h2) = >>=-returned (refuse_if 403 (not (worktree.project_id == p.id))) _ h1 in
      let same = returned-eq h2 in
      (
        get_worktree-id w k (required-returned 404 _ f ∙ ap some same),
        inr (
            inl (
              p,
              (==_iff v.project_id p.id).0 (
                  subst (λ x. (x.project_id == p.id) ≡ true) same
                    (not-eq_false (refuse_if-returned 403 _ owned))),
              (token, t, verified),
            )),
      )

  -- The worktree is the one that the path names, and the credentials are a supervisor's.
  pub get_supervisor_auth_shows :
      (w : World) (v : Worktree)
      → IsSound c
      → get_supervisor_auth c q w ≡ returned v
      → IsPath v.id × IsSupervisor w v
  unfolding get_supervisor_auth
  get_supervisor_auth_shows w v sound h =
      let (param, named, h1) = >>=-returned (required 400 q.worktree_id) _ h in
      let (target, read, h2) = >>=-returned (target_of c param) _ h1 in
      let at : IsPath target =
        (param, required-returned 400 q.worktree_id named, target_of-returned param read) in
      elim (Bool-cases (truthy? q.x_mcp_request)) [
        | inl mcp ↦
            let (u, full, h3) =
              >>=-returned (refuse_if 401 (not (truthy? (extract_bearer_token q)))) _
                (rw mcp at h2) in
            let (u', same, h4) =
              >>=-returned
                (check_digest c 401 (token_or_empty (extract_bearer_token q)) c.mcp_service_key) _
                h3 in
            (
              subst IsPath (sym (get_worktree-id w target (required-returned 404 _ h4))) at,
              inl (mcp, check_digest-eq 401 _ c.mcp_service_key sound same),
            )
        | inr no_mcp ↦
            let (token, t, h3) =
              >>=-returned (required 401 (extract_bearer_token q)) _ (rw no_mcp at h2) in
            let (project, r, h4) =
              >>=-returned (of_result (verify_api_key c.hexdigest token w)) _ h3 in
            let (own, who) =
              project_or_own_shows w v target token project
                (ap token_or_empty (required-returned 401 _ t)) (of_result-returned _ r) h4 in
            (subst IsPath (sym own) at, who)
      ]
