-- ===== src/Auth/Session/Growth.antt =====
-- What the use cases of a session do to the rows of refresh_tokens, whatever calls fail.
use go_project_starter.Base.{
  Bool, not, ◌||◌, Option, none, some, List, [], ◌∷◌, ℕ, zero, suc, Bool-cases, inl, inr, arith,
  positive, Option-cases,
}
use go_project_starter.Base.Texts.{Text}
use go_project_starter.Base.Exec.{Keeps, keeps_rules, Keeps-bind}
use go_project_starter.Audit.{Entry}
use go_project_starter.Auth.Domain.User.{User}
use go_project_starter.Auth.Domain.RefreshToken.{RefreshToken, RefreshFamily}
use go_project_starter.Auth.World.{
  Env, World, new_id, new_opaque_token, record_best_effort, save_token,
}
use go_project_starter.Auth.World.Keeping.{Keeps-query, Keeps-exec}
use go_project_starter.Auth.Repository.Tokens.{
  save, is_insertable, find_by_hash, revoke_by_id_if_active, revoke_family, jtis_by_family,
  list_active_families, revoke_where, revoke_by_user_id, of_user, has_id, of_family,
}
use go_project_starter.Auth.Repository.Tokens.Laws.{
  Grows, Grows-trans, Grows-append, Grows-revoke_where,
}
use go_project_starter.Auth.Repository.Users.{find_by_id}
use go_project_starter.Auth.Command.Denylist.{deny_family}
use go_project_starter.Auth.Command.Denylist.Effects.{deny_family-Keeps}
use go_project_starter.Auth.Command.Issuer.{
  clock_now, evict, enforce_session_cap, load_roles, family_for, sign, store_token, issue_in_family,
  issue,
}
use go_project_starter.Auth.Command.Refresh.{
  revoke_session, reused, exchange, for_user, timely, present, refresh,
}
use go_project_starter.Auth.Command.SignOut.{end_session, logout_token, logout, session_revoke}

abbrev pub After : List RefreshToken → World → Type 0
After ts w = Grows ts w.tokens

module _ (env : Env) (ts : List RefreshToken) where
  save-After : (t : RefreshToken) → Keeps (After ts) (save env t)
  unfolding save
  save-After t = record {
    at = λ w h. elim (Bool-cases (env.fails save_token || not (is_insertable t w.tokens w.users))) [
      | inl e ↦ rw e h
      | inr e ↦ rw e (Grows-append ts w.tokens (t ∷ []) h)
    ];
  }

  revoked-After :
      (p : RefreshToken → Bool) (w : World)
      → After ts w
      → After ts (record w { tokens = revoke_where p w.now w.tokens })
  revoked-After p w h = Grows-trans ts w.tokens _ h (Grows-revoke_where p w.now w.tokens)

  revoke_if_active-After : (id : Text) → Keeps (After ts) (revoke_by_id_if_active env id)
  unfolding revoke_by_id_if_active
  revoke_if_active-After id = Keeps-exec env _ _ (revoked-After (has_id id))

  revoke_family-After : (f : Text) → Keeps (After ts) (revoke_family env f)
  unfolding revoke_family
  revoke_family-After f = Keeps-exec env _ _ (revoked-After (of_family f))

  find_by_hash-After : (hash : Text) → Keeps (After ts) (find_by_hash env hash)
  unfolding find_by_hash
  find_by_hash-After hash = Keeps-query env _ _

  jtis_by_family-After : (f : Text) → Keeps (After ts) (jtis_by_family env f)
  unfolding jtis_by_family
  jtis_by_family-After f = Keeps-query env _ _

  list_active_families-After : (u : Text) → Keeps (After ts) (list_active_families env u)
  unfolding list_active_families
  list_active_families-After u = Keeps-query env _ _

  find_by_id-After : (id : Text) → Keeps (After ts) (find_by_id env id)
  unfolding find_by_id
  find_by_id-After id = Keeps-query env _ _

  new_id-After : Keeps (After ts) (new_id env)
  unfolding new_id
  new_id-After = record { at = λ w h. h }

  new_opaque_token-After : Keeps (After ts) (new_opaque_token env)
  unfolding new_opaque_token
  new_opaque_token-After = record { at = λ w h. h }

  record-After : (e : Entry) → Keeps (After ts) (record_best_effort env e)
  unfolding record_best_effort
  record-After e = record { at = λ w h. ground arith }

  ruleset after_rules = (
    keeps_rules, save-After, revoke_if_active-After, revoke_family-After, find_by_hash-After,
    jtis_by_family-After, list_active_families-After, find_by_id-After, new_id-After,
    new_opaque_token-After, record-After,
  )

  deny_family-After : (f : Text) → Keeps (After ts) (deny_family env f)
  deny_family-After f = deny_family-Keeps env (λ w c h. h) f

  evict-After : (n : ℕ) (fs : List RefreshFamily) → Keeps (After ts) (evict env n fs)
  unfolding evict
  evict-After zero fs = search after_rules
  evict-After (suc n) [] = search after_rules
  evict-After (suc n) (f ∷ fs) = Keeps-bind (deny_family env f.id) _ (deny_family-After f.id) (λ _.
      Keeps-bind (revoke_family env f.id) _ (revoke_family-After f.id) (λ _. evict-After n fs))

  enforce_session_cap-After : (u : Text) → Keeps (After ts) (enforce_session_cap env u)
  unfolding enforce_session_cap
  enforce_session_cap-After u = elim (Option-cases (positive env.max_sessions)) [
    | inl e ↦ rw (e, enforce_session_cap) (search after_rules)
    | inr (cap, e) ↦ rw (e, enforce_session_cap) (search (after_rules, evict-After))
  ]

  load_roles-After : (u : Text) → Keeps (After ts) (load_roles env u)
  unfolding load_roles
  load_roles-After u = elim (Option-cases env.roles) [
    | inl e ↦ rw e (search after_rules)
    | inr (roles, e) ↦ rw e (search after_rules)
  ]

  family_for-After : (u f : Text) → Keeps (After ts) (family_for env u f)
  unfolding family_for
  family_for-After u f = search (after_rules, enforce_session_cap-After)

  store_token-After : (u f j a : Text) → Keeps (After ts) (store_token env u f j a)
  unfolding store_token clock_now
  store_token-After u f j a = search after_rules depth 9

  pub issue_in_family-After : (u f : Text) → Keeps (After ts) (issue_in_family env u f)
  unfolding issue_in_family sign
  issue_in_family-After u f =
      search (after_rules, load_roles-After, family_for-After, store_token-After)

  reused-After : (t : RefreshToken) → Keeps (After ts) (reused env t)
  unfolding reused revoke_session
  reused-After t = search (after_rules, deny_family-After)

  exchange-After : (t : RefreshToken) (u : User) → Keeps (After ts) (exchange env t u)
  unfolding exchange
  exchange-After t u = search (after_rules, issue_in_family-After, reused-After)

  for_user-After : (t : RefreshToken) (u : Option User) → Keeps (After ts) (for_user env t u)
  unfolding for_user
  for_user-After t none = search after_rules
  for_user-After t (some u) = search (after_rules, exchange-After)

  timely-After : (t : RefreshToken) → Keeps (After ts) (timely env t)
  unfolding timely clock_now
  timely-After t = search (after_rules, for_user-After) depth 9

  present-After : (t : Option RefreshToken) → Keeps (After ts) (present env t)
  unfolding present
  present-After none = search after_rules
  present-After (some t) = search (after_rules, reused-After, timely-After)

  pub refresh-After : (raw : Text) → Keeps (After ts) (refresh env raw)
  unfolding refresh
  refresh-After raw = search (after_rules, present-After)

  end_session-After : (f : Text) (e : Entry) → Keeps (After ts) (end_session env f e)
  unfolding end_session
  end_session-After f e = search (after_rules, deny_family-After)

  logout_token-After :
      (u : Text) (t : Option RefreshToken) → Keeps (After ts) (logout_token env u t)
  unfolding logout_token
  logout_token-After u none = search after_rules
  logout_token-After u (some t) = search (after_rules, end_session-After)

  pub logout-After : (u raw : Text) → Keeps (After ts) (logout env u raw)
  unfolding logout
  logout-After u raw = search (after_rules, logout_token-After)

  pub session_revoke-After : (u f : Text) → Keeps (After ts) (session_revoke env u f)
  unfolding session_revoke
  session_revoke-After u f = search (after_rules, end_session-After)

  pub issue-After : (u : Text) → Keeps (After ts) (issue env u)
  unfolding issue
  issue-After u = issue_in_family-After u []

  pub revoke_by_user_id-After : (u : Text) → Keeps (After ts) (revoke_by_user_id env u)
  unfolding revoke_by_user_id
  revoke_by_user_id-After u = Keeps-exec env _ _ (revoked-After (of_user u))
