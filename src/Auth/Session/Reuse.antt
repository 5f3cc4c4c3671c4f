-- ===== src/Auth/Session/Reuse.antt =====
-- What a failed exchange leaves behind.
use go_project_starter.Base.{
  ℕ, ◌+◌, ◌≤◌, true, false, some, ◌≡◌, ◌⊎◌, refl, ◌∙◌, ap, arith, All, Bool-cases, inl, inr,
}
use go_project_starter.Base.Texts.{Text, is_empty, trim_space}
use go_project_starter.Base.Exec.{Result, ok, err, pure, raise, best_effort, ◌>>=◌, bind_known}
use go_project_starter.Apierr.{Err, unauthorized, backend}
use go_project_starter.Auth.Domain.RefreshToken.{RefreshToken, is_revoked}
use go_project_starter.Auth.World
use go_project_starter.Auth.World.{Env, World, query, exec}
use go_project_starter.Auth.Repository.Tokens
use go_project_starter.Auth.Repository.Tokens.{
  find_by_hash, token_by_hash, revoke_where, of_family, jtis_where,
}
use go_project_starter.Auth.Repository.Tokens.Laws.{IsEnded, revoke_where-IsEnded}
use go_project_starter.Auth.Command.Denylist.{deny_family}
use go_project_starter.Auth.Command.Denylist.Effects.{
  deny_family-Keeps, IsDenied, CanDeny, deny_family_denies,
}
use go_project_starter.Auth.Command.Refresh.{revoke_session, reused, present, refresh}

module _ (env : Env) (family_id : Text) (w : World) where
  -- The world after the denial: only the cache may differ.
  abbrev pub denied : World
  denied = (deny_family env family_id w).1

  pub tokens_denied : denied.tokens ≡ w.tokens
  tokens_denied =
      (deny_family-Keeps env {P = λ v. v.tokens ≡ w.tokens} (λ v c h. h) family_id).at w refl

  pub now_denied : denied.now ≡ w.now
  now_denied = (deny_family-Keeps env {P = λ v. v.now ≡ w.now} (λ v c h. h) family_id).at w refl

  pub deny_family_returns : deny_family env family_id w ≡ (ok tt, denied)
  unfolding deny_family best_effort
  deny_family_returns = refl

-- The world that ending a session leaves, when its two calls are made.
abbrev pub ended_world : Env → Text → World → World
ended_world env family_id w =
    let v = denied env family_id w in
    record v { tokens = revoke_where (of_family family_id) v.now v.tokens }

pub ended_world-IsEnded :
    (env : Env) (family_id : Text) (w : World)
    → IsEnded family_id (ended_world env family_id w).tokens
ended_world-IsEnded env family_id w =
    let v = denied env family_id w in revoke_where-IsEnded family_id v.now v.tokens

-- The write to the table, when it does not fail.
pub revoke_family_runs :
    (env : Env) (family_id : Text) (v : World)
    → env.fails (World.revoke_family family_id) ≡ false
    → Tokens.revoke_family env family_id v
      ≡ (ok tt, record v { tokens = revoke_where (of_family family_id) v.now v.tokens })
unfolding Tokens.revoke_family exec
revoke_family_runs env family_id v writes = ground arith

-- `revokeFamily` of a named session, when the write to the table does not fail.
revoke_session_runs :
    (env : Env) (family_id : Text) (w : World)
    → is_empty family_id ≡ false
    → env.fails (World.revoke_family family_id) ≡ false
    → revoke_session env family_id w ≡ (ok tt, ended_world env family_id w)
unfolding revoke_session best_effort
revoke_session_runs env family_id w named writes = rw named (
    bind_known (deny_family env family_id) _ w tt (denied env family_id w)
      (deny_family_returns env family_id w)
    ∙ ap (λ (p : Result Unit × World). (ok tt, p.1))
        (revoke_family_runs env family_id (denied env family_id w) writes))

reused_runs :
    (env : Env) (t : RefreshToken) (w : World)
    → is_empty t.family_id ≡ false
    → env.fails (World.revoke_family t.family_id) ≡ false
    → reused env t w ≡ (err unauthorized, ended_world env t.family_id w)
unfolding reused raise
reused_runs env t w named writes =
    bind_known (revoke_session env t.family_id) _ w tt (ended_world env t.family_id w)
      (revoke_session_runs env t.family_id w named writes)

refresh_of_revoked :
    (env : Env) (raw : Text) (w : World) (t : RefreshToken)
    → is_empty (trim_space raw) ≡ false
    → env.fails World.find_by_hash ≡ false
    → token_by_hash (env.hashes.hash_secret (trim_space raw)) w.tokens ≡ some t
    → is_revoked t ≡ true
    → refresh env raw w ≡ reused env t w
unfolding refresh find_by_hash query present ◌>>=◌
refresh_of_revoked env raw w t given reads found revoked = ground arith

-- What an attempt to reuse a token may leave of the table: the rows as they were, or the session of
-- the token revoked.
abbrev pub IsContained : RefreshToken → (w v : World) → Type 0
IsContained t w v =
    (v.tokens ≡ w.tokens) ⊎ (v.tokens ≡ revoke_where (of_family t.family_id) w.now w.tokens)

ended-or-kept :
    (env : Env) (f : Text) (w : World)
    → ((best_effort (Tokens.revoke_family env f) (denied env f w)).1.tokens ≡ w.tokens)
      ⊎ ((best_effort (Tokens.revoke_family env f) (denied env f w)).1.tokens
          ≡ revoke_where (of_family f) w.now w.tokens)
unfolding best_effort Tokens.revoke_family exec
ended-or-kept env f w = elim (Bool-cases (env.fails (World.revoke_family f))) [
  | inl failing ↦ inl (rw failing (tokens_denied env f w))
  | inr working ↦ inr (rw (working, now_denied env f w, tokens_denied env f w) refl)
]

reused-IsContained :
    (env : Env) (t : RefreshToken) (w : World)
    → ((reused env t w).0 ≡ err unauthorized) × IsContained t w (reused env t w).1
unfolding reused revoke_session raise pure deny_family ◌>>=◌
reused-IsContained env t w = elim (Bool-cases (is_empty t.family_id)) [
  | inl nameless ↦ rw nameless (refl, inl refl)
  | inr named ↦ rw named (refl, ended-or-kept env t.family_id w)
]

-- Presenting a token that is stored as revoked never gives tokens, whatever calls fail: the answer
-- is an error, and the table is as it was, or with the session of the token revoked.
pub reuse_is_refused :
    (env : Env) (raw : Text) (w : World) (t : RefreshToken)
    → token_by_hash (env.hashes.hash_secret (trim_space raw)) w.tokens ≡ some t
    → is_revoked t ≡ true
    → (e : Err) × ((refresh env raw w).0 ≡ err e) × IsContained t w (refresh env raw w).1
unfolding refresh raise
reuse_is_refused env raw w t found revoked = elim (Bool-cases (is_empty (trim_space raw))) [
  | inl blank ↦ refusal unauthorized (rw blank (refl, inl refl))
  | inr given ↦ elim (Bool-cases (env.fails World.find_by_hash)) [
    | inl failing ↦
        refusal backend (unfold find_by_hash query ◌>>=◌ in rw (given, failing) (refl, inl refl))
    | inr reads ↦
        refusal unauthorized (
          rw (refresh_of_revoked env raw w t given reads found revoked)
            (reused-IsContained env t w))
  ]
]
  where
    refusal :
        (e : Err)
        → ((refresh env raw w).0 ≡ err e) × IsContained t w (refresh env raw w).1
        → (c : Err) × ((refresh env raw w).0 ≡ err c) × IsContained t w (refresh env raw w).1
    refusal e (answer, kept) = (e, answer, kept)

-- Where the read and the write on the table and the denial of the session do not fail, presenting a
-- token that is revoked, of a session that has a name, is refused as unauthorized, no token of the
-- session is active afterwards, and every access token of the session that has an identifier is
-- denied for as long as one lives.
pub reuse_ends_session :
    (env : Env) (raw : Text) (w : World) (t : RefreshToken) (later : ℕ)
    → is_empty (trim_space raw) ≡ false
    → token_by_hash (env.hashes.hash_secret (trim_space raw)) w.tokens ≡ some t
    → is_revoked t ≡ true
    → is_empty t.family_id ≡ false
    → env.fails World.find_by_hash ≡ false
    → env.fails (World.revoke_family t.family_id) ≡ false
    → CanDeny env t.family_id
    → later ≤ w.now + env.access_ttl
    → ((refresh env raw w).0 ≡ err unauthorized)
      × IsEnded t.family_id (refresh env raw w).1.tokens
      × All
          (λ j. (is_empty j ≡ true) ⊎ IsDenied later j (refresh env raw w).1.cache)
          (jtis_where (of_family t.family_id) w.tokens)
reuse_ends_session env raw w t later given found revoked named reads writes can soon =
    rw (refresh_of_revoked env raw w t given reads found revoked ∙ reused_runs env t w named writes)
      (
        refl,
        ended_world-IsEnded env t.family_id w,
        deny_family_denies env t.family_id w later can soon,
      )
