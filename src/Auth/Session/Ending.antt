-- ===== src/Auth/Session/Ending.antt =====
-- Signing out: whose session ends, and what is left of it.
use go_project_starter.Base.{ℕ, ◌+◌, ◌≤◌, true, false, some, ◌≡◌, ◌⊎◌, ◌≢◌, refl, ◌∙◌, arith, All}
use go_project_starter.Base.Texts.{Text, codes, is_empty, same, same_iff, same_refl}
use go_project_starter.Base.Exec.{ok, pure, ◌>>=◌, bind_known}
use go_project_starter.Audit.{Entry}
use go_project_starter.Auth.Domain.RefreshToken.{RefreshToken}
use go_project_starter.Auth.World
use go_project_starter.Auth.World.{Env, World, query, record_best_effort}
use go_project_starter.Auth.Repository.Tokens
use go_project_starter.Auth.Repository.Tokens.{
  find_by_hash, token_by_hash, of_family, jtis_where, list_active_families,
}
use go_project_starter.Auth.Repository.Tokens.Laws.{IsEnded}
use go_project_starter.Auth.Command.Denylist.{deny_family}
use go_project_starter.Auth.Command.Denylist.Effects.{IsDenied, CanDeny, deny_family_denies}
use go_project_starter.Auth.Command.SignOut.{ended_entry, end_session, logout_token, logout}
use go_project_starter.Auth.Session.Reuse.{
  denied, deny_family_returns, ended_world, ended_world-IsEnded, revoke_family_runs,
}

module _ (env : Env) where
  abbrev recorded : Entry → World → World
  recorded entry v = (record_best_effort env entry v).1

  end_session_runs :
      (f : Text) (entry : Entry) (w : World)
      → env.fails (World.revoke_family f) ≡ false
      → end_session env f entry w ≡ (ok tt, recorded entry (ended_world env f w))
  unfolding end_session record_best_effort
  end_session_runs f entry w writes =
      bind_known (deny_family env f) _ w tt (denied env f w) (deny_family_returns env f w)
      ∙ bind_known (Tokens.revoke_family env f) _ (denied env f w) tt (ended_world env f w)
          (revoke_family_runs env f (denied env f w) writes)

  -- What the end of a session leaves, seen by its tokens.
  pub record HasEnded (f : Text) (later : ℕ) (w w' : World) : Type 0 where
    pub ended : IsEnded f w'.tokens
    pub denies :
        All
          (λ j. (is_empty j ≡ true) ⊎ IsDenied later j w'.cache)
          (jtis_where (of_family f) w.tokens)

  recorded-HasEnded :
      (f : Text) (later : ℕ) (entry : Entry) (w : World)
      → CanDeny env f
      → later ≤ w.now + env.access_ttl
      → HasEnded f later w (recorded entry (ended_world env f w))
  unfolding record_best_effort
  recorded-HasEnded f later entry w can soon =
      let v = ended_world env f w in
      let tokens : (recorded entry v).tokens ≡ v.tokens = ground arith in
      let cache : (recorded entry v).cache ≡ v.cache = ground arith in
      record {
        ended = rw tokens (ended_world-IsEnded env f w);
        denies = rw cache (deny_family_denies env f w later can soon);
      }

  logout_own :
      (user_id raw : Text) (w : World) (t : RefreshToken)
      → is_empty raw ≡ false
      → env.fails World.find_by_hash ≡ false
      → token_by_hash (env.hashes.hash_secret raw) w.tokens ≡ some t
      → same t.user_id user_id ≡ true
      → logout env user_id raw w
        ≡ end_session env t.family_id (ended_entry env (codes "refresh_tokens") t.id t.user_id) w
  unfolding logout find_by_hash query logout_token ◌>>=◌
  logout_own user_id raw w t given reads found own = ground arith

  -- Logging out with a refresh token of one's own returns, when the calls of the database and the
  -- denial do not fail, and then no token of its session is active, and every access token of the
  -- session that has an identifier is denied for as long as one lives.
  pub logout_ends_session :
      (raw : Text) (w : World) (t : RefreshToken) (later : ℕ)
      → is_empty raw ≡ false
      → token_by_hash (env.hashes.hash_secret raw) w.tokens ≡ some t
      → env.fails World.find_by_hash ≡ false
      → env.fails (World.revoke_family t.family_id) ≡ false
      → CanDeny env t.family_id
      → later ≤ w.now + env.access_ttl
      → ((logout env t.user_id raw w).0 ≡ ok tt)
        × HasEnded t.family_id later w (logout env t.user_id raw w).1
  logout_ends_session raw w t later given found reads writes can soon =
      let entry = ended_entry env (codes "refresh_tokens") t.id t.user_id in
      rw
        (logout_own t.user_id raw w t given reads found (same_refl t.user_id)
          ∙ end_session_runs t.family_id entry w writes)
        (refl, recorded-HasEnded t.family_id later entry w can soon)

  -- A refresh token of somebody else ends nothing: whatever calls fail, the world is as it was.
  pub logout_of_other :
      (user_id raw : Text) (w : World) (t : RefreshToken)
      → token_by_hash (env.hashes.hash_secret raw) w.tokens ≡ some t
      → t.user_id ≢ user_id
      → (logout env user_id raw w).1 ≡ w
  unfolding logout find_by_hash query logout_token pure ◌>>=◌
  logout_of_other user_id raw w t found other = ground (arith, same_iff t.user_id user_id)
