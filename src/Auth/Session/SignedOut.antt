-- ===== src/Auth/Session/SignedOut.antt =====
-- An access token after the session it was issued in has ended: logout.go, denylist.go and
-- `Authenticate` together.
use go_project_starter.Base.{
  ◌+◌, ◌≤◌, true, false, some, List, [], ◌∷◌, any, All, ◌≡◌, ◌⊎◌, inl, inr, sym, subst, arith,
  Bool-cases,
}
use go_project_starter.Base.Texts.{Text, is_empty, same, same_iff}
use go_project_starter.Base.Exec.{ok, err}
use go_project_starter.Apierr.{unauthenticated}
use go_project_starter.Auth.Domain.RefreshToken.{RefreshToken}
use go_project_starter.Auth.World
use go_project_starter.Auth.World.{Env, World, Claims, cache_get}
use go_project_starter.Auth.Repository.Tokens.{token_by_hash, of_family, jtis_where}
use go_project_starter.Auth.Command.Denylist.{jti_deny_key}
use go_project_starter.Auth.Command.Denylist.Effects.{IsDenied, CanDeny}
use go_project_starter.Auth.Command.SignOut.{logout}
use go_project_starter.Auth.Command.Authenticate.{authenticate}
use go_project_starter.Auth.Session.Ending.{logout_ends_session}
use go_project_starter.Auth.Session.Access.{authenticate_denied}

-- What holds of all of a list holds of one of it.
All-same :
    (P : Text → Type 0) (j : Text) (js : List Text) → All P js → any (λ k. same k j) js ≡ true → P j
All-same P j [] h e = absurd (ground arith)
All-same P j (k ∷ js) h e = elim (Bool-cases (same k j)) [
  | inl hit ↦ subst P ((same_iff k j).0 hit) h.0
  | inr miss ↦ All-same P j js h.1 (rw miss at e)
]

module _ (env : Env) where
  -- After a log out in which no call fails, an access token that carries an identifier of the ended
  -- session is refused, though it parses, until the access-token ttl has passed, while the denylist
  -- can be read and the cache is as the log out left it.
  pub logout_refuses_access :
      (raw access : Text) (w v : World) (t : RefreshToken) (claims : Claims)
      → is_empty raw ≡ false
      → token_by_hash (env.hashes.hash_secret raw) w.tokens ≡ some t
      → env.fails World.find_by_hash ≡ false
      → env.fails (World.revoke_family t.family_id) ≡ false
      → CanDeny env t.family_id
      → v.cache ≡ (logout env t.user_id raw w).1.cache
      → v.now ≤ w.now + env.access_ttl
      → env.parse_access_token access v.now ≡ ok claims
      → is_empty claims.jti ≡ false
      → any (λ j. same j claims.jti) (jtis_where (of_family t.family_id) w.tokens) ≡ true
      → env.fails (cache_get (jti_deny_key claims.jti)) ≡ false
      → authenticate env access v ≡ err unauthenticated
  logout_refuses_access raw access w v t claims given found reads writes can kept soon parsed named
        carried denylist =
      let ended = (logout_ends_session env raw w t v.now given found reads writes can soon).1 in
      let denied =
        All-same (λ j. (is_empty j ≡ true) ⊎ IsDenied v.now j (logout env t.user_id raw w).1.cache)
          claims.jti _ ended.denies carried in
      elim denied [
        | inl nameless ↦ absurd (ground arith)
        | inr there ↦
            authenticate_denied env access v claims parsed named can.wired denylist
              (subst (IsDenied v.now claims.jti) (sym kept) there)
      ]
