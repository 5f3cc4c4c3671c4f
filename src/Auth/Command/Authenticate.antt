-- ===== src/Auth/Command/Authenticate.antt =====
-- `authenticator.Authenticate` of internal/modules/auth/module.go: an access token to an identity.
use go_project_starter.Base.{Bool, not, ◌&&◌, Option, none, some, List, if◌then◌else◌, is_some}
use go_project_starter.Base.Texts.{Text, is_empty}
use go_project_starter.Base.Exec.{Result, ok, err}
use go_project_starter.Apierr.{unauthenticated}
use go_project_starter.Cache
use go_project_starter.Auth.Domain.User.{User, is_suspended}
use go_project_starter.Auth.World.{Env, World, Claims, cache_get}
use go_project_starter.Auth.Repository.Users.{find_by_id}
use go_project_starter.Auth.Command.Denylist.{jti_deny_key}

pub record Identity : Type 0 where
  pub user_id : Text
  pub roles : List Text

module _ (env : Env) where
  -- A failed read of the denylist is logged, and lets the token through.
  unfoldable pub is_denied : Claims → World → Bool
  is_denied claims w =
      env.has_cache
      && not (is_empty claims.jti)
      && not (env.fails (cache_get (jti_deny_key claims.jti)))
      && is_some (Cache.get w.now (jti_deny_key claims.jti) w.cache)

  unfoldable pub identity_of : Claims → Result (Option User) → Result Identity
  identity_of claims (err e) = err unauthenticated
  identity_of claims (ok none) = err unauthenticated
  identity_of claims (ok (some user)) =
      if is_suspended user
      then err unauthenticated
      else ok (record { user_id = claims.user_id; roles = claims.roles })

  -- It only reads.
  unfoldable pub authenticate : Text → World → Result Identity
  authenticate raw w = elim (env.parse_access_token raw w.now) [
    | err e ↦ err unauthenticated
    | ok claims ↦
        if is_denied claims w
        then err unauthenticated
        else identity_of claims (find_by_id env claims.user_id w).0
  ]
