-- ===== src/Auth/Command/Denylist.antt =====
-- denylist.go: the identifiers of revoked access tokens, in the cache.
pub mod Effects
use go_project_starter.Base.{Bool, true, false, List, [], ◌∷◌, ◌++◌, if◌then◌else◌, pos}
use go_project_starter.Base.Texts.{Text, codes, is_empty}
use go_project_starter.Base.Exec.{Exec, pure, best_effort, ◌>>=◌, ◌>>◌}
use go_project_starter.Cache
use go_project_starter.Auth.World.{Env, World, M, exec, cache_set}
use go_project_starter.Auth.Repository.Tokens.{jtis_by_family}

-- `JTIDenyKey`.
unfoldable pub jti_deny_key : Text → Text
jti_deny_key jti = codes "auth:jti:deny:" ++ jti

module _ (env : Env) where
  unfoldable pub deny_one : Text → M (Unit {0})
  deny_one jti = exec env (cache_set (jti_deny_key jti)) λ w. (
    tt,
    record w {
      cache = Cache.set w.now (jti_deny_key jti) (codes "1") (pos env.access_ttl) w.cache;
    },
  )

  -- An empty identifier is skipped, and a failed write is logged.
  unfoldable pub deny_all : List Text → M (Unit {0})
  deny_all [] = pure tt
  deny_all (jti ∷ jtis) = do
    if is_empty jti then pure tt else best_effort (deny_one jti)
    deny_all jtis

  -- `deny`.
  unfoldable pub deny : List Text → M (Unit {0})
  deny jtis = if env.has_cache then deny_all jtis else pure tt

  -- `if jtis, err := JtisByFamily(…); err == nil { deny(jtis) }`.
  unfoldable pub deny_family : Text → M (Unit {0})
  deny_family family_id = best_effort (do jtis ← jtis_by_family env family_id; deny jtis)
