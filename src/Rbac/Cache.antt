-- ===== src/Rbac/Cache.antt =====
-- internal/modules/rbac/application/cache/permission_cache.go, over the in-process driver, and
-- application/command/cache.go: a version that every change bumps, and an entry for each user, which
-- counts only while it carries the version.
use go_project_starter.Base.{not, Option, none, some, List, ◌++◌, if◌then◌else◌, ℤ, pos}
use go_project_starter.Base.Texts.{Text, codes}
use go_project_starter.Base.Decimal.{parse_int, eq_int}
use go_project_starter.Base.Exec.{Result, ok, err, ask, ◌>>=◌}
use go_project_starter.Apierr.{backend}
use go_project_starter.Cache
use go_project_starter.Cache.{Memory}
use go_project_starter.Rbac.World.{
  Env, Call, UserEntry, M, read, write, version_bump, version_bump_again, version_get, entry_get,
  entry_set,
}

abbrev pub version_key : Text
version_key = codes "rbac:ver"

unfoldable pub user_key : Text → Text
user_key user_id = codes "rbac:user:" ++ user_id

-- `cache.ErrNotFound` counts as version 0.
unfoldable pub version_of : Option Text → Result ℤ
version_of none = ok (pos 0)
version_of (some v) = elim (parse_int v) [ none ↦ err backend | some n ↦ ok n ]

module _ (env : Env) where
  -- What `json.Unmarshal` finds, where it is of the version.
  unfoldable pub entry_at : ℤ → Option Text → Result (Option UserEntry)
  entry_at ver none = ok none
  entry_at ver (some v) = elim (env.decode_entry v) [
    | none ↦ err backend
    | some e ↦ if eq_int e.version ver then ok (some e) else ok none
  ]

  unfoldable pub bump : Call → M (Unit {0})
  bump c =
      write env c
        λ w. (tt, record w { cache = (Cache.increment w.now version_key (pos 1) w.cache).1 })

  unfoldable pub current_version : M ℤ
  unfolding version_of
  current_version = do
    v ← read env version_get (λ w. Cache.get w.now version_key w.cache)
    ask (λ _. version_of v)

  unfoldable pub cached_user : (user_id : Text) (ver : ℤ) → M (Option UserEntry)
  unfolding entry_at user_key
  cached_user user_id ver = do
    v ← read env entry_get (λ w. Cache.get w.now (user_key user_id) w.cache)
    ask (λ _. entry_at ver v)

  unfoldable pub set_user :
      (user_id : Text) (ver : ℤ) (roles permissions : List Text) → M (Unit {0})
  unfolding user_key
  set_user user_id ver roles permissions = write env entry_set λ w. (
    tt,
    record w {
      cache =
          Cache.set w.now (user_key user_id)
            (env.encode_entry (record { version = ver; roles = roles; permissions = permissions }))
            env.ttl w.cache;
    },
  )

  -- `bumpBestEffort`; a nil bumper is a cache that is not wired.
  unfoldable pub bump_best_effort : M (Unit {0})
  bump_best_effort w = (ok tt, if env.has_cache then (bump version_bump w).1 else w)

  -- `bumpChecked`, which tries once more.
  unfoldable pub bump_checked : M (Unit {0})
  bump_checked w = (
    ok tt,
    if not env.has_cache
        then w
        else if env.fails version_bump
        then (bump version_bump_again w).1
        else (bump version_bump w).1,
  )
