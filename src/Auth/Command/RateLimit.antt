-- ===== src/Auth/Command/RateLimit.antt =====
-- `rateLimiter` of login.go: a counter in the cache for each target and address.
use go_project_starter.Base.{◌∷◌, ◌++◌, if◌then◌else◌, ℤ, pos, ltb_ℤ}
use go_project_starter.Base.Texts.{Text}
use go_project_starter.Base.Exec.{pure, raise, best_effort, ◌>>=◌, ◌>>◌}
use go_project_starter.Apierr.{too_many_requests}
use go_project_starter.Cache
use go_project_starter.Auth.World.{Env, M, exec, cache_increment, cache_expire, cache_delete}

pub record Limiter : Type 0 where
  pub most : ℤ
  pub window : ℤ
  pub prefix : Text

module _ (env : Env) (l : Limiter) where
  unfoldable pub limiter_key : (target ip : Text) → Text
  limiter_key target ip = l.prefix ++ b':' ∷ env.hashes.hash_secret target ++ b':' ∷ ip

  unfoldable pub count_up : Text → M ℤ
  count_up key = exec env (cache_increment key) λ w. (
    (Cache.increment w.now key (pos 1) w.cache).0,
    record w { cache = (Cache.increment w.now key (pos 1) w.cache).1 },
  )

  unfoldable pub renew : Text → M (Unit {0})
  renew key =
      exec env (cache_expire key)
        λ w. (tt, record w { cache = Cache.expire w.now key l.window w.cache })

  -- `Check`, whose error of `Expire` is dropped.
  unfoldable pub check_limit : (target ip : Text) → M (Unit {0})
  check_limit target ip = do
    n ← count_up (limiter_key target ip)
    best_effort (renew (limiter_key target ip))
    if ltb_ℤ l.most n then raise too_many_requests else pure tt

  -- `Reset`.
  unfoldable pub reset_limit : (target ip : Text) → M (Unit {0})
  reset_limit target ip = best_effort (
      exec env (cache_delete (limiter_key target ip))
        λ w. (tt, record w { cache = Cache.delete (limiter_key target ip) w.cache }))
