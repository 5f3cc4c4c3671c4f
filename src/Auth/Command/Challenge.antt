-- ===== src/Auth/Command/Challenge.antt =====
-- mfa_challenge.go: the challenge between the two steps of a login, and the second factor.
use go_project_starter.Base.{
  Bool, true, false, not, ◌||◌, Option, none, some, ◌∷◌, ◌++◌, if◌then◌else◌, ℤ,
}
use go_project_starter.Base.Texts.{Text, codes, is_empty, trim_space, cut}
use go_project_starter.Base.Exec.{ok, pure, raise, ask, ◌>>=◌, ◌>>◌}
use go_project_starter.Apierr.{invalid}
use go_project_starter.Cache
use go_project_starter.Auth.Domain.User.{User}
use go_project_starter.Auth.World.{Env, M, exec, new_opaque_token, cache_set, cache_get_delete}
use go_project_starter.Auth.Repository.Codes.{consume_recovery}

unfoldable pub challenge_key : Text → Text
challenge_key token = codes "auth:mfa:" ++ token

-- The value that a challenge stands for: a user and the identifier that was logged in with.
unfoldable pub challenge_value : (user_id identifier : Text) → Text
challenge_value user_id identifier = user_id ++ b'|' ∷ identifier

module _ (env : Env) where
  abbrev store : Text → Text → ℤ → M (Unit {0})
  store key value ttl =
      exec env (cache_set key) λ w. (tt, record w { cache = Cache.set w.now key value ttl w.cache })

  -- `issue`.
  unfoldable pub issue_challenge : (ttl : ℤ) (user_id identifier : Text) → M Text
  issue_challenge ttl user_id identifier = do
    token ← new_opaque_token env
    if env.has_cache
        then (do store (challenge_key token) (challenge_value user_id identifier) ttl; pure token)
        else raise invalid

  -- `GetDelete`, whose errors count as a missing key.
  unfoldable pub redeem : Text → M (Option Text)
  redeem key w = if env.fails (cache_get_delete key) then (ok none, w) else (
    ok (Cache.get_delete w.now key w.cache).0,
    record w { cache = (Cache.get_delete w.now key w.cache).1 },
  )

  -- `strings.SplitN(value, "|", 2)` and the checks of its parts.
  unfoldable pub split_value : Option (Text × Text) → M (Text × Text)
  split_value none = raise invalid
  split_value (some (user_id, identifier)) =
      if is_empty user_id then raise invalid else pure (user_id, identifier)

  unfoldable pub open_challenge : Option Text → M (Text × Text)
  open_challenge none = raise invalid
  open_challenge (some value) = split_value (cut b'|' value)

  -- `take`.
  unfoldable pub take_challenge : (token : Text) → M (Text × Text)
  take_challenge token =
      if not env.has_cache || is_empty (trim_space token)
      then raise invalid
      else (do value ← redeem (challenge_key (trim_space token)); open_challenge value)

  unfoldable pub check_totp : User → Text → M Bool
  check_totp user code = ask (λ w. env.totp_valid user.totp_secret code w.now)

  -- `validateMFACode`.
  unfoldable pub validate_mfa_code : User → Text → M Bool
  validate_mfa_code user raw_code =
      let code = trim_space raw_code in
      if is_empty code then pure false else (do
        valid ← check_totp user code
        if valid then pure true else consume_recovery env user.id (env.hashes.hash_secret code))
