-- ===== src/Auth/Command/Login.antt =====
-- login.go and verify_mfa.go: from an identifier and a password to tokens, in one step or in two.
use go_project_starter.Base.{
  Bool, not, ◌&&◌, ◌||◌, Option, none, some, [], if◌then◌else◌, ℤ, is_some,
}
use go_project_starter.Base.Texts.{Text, is_empty, trim_space, lower_text, contains}
use go_project_starter.Base.Exec.{Result, ok, err, pure, raise, ◌>>=◌, ◌>>◌}
use go_project_starter.Apierr.{invalid, unauthorized}
use go_project_starter.Auth.Domain.User.{User, is_suspended, is_email_verified, is_totp_enabled}
use go_project_starter.Auth.Domain.Contact.{normalize_phone}
use go_project_starter.Auth.World.{Env, M}
use go_project_starter.Auth.Repository.Users.{find_by_id, find_by_email, find_by_phone}
use go_project_starter.Auth.Command.Issuer.{TokenResult, issue}
use go_project_starter.Auth.Command.RateLimit.{Limiter, check_limit, reset_limit}
use go_project_starter.Auth.Command.Challenge.{issue_challenge, take_challenge, validate_mfa_code}

pub record LoginResult : Type 0 where
  pub tokens : Option TokenResult
  pub user : User
  -- empty where there are tokens
  pub mfa_challenge : Text

-- What the use cases are built with.
pub record LoginConfig : Type 0 where
  pub require_email_verified : Bool
  pub country_code : Text
  pub limiter : Limiter
  pub challenge_ttl : ℤ

pub record LoginCommand : Type 0 where
  pub identifier : Text
  pub password : Text
  pub code : Text
  pub ip : Text

module _ (env : Env) where
  abbrev find_phone : Result Text → M (Option User)
  find_phone (err e) = pure none
  find_phone (ok phone) = find_by_phone env phone

  -- `findByIdentifier`.
  unfoldable pub find_by_identifier : (identifier country_code : Text) → M (Option User)
  find_by_identifier identifier country_code =
      if contains b'@' identifier
      then find_by_email env identifier
      else find_phone (normalize_phone identifier country_code)

  unfoldable pub challenged : ℤ → User → Text → M LoginResult
  challenged ttl user identifier = do
    token ← issue_challenge env ttl user.id identifier
    pure (record { tokens = none; user = user; mfa_challenge = token })

  module _ (config : LoginConfig) where
    unfoldable pub sign_in : User → (identifier ip : Text) → M LoginResult
    sign_in user identifier ip = do
      res ← issue env user.id
      reset_limit env config.limiter identifier ip
      pure (record { tokens = some res; user = user; mfa_challenge = [] })

    -- Tokens only with a valid code; without a code, a challenge.
    unfoldable pub second_factor : User → (identifier code ip : Text) → M LoginResult
    second_factor user identifier code ip =
        if is_empty (trim_space code) then challenged config.challenge_ttl user identifier else (do
          valid ← validate_mfa_code env user code
          if valid then sign_in user identifier ip else raise unauthorized)

    abbrev pub is_unverified : User → Bool
    is_unverified user =
        config.require_email_verified && is_some user.email && not (is_email_verified user)

    -- The comparison with the dummy hash of an unknown identifier only takes time.
    unfoldable pub login_as : Option User → LoginCommand → (identifier : Text) → M LoginResult
    login_as none cmd identifier = raise unauthorized
    login_as (some user) cmd identifier =
        if not (env.compare_password cmd.password user.password_hash)
        then raise unauthorized
        else if is_suspended user
        then raise unauthorized
        else if is_unverified user
        then raise unauthorized
        else if is_totp_enabled user
        then second_factor user identifier cmd.code cmd.ip
        else sign_in user identifier cmd.ip

    -- `Login.Execute`.
    unfoldable pub login : LoginCommand → M LoginResult
    login cmd =
        let identifier = lower_text (trim_space cmd.identifier) in
        if is_empty identifier || is_empty cmd.password then raise invalid else (do
          check_limit env config.limiter identifier cmd.ip
          user ← find_by_identifier identifier config.country_code
          login_as user cmd identifier)

    abbrev reset_known : (identifier ip : Text) → M (Unit {0})
    reset_known identifier ip =
        if is_empty identifier then pure tt else reset_limit env config.limiter identifier ip

    unfoldable pub complete : User → (identifier ip : Text) → M LoginResult
    complete user identifier ip = do
      res ← issue env user.id
      reset_known identifier ip
      pure (record { tokens = some res; user = user; mfa_challenge = [] })

    unfoldable pub verify_user : Option User → (identifier code ip : Text) → M LoginResult
    verify_user none identifier code ip = raise unauthorized
    verify_user (some user) identifier code ip =
        if not (is_totp_enabled user) || is_suspended user then raise unauthorized else (do
          valid ← validate_mfa_code env user code
          if valid then complete user identifier ip else raise unauthorized)

    -- `VerifyMFA.Execute`, with the rate limiter that the module wires.
    unfoldable pub verify_mfa : (challenge code ip : Text) → M LoginResult
    verify_mfa challenge code ip = do
      (user_id, identifier) ← take_challenge env challenge
      user ← find_by_id env user_id
      verify_user user identifier code ip
