-- ===== src/Auth/Command/MagicLink.antt =====
-- magic_link_verify.go: a magic link is exchanged for tokens, or for a challenge.
use go_project_starter.Base.{Option, none, some, [], if◌then◌else◌, ℤ}
use go_project_starter.Base.Texts.{Text, is_empty, trim_space}
use go_project_starter.Base.Exec.{pure, raise, ◌>>=◌}
use go_project_starter.Apierr.{invalid, not_found, code_expired, unauthorized}
use go_project_starter.Auth.Domain.User.{User, is_suspended, is_totp_enabled}
use go_project_starter.Auth.Domain.VerificationCode.{
  VerificationCode, magic_link, is_consumed, is_expired,
}
use go_project_starter.Auth.World.{Env, M}
use go_project_starter.Auth.Repository.Users.{find_by_id}
use go_project_starter.Auth.Repository.Codes.{find_active_by_hash, consume_code}
use go_project_starter.Auth.Command.Issuer.{clock_now, issue}
use go_project_starter.Auth.Command.Login.{LoginResult, challenged}

abbrev contact_or_empty : Option Text → Option Text → Text
contact_or_empty (some email) phone = email
contact_or_empty none (some phone) = phone
contact_or_empty none none = []

module _ (env : Env) (challenge_ttl : ℤ) where
  unfoldable pub link_result : User → M LoginResult
  link_result user =
      if is_totp_enabled user
      then challenged env challenge_ttl user (contact_or_empty user.email user.phone)
      else (do
        res ← issue env user.id
        pure (record { tokens = some res; user = user; mfa_challenge = [] }))

  unfoldable pub spend_link : VerificationCode → User → M LoginResult
  spend_link code user = do
    won ← consume_code env code.id
    if won then link_result user else raise not_found

  unfoldable pub link_user : VerificationCode → Option User → M LoginResult
  link_user code none = raise unauthorized
  link_user code (some user) =
      if is_suspended user then raise unauthorized else spend_link code user

  unfoldable pub timely_link : VerificationCode → M LoginResult
  timely_link code = do
    now ← clock_now
    if is_expired now code
        then raise code_expired
        else (do user ← find_by_id env code.user_id; link_user code user)

  unfoldable pub open_link : Option VerificationCode → M LoginResult
  open_link none = raise not_found
  open_link (some code) = if is_consumed code then raise not_found else timely_link code

  -- `MagicLinkVerify.Execute`.
  unfoldable pub magic_link_verify : Text → M LoginResult
  magic_link_verify raw =
      let token = trim_space raw in
      if is_empty token then raise invalid else (do
        code ← find_active_by_hash env magic_link (env.hashes.hash_secret token)
        open_link code)
