-- ===== src/Auth/Command/Verify.antt =====
-- verify.go: the checks that every verification code goes through.
use go_project_starter.Base.{ℕ, Option, none, some, leb, if◌then◌else◌}
use go_project_starter.Base.Texts.{Text}
use go_project_starter.Base.Exec.{pure, raise, ◌>>=◌, ◌>>◌}
use go_project_starter.Apierr.{invalid, code_expired, too_many_requests}
use go_project_starter.Auth.Domain.VerificationCode.{
  VerificationCode, is_consumed, is_expired, matches,
}
use go_project_starter.Auth.World.{Env, M}
use go_project_starter.Auth.Repository.Codes.{consume_code, increment_attempts}
use go_project_starter.Auth.Command.Issuer.{clock_now}

module _ (env : Env) where
  unfoldable pub spend : Text → M (Unit {0})
  spend id = do won ← consume_code env id; if won then pure tt else raise invalid

  unfoldable pub wrong_guess : Text → (max_attempts : ℕ) → M (Unit {0})
  wrong_guess id max_attempts = do increment_attempts env id max_attempts; raise invalid

  unfoldable pub judge : VerificationCode → Text → (max_attempts now : ℕ) → M (Unit {0})
  judge code raw max_attempts now =
      if is_expired now code
      then raise code_expired
      else if leb max_attempts code.attempts
      then raise too_many_requests
      else if matches env.hashes raw code
      then spend code.id
      else wrong_guess code.id max_attempts

  -- `validateCode`.
  unfoldable pub validate_code : Option VerificationCode → Text → (max_attempts : ℕ) → M (Unit {0})
  validate_code none raw max_attempts = raise invalid
  validate_code (some code) raw max_attempts =
      if is_consumed code
      then raise invalid
      else (do now ← clock_now; judge code raw max_attempts now)
