-- ===== src/Auth/Command/Passwords.antt =====
-- change_password.go and reset_password.go: a new password, and the sessions of the user.
-- `PasswordHasher.Hash` and `NormalizeEmail`, which stands on `net/mail`, are arguments.
use go_project_starter.Base.{ℕ, ◌+◌, not, ◌||◌, Option, none, some, [], ◌∷◌, if◌then◌else◌, ltb}
use go_project_starter.Base.Texts.{Text, codes, is_empty, trim_space, contains}
use go_project_starter.Base.Exec.{Result, ok, err, raise, ask, best_effort, ◌>>=◌, ◌>>◌}
use go_project_starter.Apierr.{invalid, not_found, unauthorized}
use go_project_starter.Audit.{Entry, updated}
use go_project_starter.Auth.Domain.User.{User, set_password_hash}
use go_project_starter.Auth.Domain.VerificationCode.{Channel, email, phone, reset}
use go_project_starter.Auth.Domain.Contact.{normalize_phone}
use go_project_starter.Auth.World.{Env, M, record_best_effort}
use go_project_starter.Auth.Repository.Users.{find_by_id, update}
use go_project_starter.Auth.Repository.Tokens.{jtis_by_user, revoke_by_user_id}
use go_project_starter.Auth.Repository.Codes.{find_latest_active}
use go_project_starter.Auth.Command.Denylist.{deny}
use go_project_starter.Auth.Command.Issuer.{clock_now}
use go_project_starter.Auth.Command.Verify.{validate_code}
use go_project_starter.Auth.Command.Login.{find_by_identifier}

-- `len` of a Go string: the bytes of its UTF-8 encoding.
unfoldable pub byte_length : Text → ℕ
byte_length [] = 0
byte_length (c ∷ s) =
    let rest = byte_length s in
    if ltb c 0x80
    then 1 + rest
    else if ltb c 0x800
    then 2 + rest
    else if ltb c 0x10000
    then 3 + rest
    else 4 + rest

-- `normalizeIdentifier`.
unfoldable pub normalize_identifier :
    (normalize_email : Text → Result Text) → (raw country_code : Text) → Result Text
normalize_identifier normalize_email raw country_code =
    let raw' = trim_space raw in
    if is_empty raw'
    then err invalid
    else if contains b'@' raw'
    then normalize_email raw'
    else normalize_phone raw' country_code

module _ (env : Env) (hash_password : Text → Result Text) where
  abbrev password_entry : User → Entry
  password_entry user = record {
    subject_type = codes "users";
    subject_id = user.id;
    action = updated;
    old_values = [];
    new_values = (codes "password", codes "true") ∷ [];
    actor = env.actor;
  }

  unfoldable pub store_password : User → (new_password : Text) → M (Unit {0})
  store_password user new_password = do
    hash ← ask (λ w. hash_password new_password)
    now ← clock_now
    update env (set_password_hash hash now user)

  -- `if jtis, err := JtisByUser(…); err == nil { deny(jtis) }`.
  unfoldable pub deny_user : Text → M (Unit {0})
  deny_user user_id = best_effort (do jtis ← jtis_by_user env user_id; deny env jtis)

  unfoldable pub replace_password : User → (new_password : Text) → M (Unit {0})
  replace_password user new_password = do
    store_password user new_password
    deny_user user.id
    revoke_by_user_id env user.id
    record_best_effort env (password_entry user)

  unfoldable pub change_for : Option User → (old_password new_password : Text) → M (Unit {0})
  change_for none old_password new_password = raise not_found
  change_for (some user) old_password new_password =
      if not (env.compare_password old_password user.password_hash)
      then raise unauthorized
      else replace_password user new_password

  -- `ChangePassword.Execute`.
  unfoldable pub change_password : (user_id old_password new_password : Text) → M (Unit {0})
  change_password user_id old_password new_password =
      if is_empty old_password || ltb (byte_length new_password) 8
      then raise invalid
      else (do user ← find_by_id env user_id; change_for user old_password new_password)

  -- The trail is written before the sessions are ended.
  unfoldable pub reset_password_of : User → (new_password : Text) → M (Unit {0})
  reset_password_of user new_password = do
    store_password user new_password
    record_best_effort env (password_entry user)
    deny_user user.id
    revoke_by_user_id env user.id

  abbrev pub channel_of : Text → Channel
  channel_of identifier = if contains b'@' identifier then email else phone

  unfoldable pub reset_for :
      Option User → (identifier code new_password : Text) (max_attempts : ℕ) → M (Unit {0})
  reset_for none identifier code new_password max_attempts = raise invalid
  reset_for (some user) identifier code new_password max_attempts = do
    found ← find_latest_active env user.id reset (channel_of identifier)
    validate_code env found code max_attempts
    reset_password_of user new_password

  unfoldable pub reset_with :
      Result Text → (country_code code new_password : Text) (max_attempts : ℕ) → M (Unit {0})
  reset_with (err e) country_code code new_password max_attempts = raise invalid
  reset_with (ok identifier) country_code code new_password max_attempts =
      if is_empty code || ltb (byte_length new_password) 8 then raise invalid else (do
        user ← find_by_identifier env identifier country_code
        reset_for user identifier code new_password max_attempts)

  -- `ResetPassword.Execute`.
  unfoldable pub reset_password :
      (normalize_email : Text → Result Text)
      → (country_code identifier code new_password : Text) (max_attempts : ℕ) → M (Unit {0})
  reset_password normalize_email country_code identifier code new_password max_attempts =
      reset_with (normalize_identifier normalize_email identifier country_code) country_code code
        new_password max_attempts
