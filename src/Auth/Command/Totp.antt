-- ===== src/Auth/Command/Totp.antt =====
-- setup_totp.go, confirm_totp.go and disable_totp.go: the life of a TOTP secret. The random draws,
-- `rand.Int` below 32 and `totp.GenerateSecret`, and `totp.ProvisioningURI` are arguments.
use go_project_starter.Base.{
  ℕ, zero, suc, not, Option, none, some, List, [], ◌∷◌, ltb, if◌then◌else◌,
}
use go_project_starter.Base.Texts.{Text, codes, is_empty, trim_space}
use go_project_starter.Base.Exec.{Result, pure, raise, require, ◌>>=◌, ◌>>◌}
use go_project_starter.Apierr.{invalid, not_found, conflict, unauthorized}
use go_project_starter.Audit.{Entry, updated}
use go_project_starter.Auth.Domain.User.{User, is_totp_enabled, stage_totp, confirm_totp}
use go_project_starter.Auth.Domain.User
use go_project_starter.Auth.World.{Env, M, record_best_effort}
use go_project_starter.Auth.Repository.Users.{find_by_id, update}
use go_project_starter.Auth.Repository.Recovery.{save_all, delete_all}
use go_project_starter.Auth.Command.Issuer.{clock_now}
use go_project_starter.Auth.Command.Challenge.{validate_mfa_code, check_totp}

unfoldable pub recovery_code_alphabet : Text
recovery_code_alphabet = codes "ABCDEFGHJKLMNPQRSTUVWXYZ23456789"

-- s[n], of an index in the range.
unfoldable pub char_at : Text → ℕ → ℕ
char_at [] n = 0
char_at (c ∷ s) zero = c
char_at (c ∷ s) (suc n) = char_at s n

unfoldable pub hashes_of : (Text → Text) → List Text → List Text
hashes_of hash [] = []
hashes_of hash (c ∷ cs) = hash c ∷ hashes_of hash cs

-- The email, or else the phone number, or else the name.
unfoldable pub account_name : User → Text
account_name u = elim u.email [
  | some email ↦ email
  | none ↦ elim u.phone [ some phone ↦ phone | none ↦ u.name ]
]

pub record SetupResult : Type 0 where
  pub secret : Text
  pub uri : Text

module _ (env : Env) where
  -- A draw of the source of randomness.
  abbrev pub draw : {A : Type 0} → (ℕ → Result A) → M A
  draw source w = (source w.drawn, record w { drawn = suc w.drawn })

  abbrev totp_entry : User → (old_values new_values : List (Text × Text)) → Entry
  totp_entry u old_values new_values = record {
    subject_type = codes "users";
    subject_id = u.id;
    action = updated;
    old_values = old_values;
    new_values = new_values;
    actor = env.actor;
  }

  abbrev totp_value : Text → List (Text × Text)
  totp_value state = (codes "totp", state) ∷ []

  module _ (random : ℕ → Result ℕ) where
    unfoldable pub draw_chars : ℕ → M Text
    unfolding recovery_code_alphabet char_at
    draw_chars zero = pure []
    draw_chars (suc n) = do
      v ← draw random
      s ← draw_chars n
      pure (char_at recovery_code_alphabet v ∷ s)

    unfoldable pub draw_codes : ℕ → M (List Text)
    draw_codes zero = pure []
    draw_codes (suc n) = do s ← draw_chars 10; ss ← draw_codes n; pure (s ∷ ss)

    -- `generateRecoveryCodes`
    unfoldable pub generate_recovery_codes : ℕ → M (List Text)
    generate_recovery_codes n = draw_codes (if ltb n 1 then 8 else n)

    unfoldable pub enable_totp : User → M (List Text)
    enable_totp u = do
      recovery ← generate_recovery_codes 8
      save_all env u.id (hashes_of env.hashes.hash_secret recovery)
      now ← clock_now
      update env (User.confirm_totp now u)
      record_best_effort env (totp_entry u [] (totp_value (codes "enabled")))
      pure recovery

    unfoldable pub confirm_for : (code : Text) → Option User → M (List Text)
    confirm_for code none = raise not_found
    confirm_for code (some u) =
        if is_empty u.totp_secret
        then raise invalid
        else if is_totp_enabled u
        then raise conflict
        else (do valid ← check_totp env u code; require valid invalid (enable_totp u))

    -- `ConfirmTOTP.Execute`
    unfoldable pub confirm_totp_for : (user_id code : Text) → M (List Text)
    confirm_totp_for user_id code = do u ← find_by_id env user_id; confirm_for code u

  unfoldable pub turn_off : User → M (Unit {0})
  turn_off u = do
    now ← clock_now
    update env (User.disable_totp now u)
    delete_all env u.id
    record_best_effort env
        (totp_entry u (totp_value (codes "enabled")) (totp_value (codes "disabled")))

  unfoldable pub disable_for : (code : Text) → Option User → M (Unit {0})
  disable_for code none = raise not_found
  disable_for code (some u) =
      if not (is_totp_enabled u)
      then raise invalid
      else (do valid ← validate_mfa_code env u code; require valid unauthorized (turn_off u))

  -- `DisableTOTP.Execute`
  unfoldable pub disable_totp_for : (user_id code : Text) → M (Unit {0})
  disable_totp_for user_id code = do u ← find_by_id env user_id; disable_for code u

  module _ (generate_secret : ℕ → Result Text) (provisioning_uri : Text → Text → Text → Text)
      (issuer : Text) where
    unfoldable pub stage_for : Option User → M SetupResult
    stage_for none = raise not_found
    stage_for (some u) = if is_totp_enabled u then raise conflict else (do
      secret ← draw generate_secret
      now ← clock_now
      update env (stage_totp secret now u)
      record_best_effort env (totp_entry u [] (totp_value (codes "staged")))
      pure (record {
        secret = secret;
        uri = provisioning_uri (trim_space issuer) (account_name u) secret;
      }))

    -- `SetupTOTP.Execute`
    unfoldable pub setup_totp : (user_id : Text) → M SetupResult
    setup_totp user_id = do u ← find_by_id env user_id; stage_for u
