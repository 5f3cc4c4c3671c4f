-- ===== src/Auth/Domain/User.antt =====
-- internal/modules/auth/domain/user.go
use go_project_starter.Base.{
  ℕ, Bool, true, false, not, ◌&&◌, Option, none, some, is_some, if◌then◌else◌, [],
}
use go_project_starter.Base.Texts.{Text, is_empty, trim_space, lower_text}
use go_project_starter.Base.Exec.{Result, ok, err}
use go_project_starter.Apierr.{invalid}

pub data UserStatus : Type 0 where
  active suspended : UserStatus

pub record User : Type 0 where
  pub id : Text
  pub name : Text
  pub email : Option Text
  pub phone : Option Text
  pub password_hash : Text
  pub email_verified_at : Option ℕ
  pub phone_verified_at : Option ℕ
  pub totp_secret : Text
  pub totp_confirmed_at : Option ℕ
  pub status : UserStatus
  pub created_at : ℕ
  pub updated_at : ℕ

-- An address that is empty is not set.
abbrev optional : Text → Option Text
optional s = if is_empty s then none else some s

-- The two format checks are arguments: `IsValidEmail` rests on `net/mail`, and `IsValidPhone`
-- is `Contact.is_valid_phone`.
unfoldable pub new_user :
    (valid_email valid_phone : Text → Bool) (id name email phone password_hash : Text) (now : ℕ)
    → Result User
new_user valid_email valid_phone id name email phone password_hash now =
    let email' = trim_space email in
    let phone' = trim_space phone in
    if is_empty (trim_space name)
    then err invalid
    else if is_empty email' && is_empty phone'
    then err invalid
    else if not (is_empty email') && not (valid_email email')
    then err invalid
    else if not (is_empty phone') && not (valid_phone phone')
    then err invalid
    else ok (record {
      id = id;
      name = name;
      email = optional email';
      phone = optional phone';
      password_hash = password_hash;
      email_verified_at = none;
      phone_verified_at = none;
      totp_secret = [];
      totp_confirmed_at = none;
      status = active;
      created_at = now;
      updated_at = now;
    })

unfoldable pub is_email_verified : User → Bool
is_email_verified u = is_some u.email_verified_at

unfoldable pub is_phone_verified : User → Bool
is_phone_verified u = is_some u.phone_verified_at

unfoldable pub verify_email : ℕ → User → User
verify_email now u = record u { email_verified_at = some now; updated_at = now }

unfoldable pub verify_phone : ℕ → User → User
verify_phone now u = record u { phone_verified_at = some now; updated_at = now }

unfoldable pub set_password_hash : Text → ℕ → User → User
set_password_hash hash now u = record u { password_hash = hash; updated_at = now }

unfoldable pub set_name : Text → ℕ → User → User
set_name name now u = record u { name = trim_space name; updated_at = now }

unfoldable pub set_email : Text → ℕ → User → User
set_email email now u = record u {
  email = some (lower_text (trim_space email));
  email_verified_at = none;
  updated_at = now;
}

unfoldable pub set_phone : Text → ℕ → User → User
set_phone phone now u = record u {
  phone = some (trim_space phone);
  phone_verified_at = none;
  updated_at = now;
}

unfoldable pub is_suspended : User → Bool
is_suspended u = elim u.status [ active ↦ false | suspended ↦ true ]

unfoldable pub is_totp_enabled : User → Bool
is_totp_enabled u = is_some u.totp_confirmed_at

unfoldable pub stage_totp : Text → ℕ → User → User
stage_totp secret now u = record u {
  totp_secret = secret;
  totp_confirmed_at = none;
  updated_at = now;
}

unfoldable pub confirm_totp : ℕ → User → User
confirm_totp now u = record u { totp_confirmed_at = some now; updated_at = now }

unfoldable pub disable_totp : ℕ → User → User
disable_totp now u = record u { totp_secret = []; totp_confirmed_at = none; updated_at = now }
