-- ===== src/Auth/Login/Factor.antt =====
-- What the steps of a login find out: the account of an identifier, and a second factor.
use go_project_starter.Base.{
  Bool, true, false, Option, none, List, if◌then◌else◌, any, ◌≡◌, ◌⊎◌, inl, inr, arith, Bool-cases,
}
use go_project_starter.Base.Texts.{Text, is_empty, trim_space, contains}
use go_project_starter.Base.Exec.{
  Result, ok, err, pure, ask, >>=-eq-ok, Keeps, keeps_rules, Result-cases,
}
use go_project_starter.Auth.Domain.User.{User}
use go_project_starter.Auth.Domain.Contact.{normalize_phone}
use go_project_starter.Auth.World.{Env, World, RecoveryCode, M, query, find_user}
use go_project_starter.Auth.World
use go_project_starter.Auth.World.Keeping.{Keeps-exec}
use go_project_starter.Auth.Repository.Users.{
  user_by_email, user_by_phone, find_by_email, find_by_phone,
}
use go_project_starter.Auth.Repository.Codes.{redeemable, consume_recovery}
use go_project_starter.Auth.Command.RateLimit.{Limiter, count_up, renew, check_limit}
use go_project_starter.Auth.Command.Challenge.{validate_mfa_code, check_totp}
use go_project_starter.Auth.Command.Login.{find_by_identifier}

-- The accounts, recovery codes and clock are those of `w`.
abbrev pub SameAccounts : World → World → Type 0
SameAccounts w v = (v.users ≡ w.users) × (v.recovery ≡ w.recovery) × (v.now ≡ w.now)

abbrev pub phone_owner : Result Text → List User → Option User
phone_owner (err e) users = none
phone_owner (ok phone) users = user_by_phone phone users

-- The account of an identifier: by its email, or by its phone number in the canonical form.
abbrev pub account_of : (identifier country_code : Text) → List User → Option User
account_of identifier country_code users =
    if contains b'@' identifier
    then user_by_email identifier users
    else phone_owner (normalize_phone identifier country_code) users

module _ (env : Env) where
  -- A TOTP code of now, or a recovery code that is not used.
  abbrev pub HasSecondFactor : User → Text → World → Type 0
  HasSecondFactor u code w =
      (env.totp_valid u.totp_secret (trim_space code) w.now ≡ ok true)
      ⊎ (any (redeemable u.id (env.hashes.hash_secret (trim_space code))) w.recovery ≡ true)

  count_up-SameAccounts :
      (w : World) (l : Limiter) (key : Text) → Keeps (SameAccounts w) (count_up env l key)
  unfolding count_up
  count_up-SameAccounts w l key = Keeps-exec env _ _ (λ v h. h)

  renew-SameAccounts :
      (w : World) (l : Limiter) (key : Text) → Keeps (SameAccounts w) (renew env l key)
  unfolding renew
  renew-SameAccounts w l key = Keeps-exec env _ _ (λ v h. h)

  pub check_limit-SameAccounts :
      (w : World) (l : Limiter) (target ip : Text)
      → Keeps (SameAccounts w) (check_limit env l target ip)
  unfolding check_limit
  check_limit-SameAccounts w l target ip =
      search (keeps_rules, count_up-SameAccounts, renew-SameAccounts)

  consumed-eq-ok :
      (u : User) (code : Text) (w : World) {v : World}
      → consume_recovery env u.id (env.hashes.hash_secret code) w ≡ (ok true, v)
      → any (redeemable u.id (env.hashes.hash_secret code)) w.recovery ≡ true
  unfolding consume_recovery World.exec
  consumed-eq-ok u code w h = ground arith

  -- A second factor that is accepted is a code of now, or a recovery code that is not used.
  pub validate_mfa_code-eq-ok :
      (u : User) (code : Text) (w : World) {v : World}
      → validate_mfa_code env u code w ≡ (ok true, v)
      → HasSecondFactor u code w
  unfolding validate_mfa_code check_totp ask pure
  validate_mfa_code-eq-ok u code w {v} h = elim (Bool-cases (is_empty (trim_space code))) [
    | inl blank ↦ absurd (ground arith)
    | inr given ↦
        let (valid, read, h1) =
          >>=-eq-ok (check_totp env u (trim_space code)) continue w {v = v} (rw given at h) in
        by_totp valid read h1
  ]
    where
      continue : Bool → M Bool
      continue valid =
          if valid
          then pure true
          else consume_recovery env u.id (env.hashes.hash_secret (trim_space code))

      by_totp :
          (valid : Bool)
          → env.totp_valid u.totp_secret (trim_space code) w.now ≡ ok valid
          → continue valid w ≡ (ok true, v)
          → HasSecondFactor u code w
      by_totp true read k = inl read
      by_totp false read k = inr (consumed-eq-ok u (trim_space code) w k)

  pub find_by_identifier-eq-ok :
      (identifier country_code : Text) (w : World) {o : Option User}
      → (find_by_identifier env identifier country_code w).0 ≡ ok o
      → (account_of identifier country_code w.users ≡ o)
        × ((find_by_identifier env identifier country_code w).1 ≡ w)
  unfolding find_by_identifier find_by_email find_by_phone query pure
  find_by_identifier-eq-ok identifier country_code w h =
      elim (Bool-cases (contains b'@' identifier)) [
        | inl mail ↦ (ground arith, ground arith)
        | inr phone ↦ elim (Result-cases (normalize_phone identifier country_code)) [
          | inl (e, bad) ↦ (ground arith, ground arith)
          | inr (p, good) ↦ (ground arith, ground arith)
        ]
      ]
