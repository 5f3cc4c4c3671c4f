-- ===== src/Auth/Login/Tests.antt =====
-- Runs of the ways to sign in, and the theorems at them.
pub mod Delivery
use go_project_starter.Base.{true, false, none, some, [], ◌∷◌, ◌≡◌, ◌≢◌, refl, arith, All, pos, ◌≤◌}
use go_project_starter.Base.Texts.{Text, codes, same, trim_space, lower_text, contains, is_empty}
use go_project_starter.Base.Exec.{Result, ok, err, ◌>>=◌}
use go_project_starter.Apierr.{not_found, too_many_requests, invalid}
use go_project_starter.Auth.Domain.User.{User}
use go_project_starter.Auth.Domain.VerificationCode.{
  VerificationCode, email, verify, magic_link, reset,
}
use go_project_starter.Auth.World.{World}
use go_project_starter.Auth.Command.Login.{LoginResult, LoginConfig, LoginCommand, login}
use go_project_starter.Auth.Command.Verify.{validate_code}
use go_project_starter.Auth.Command.RateLimit.{Limiter, check_limit}
use go_project_starter.Auth.Command.MagicLink.{magic_link_verify}
use go_project_starter.Base.Assoc.{lookup, put, without}
use go_project_starter.Base.Texts.{trim_left, is_space, lower}
use go_project_starter.Base.Decimal.{parse_int, format_int, from_digits, to_digits, parse_magnitude}
use go_project_starter.Cache.{
  increment, number_of, item_or_empty, live_item, is_live, expire, value_of, get_delete,
}
use go_project_starter.Cache
use go_project_starter.Auth.Domain.User.{
  is_suspended, is_email_verified, is_totp_enabled, set_password_hash,
}
use go_project_starter.Auth.Domain.RefreshToken.{new_refresh_token, is_revoked, revoke}
use go_project_starter.Auth.Domain.VerificationCode.{is_consumed, is_expired, matches, consume}
use go_project_starter.Auth.World.{query, exec, new_id, new_opaque_token, record_best_effort}
use go_project_starter.Auth.Repository.Users.{
  user_by_email, find_by_email, update, update_row, is_taken, user_by_id, find_by_id,
}
use go_project_starter.Auth.Command.Denylist.{deny, deny_all, deny_one}
use go_project_starter.Auth.Repository.Families.{
  is_active_of, group_keys, insert_by, sort_by, aggregate, active_family_ids, active_families,
}
use go_project_starter.Auth.Repository.Tokens.{
  is_insertable, save, list_active_families, jtis_by_user, jtis_where, revoke_by_user_id,
  revoke_where,
}
use go_project_starter.Auth.Repository.Codes.{
  is_open, newest_code, update_codes, find_latest_active, purpose_text, channel_text, use_recovery,
  consume_code, increment_attempts, consume_recovery,
}
use go_project_starter.Auth.Command.Issuer.{
  clock_now, evict, enforce_session_cap, load_roles, family_for, store_token, sign, issue_in_family,
  issue,
}
use go_project_starter.Auth.Command.RateLimit.{limiter_key, count_up, renew, reset_limit}
use go_project_starter.Auth.Command.Challenge.{validate_mfa_code, check_totp}
use go_project_starter.Auth.Command.Login.{find_by_identifier, sign_in, second_factor, login_as}
use go_project_starter.Auth.Command.Verify.{spend, wrong_guess, judge}
use go_project_starter.Auth.Session.Tests.{ann, test_env, live_world}
use go_project_starter.Auth.Login.Password.{IsEarned, login-IsEarned}
use go_project_starter.Auth.Login.Guesses.{
  CodesInBudget, validate_code-InBudget, IsSpent, validate_code-IsSpent, no_double_spend,
}
use go_project_starter.Auth.Command.Passwords.{
  change_password, change_for, replace_password, deny_user, store_password, byte_length,
  reset_password, reset_with, reset_for, reset_password_of, normalize_identifier,
}
use go_project_starter.Auth.Login.Factor.{account_of}
use go_project_starter.Auth.Login.Disable.{HasNoCodes, disable_totp_proved}
use go_project_starter.Auth.Login.Factor.{HasSecondFactor}
use go_project_starter.Auth.Domain.User.{disable_totp}
use go_project_starter.Auth.Repository.Recovery.{delete_all, without_codes}
use go_project_starter.Auth.Command.Totp.{disable_totp_for, disable_for, turn_off}
use go_project_starter.Auth.Login.Redeem.{at_time, challenge_round_trip}
use go_project_starter.Auth.Command.Challenge.{issue_challenge, take_challenge}
use go_project_starter.Auth.Login.Reset.{IsReset, reset_password_resets}
use go_project_starter.Auth.Login.Passwords.{IsSignedOut, change_password_signs_out}
use go_project_starter.Auth.Login.Limit.{Attempts, first, another, key, check_limit_lem}
use go_project_starter.Auth.Login.Link.{IsClosed, closed_link}
use go_project_starter.Cache.Laws.{counted}

running : Unit {0}
unfolding login reset_password reset_with reset_for reset_password_of normalize_identifier
    find_latest_active purpose_text channel_text change_password change_for replace_password
    deny_user store_password byte_length set_password_hash update update_row is_taken user_by_id
    find_by_id jtis_by_user jtis_where revoke_by_user_id revoke_where deny deny_all deny_one
    trim_space trim_left is_space lower_text lower contains same lookup put without parse_int
    format_int from_digits to_digits parse_magnitude increment number_of item_or_empty live_item
    is_live expire Cache.delete is_suspended is_email_verified is_totp_enabled new_refresh_token
    is_revoked revoke is_consumed is_expired matches consume query exec new_id new_opaque_token
    record_best_effort user_by_email find_by_email is_active_of group_keys insert_by sort_by
    aggregate active_family_ids active_families is_insertable save list_active_families is_open
    newest_code update_codes use_recovery consume_code increment_attempts consume_recovery clock_now
    evict enforce_session_cap load_roles family_for store_token sign issue_in_family issue
    limiter_key count_up renew check_limit reset_limit validate_mfa_code check_totp
    find_by_identifier sign_in second_factor login_as spend wrong_guess judge validate_code ◌>>=◌
running = tt

abbrev ann_mail : User
ann_mail = record ann {
  email = some (codes "ann@x.org");
  password_hash = codes "$secret";
  totp_secret = codes "123456";
  totp_confirmed_at = some 3;
}

abbrev login_world : World
login_world = record live_world { users = ann_mail ∷ [] }

abbrev limiter : Limiter
limiter = record { most = pos 5; window = pos 60; prefix = codes "rl" }

abbrev config : LoginConfig
config = record {
  require_email_verified = false;
  country_code = codes "62";
  limiter = limiter;
  challenge_ttl = pos 300;
}

abbrev command : LoginCommand
command = record {
  identifier = codes " Ann@X.org";
  password = codes "secret";
  code = codes "123456";
  ip = codes "ip";
}

abbrev logged_in : LoginResult
logged_in = record {
  tokens = some (record {
    access_token = b'a' ∷ b'i' ∷ 1 ∷ [];
    refresh_token = b't' ∷ 2 ∷ [];
    expires_in = 15;
  });
  user = ann_mail;
  mfa_challenge = [];
}

logs_in :
    login test_env config command login_world
    ≡ (ok logged_in, (login test_env config command login_world).1)
unfolding running
logs_in = refl

login-IsEarned_example :
    IsEarned test_env config command login_world
      (login test_env config command login_world).1
      logged_in
login-IsEarned_example = login-IsEarned test_env config command login_world logs_in

abbrev code : VerificationCode
code = record {
  id = codes "c1";
  user_id = codes "ann";
  channel = email;
  purpose = verify;
  code_hash = codes "$4711";
  attempts = 1;
  expires_at = 30;
  consumed_at = none;
  created_at = 10;
  updated_at = 10;
}

abbrev code_world : World
code_world = record live_world { codes = code ∷ [] }

abbrev spent_world : World
spent_world = record code_world {
  codes = record code { consumed_at = some 20; updated_at = 20 } ∷ [];
}

spends : validate_code test_env (some code) (codes "4711") 3 code_world ≡ (ok tt, spent_world)
unfolding running
spends = refl

validate_code-IsSpent_example : IsSpent test_env (some code) (codes "4711") 3 code_world spent_world
validate_code-IsSpent_example =
    validate_code-IsSpent test_env (some code) (codes "4711") 3 code_world spent_world spends

no_double_spend_example :
    validate_code test_env (some code) (codes "4711") 3 spent_world ≢ (ok tt, spent_world)
no_double_spend_example =
    no_double_spend test_env code (codes "4711") (codes "4711") 3 code_world spent_world spent_world
      spends refl spent_world

validate_code-InBudget_example :
    CodesInBudget test_env 3 (validate_code test_env (some code) (codes "0000") 3 code_world).1
validate_code-InBudget_example =
    validate_code-InBudget test_env 3 (some code) (codes "0000") code_world (omega arith, tt)

abbrev strict : Limiter
strict = record { most = pos 1; window = pos 60; prefix = codes "rl" }

abbrev tried_once : World
tried_once = (check_limit test_env strict (codes "ann") (codes "ip") live_world).1

none_yet : counted 20 (key test_env strict (codes "ann") (codes "ip")) [] ≡ pos 0
unfolding running counted
none_yet = refl

on_time : tried_once.now ≤ 80
unfolding running
on_time = omega arith

tried : Attempts test_env strict (codes "ann") (codes "ip") 1 tried_once
tried = another (first none_yet) refl on_time

check_limit_lem_example :
    (check_limit test_env strict (codes "ann") (codes "ip") tried_once).0 ≡ err too_many_requests
check_limit_lem_example =
    check_limit_lem test_env strict (codes "ann") (codes "ip") 59 1 tried_once refl refl refl
      (omega arith) tried

abbrev old_link : VerificationCode
old_link = record code { purpose = magic_link; code_hash = codes "#token"; expires_at = 20 }

named : is_empty (trim_space (codes "token")) ≡ false
unfolding running
named = refl

shut : All (IsClosed 20 (test_env.hashes.hash_secret (trim_space (codes "token")))) (old_link ∷ [])
unfolding running
shut = (refl, tt)

closed_link_example :
    magic_link_verify test_env
      (pos 300)
      (codes "token")
      (record live_world { codes = old_link ∷ [] })
    ≡ (err not_found, record live_world { codes = old_link ∷ [] })
closed_link_example =
    closed_link test_env (pos 300) (codes "token") (record live_world { codes = old_link ∷ [] })
      refl named shut

abbrev ann_logged : World
ann_logged = record live_world { users = ann_mail ∷ [] }

abbrev hashing : Text → Result Text
hashing raw = ok (b'$' ∷ raw)

abbrev changed_world : World
changed_world =
    (change_password test_env hashing (codes "ann") (codes "secret") (codes "longer secret")
      ann_logged).1

changes :
    change_password test_env hashing
      (codes "ann")
      (codes "secret")
      (codes "longer secret")
      ann_logged
    ≡ (ok tt, changed_world)
unfolding running
changes = refl

change_password_signs_out_example :
    (u : User) × (user_by_id (codes "ann") ann_logged.users ≡ some u)
    × (test_env.compare_password (codes "secret") u.password_hash ≡ true)
    × IsSignedOut (codes "ann") changed_world.tokens
change_password_signs_out_example =
    change_password_signs_out test_env hashing (codes "ann") (codes "secret")
      (codes "longer secret") ann_logged changes

abbrev reset_world : World
reset_world = record ann_logged { codes = record code { purpose = reset } ∷ [] }

abbrev after_reset : World
after_reset =
    (reset_password test_env hashing ok (codes "62") (codes "ann@x.org") (codes "4711")
      (codes "longer secret") 3 reset_world).1

resets :
    reset_password test_env hashing ok
      (codes "62")
      (codes "ann@x.org")
      (codes "4711")
      (codes "longer secret")
      3
      reset_world
    ≡ (ok tt, after_reset)
unfolding running
resets = refl

reset_password_resets_example :
    (known : Text) × (u : User) × (normalize_identifier ok (codes "ann@x.org") (codes "62")
      ≡ ok known)
    × (account_of known (codes "62") reset_world.users ≡ some u)
    × IsReset test_env hashing u known (codes "4711") 3 reset_world after_reset
reset_password_resets_example =
    reset_password_resets test_env hashing (codes "62") ok (codes "ann@x.org") (codes "4711")
      (codes "longer secret") 3 reset_world resets

abbrev drawn_world : World
drawn_world = record live_world { drawn = 100 }

-- A challenge for Ann is redeemed one time unit before it lapses.
challenge_round_trip_example :
    let issued = issue_challenge test_env (pos 5) (codes "ann") (codes "ann@x.org") drawn_world in
    let first = take_challenge test_env (b't' ∷ 100 ∷ []) (at_time 14 issued.1) in
    (issued.0 ≡ ok (b't' ∷ 100 ∷ []))
    × (first.0 ≡ ok (codes "ann", codes "ann@x.org"))
    × ((take_challenge test_env (b't' ∷ 100 ∷ []) first.1).0 ≡ err invalid)
unfolding trim_space trim_left is_space contains
challenge_round_trip_example =
    challenge_round_trip test_env drawn_world 4 14 (codes "ann") (codes "ann@x.org") refl refl refl
      refl refl refl refl (omega arith)

abbrev enrolled : User
enrolled = record ann { totp_secret = codes "s1"; totp_confirmed_at = some 1 }

abbrev enrolled_world : World
enrolled_world = record live_world { users = enrolled ∷ [] }

abbrev disabled_world : World
disabled_world = (disable_totp_for test_env (codes "ann") (codes " s1 ") enrolled_world).1

disables :
    disable_totp_for test_env (codes "ann") (codes " s1 ") enrolled_world ≡ (ok tt, disabled_world)
unfolding running disable_totp_for disable_for turn_off disable_totp delete_all without_codes
    find_by_id user_by_id update update_row is_taken record_best_effort
disables = refl

disable_totp_proved_example :
    (u : User) × (user_by_id (codes "ann") enrolled_world.users ≡ some u)
    × (is_totp_enabled u ≡ true)
    × HasSecondFactor test_env u (codes " s1 ") enrolled_world
    × HasNoCodes u.id disabled_world.recovery
disable_totp_proved_example =
    disable_totp_proved test_env (codes "ann") (codes " s1 ") enrolled_world disables
