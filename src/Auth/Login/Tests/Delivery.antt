-- ===== src/Auth/Login/Tests/Delivery.antt =====
-- Runs of the deliveries of codes and links, and the theorems at them.
use go_project_starter.Base.{true, none, some, [], ◌∷◌, ◌≡◌, refl, sym, ◌+◌}
use go_project_starter.Base.Texts.{
  Text, codes, same, same_refl, trim_space, trim_left, is_space, lower_text, lower, contains,
}
use go_project_starter.Base.Exec.{ok, ◌>>=◌}
use go_project_starter.Auth.Domain.User.{User}
use go_project_starter.Auth.Domain.VerificationCode.{
  reset, is_consumed, consume, new_verification_code, hash_code,
}
use go_project_starter.Auth.World.{World, query, exec, new_id, new_opaque_token}
use go_project_starter.Auth.Repository.Users.{user_by_email, find_by_email}
use go_project_starter.Auth.Repository.Codes.{
  update_codes, purpose_text, channel_text, invalidate_by_user, save_code, is_code_insertable,
  find_latest_active,
}
use go_project_starter.Auth.Command.Login.{find_by_identifier}
use go_project_starter.Auth.Command.Passwords.{normalize_identifier}
use go_project_starter.Auth.Command.Totp.{char_at}
use go_project_starter.Auth.Command.Verify.{validate_code}
use go_project_starter.Auth.Command.Delivery.{
  Delivered, channel_for, draw_digits, generate_otp, store_code, reset_code_for, reset_code_to,
  process_forgot_password, process_magic_link, link_to, link_for, trim_slash, Desk, onto, limited,
  enqueue_delivery, forgot_task, request_delivery, forgot_password, magic_link_request,
  send_forgot_password_email,
}
use go_project_starter.Auth.Session.Tests.{ann, test_env, live_world}
use go_project_starter.Auth.Login.Factor.{account_of}
use go_project_starter.Auth.Login.Blind.{SameDesk, requests_are_blind}
use go_project_starter.Auth.Login.ResetCode.{reset_code_accepted}

delivering : Unit {0}
unfolding process_forgot_password reset_code_to reset_code_for store_code generate_otp draw_digits
    channel_for char_at find_by_identifier normalize_identifier find_latest_active
    is_code_insertable save_code invalidate_by_user channel_text purpose_text update_codes
    find_by_email user_by_email new_opaque_token new_id exec query hash_code new_verification_code
    consume is_consumed ◌>>=◌ contains lower lower_text is_space trim_left trim_space same
    trim_slash link_for link_to process_magic_link forgot_password request_delivery forgot_task
    enqueue_delivery limited onto
delivering = tt

abbrev ann_mail : User
ann_mail = record ann { email = some (codes "ann@x.org") }

abbrev mail_world : World
mail_world = record live_world { users = ann_mail ∷ [] }

-- Asking for a reset code queues a task, whether or not there is an account.
queues :
    (forgot_password test_env none 30 ok
      (codes "62")
      (codes " ann@x.org")
      (codes "ip")
      (record { world = live_world; queued = [] })).1.queued
    ≡ send_forgot_password_email (codes "ann@x.org") ∷ []
unfolding delivering
queues = refl

abbrev delivered : Delivered
delivered = record { user = some ann_mail; secret = codes "123" }

abbrev after_delivery : World
after_delivery =
    (process_forgot_password test_env (λ n. ok (1 + n)) 3 30 ok (codes "62") (codes "ann@x.org")
      (record mail_world { drawn = 0 })).1

delivers :
    process_forgot_password test_env
      (λ n. ok (1 + n))
      3
      30
      ok
      (codes "62")
      (codes "ann@x.org")
      (record mail_world { drawn = 0 })
    ≡ (ok delivered, after_delivery)
unfolding delivering
delivers = refl

links :
    (process_magic_link test_env
      (codes "https://x/")
      30
      ok
      (codes "ann@x.org")
      (record mail_world { drawn = 64 })).0
    ≡ ok (record {
      user = some ann_mail;
      secret = codes "https://x/api/v1/auth/magic-link/verify?token=t@";
    })
unfolding delivering
links = refl

hash_of : {a b : Text} → ok a ≡ ok b → a ≡ b
hash_of h = cc

hashes_match :
    (raw hash : Text)
    → test_env.hashes.generate raw ≡ ok hash
    → test_env.hashes.compare_hash hash raw ≡ true
hashes_match raw hash h = rw (sym (hash_of h)) (same_refl (b'$' ∷ raw))

known_mail : normalize_identifier ok (codes "ann@x.org") (codes "62") ≡ ok (codes "ann@x.org")
unfolding delivering
known_mail = refl

reset_code_accepted_example :
    (account_of (codes "ann@x.org") (codes "62") mail_world.users ≡ some ann_mail)
    × (((find_latest_active test_env (codes "ann") reset (channel_for (codes "ann@x.org")) >>= λ o.
            validate_code test_env o (codes "123") 3)
          after_delivery).0
        ≡ ok tt)
reset_code_accepted_example =
    reset_code_accepted test_env (λ n. ok (1 + n)) 3 30 hashes_match refl refl refl ok (codes "62")
      (codes "ann@x.org") (codes "ann@x.org") ann_mail delivered 3 (record mail_world { drawn = 0 })
      after_delivery refl known_mail delivers refl

abbrev stranger_desk : Desk
stranger_desk = record { world = live_world; queued = [] }

abbrev account_desk : Desk
account_desk = record { world = mail_world; queued = [] }

requests_are_blind_example :
    let forgot =
      forgot_password test_env none 30 ok (codes "62") (codes "ann@x.org") (codes "ip") in
    let asked = magic_link_request test_env none 30 ok (codes "ann@x.org") (codes "ip") in
    (((forgot account_desk).0 ≡ (forgot stranger_desk).0)
      × SameDesk (forgot account_desk).1 (forgot stranger_desk).1)
    × ((asked account_desk).0 ≡ (asked stranger_desk).0)
    × SameDesk (asked account_desk).1 (asked stranger_desk).1
requests_are_blind_example =
    requests_are_blind test_env none 30 ok (codes "62") (codes "ann@x.org") (codes "ip")
      account_desk stranger_desk ((refl, refl), refl)
