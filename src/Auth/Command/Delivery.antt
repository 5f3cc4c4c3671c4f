-- ===== src/Auth/Command/Delivery.antt =====
-- forgot_password.go and magic_link.go, which queue a delivery; process_forgot_password.go and
-- process_magic_link.go, which issue the code or the link in the worker; issue_verify_code.go;
-- and the tasks of application/task/tasks.go, before they are written as JSON.
-- `NormalizeEmail` and the random digits of otp.Generate are arguments.
use go_project_starter.Base.{
  ◌==◌, ℕ, zero, suc, Option, none, some, List, [], ◌∷◌, ◌++◌, ltb, if◌then◌else◌,
}
use go_project_starter.Base.Texts.{Text, codes, contains}
use go_project_starter.Base.Exec.{Result, ok, err, Exec, ask, pure, raise, ◌>>=◌, ◌>>◌}
use go_project_starter.Apierr.{invalid, backend}
use go_project_starter.Auth.Domain.User.{User}
use go_project_starter.Auth.Domain.VerificationCode.{
  Channel, email, phone, Purpose, verify, reset, magic_link, new_verification_code,
}
use go_project_starter.Auth.World.{Env, World, M, new_id, new_opaque_token, enqueue_task}
use go_project_starter.Auth.Repository.Users.{find_by_email}
use go_project_starter.Auth.Repository.Codes.{
  save_code, invalidate_by_user, invalidate_by_user_channel,
}
use go_project_starter.Auth.Command.RateLimit.{Limiter, check_limit}
use go_project_starter.Auth.Command.Login.{find_by_identifier}
use go_project_starter.Auth.Command.Passwords.{normalize_identifier}
use go_project_starter.Auth.Command.Totp.{draw, char_at}

-- Every task has a `MaxRetry` of 5.
pub data DeliveryTask : Type 0 where
  send_verification_email : (to name code : Text) → DeliveryTask
  send_phone_verification : (to code : Text) → DeliveryTask
  send_forgot_password_email send_forgot_password_sms : (identifier : Text) → DeliveryTask
  send_magic_link_email : (address : Text) → DeliveryTask

-- The tables and the cache, and the tasks that were queued.
pub record Desk : Type 0 where
  pub world : World
  pub queued : List DeliveryTask

unfoldable pub onto : {A : Type 0} → M A → Exec Desk A
onto m d = ((m d.world).0, record d { world = (m d.world).1 })

unfoldable pub forgot_task : (identifier : Text) → DeliveryTask
forgot_task identifier =
    if contains b'@' identifier
    then send_forgot_password_email identifier
    else send_forgot_password_sms identifier

unfoldable pub channel_for : (identifier : Text) → Channel
channel_for identifier = if contains b'@' identifier then email else phone

-- `strings.TrimSuffix(s, "/")`.
unfoldable pub trim_slash : Text → Text
trim_slash [] = []
trim_slash (c ∷ []) = if c == b'/' then [] else c ∷ []
trim_slash (c ∷ d ∷ s) = c ∷ trim_slash (d ∷ s)

pub record Delivered : Type 0 where
  -- nil where nobody has the identifier: nothing is sent
  pub user : Option User
  pub secret : Text

abbrev pub nobody : Delivered
nobody = record { user = none; secret = [] }

module _ (env : Env) where
  -- The `Enqueuer`.
  unfoldable pub enqueue_delivery : DeliveryTask → Exec Desk (Unit {0})
  enqueue_delivery t d =
      if env.fails enqueue_task
      then (err backend, d)
      else (ok tt, record d { queued = d.queued ++ t ∷ [] })

  unfoldable pub limited : Option Limiter → (target ip : Text) → Exec Desk (Unit {0})
  limited none target ip = pure tt
  limited (some l) target ip = onto (check_limit env l target ip)

  module _ (limiter : Option Limiter) (ttl : ℕ) where
    unfoldable pub request_delivery :
        (Text → DeliveryTask) → Result Text → (ip : Text) → Exec Desk ℕ
    request_delivery task (err e) ip = raise invalid
    request_delivery task (ok target) ip = do
      limited limiter target ip
      enqueue_delivery (task target)
      pure ttl

    -- `ForgotPassword.Execute`
    unfoldable pub forgot_password :
        (normalize_email : Text → Result Text) → (country_code identifier ip : Text) → Exec Desk ℕ
    forgot_password normalize_email country_code identifier ip =
        request_delivery forgot_task (normalize_identifier normalize_email identifier country_code)
          ip

    -- `MagicLinkRequest.Execute`
    unfoldable pub magic_link_request :
        (normalize_email : Text → Result Text) → (address ip : Text) → Exec Desk ℕ
    magic_link_request normalize_email address ip =
        request_delivery send_magic_link_email (normalize_email address) ip

  -- A new code, which is saved.
  unfoldable pub store_code :
      (user_id : Text) → Channel → Purpose → (raw : Text) (ttl : ℕ) → M (Unit {0})
  store_code user_id channel purpose raw ttl = do
    id ← new_id env
    c ← ask λ w. new_verification_code env.hashes id user_id channel purpose raw ttl w.now
    save_code env c

  module _ (base_url : Text) (ttl : ℕ) where
    unfoldable pub link_for : Option User → M Delivered
    link_for none = pure nobody
    link_for (some u) = do
      raw ← new_opaque_token env
      invalidate_by_user env u.id magic_link
      store_code u.id email magic_link raw ttl
      pure (record {
        user = some u;
        secret = trim_slash base_url ++ codes "/api/v1/auth/magic-link/verify?token=" ++ raw;
      })

    unfoldable pub link_to : Result Text → M Delivered
    link_to (err e) = pure nobody
    link_to (ok address) = do u ← find_by_email env address; link_for u

    -- `ProcessMagicLink.Execute`
    unfoldable pub process_magic_link :
        (normalize_email : Text → Result Text) → (address : Text) → M Delivered
    process_magic_link normalize_email address = link_to (normalize_email address)

  module _ (random : ℕ → Result ℕ) (otp_length ttl : ℕ) where
    unfoldable pub draw_digits : ℕ → M Text
    draw_digits zero = pure []
    draw_digits (suc n) = do
      v ← draw env random
      s ← draw_digits n
      pure (char_at (codes "0123456789") v ∷ s)

    -- `otp.Generate`
    unfoldable pub generate_otp : M Text
    generate_otp = draw_digits (if ltb otp_length 1 then 6 else otp_length)

    unfoldable pub reset_code_for : (identifier : Text) → Option User → M Delivered
    reset_code_for identifier none = pure nobody
    reset_code_for identifier (some u) = do
      invalidate_by_user env u.id reset
      code ← generate_otp
      store_code u.id (channel_for identifier) reset code ttl
      pure (record { user = some u; secret = code })

    unfoldable pub reset_code_to : (country_code : Text) → Result Text → M Delivered
    reset_code_to country_code (err e) = pure nobody
    reset_code_to country_code (ok identifier) = do
      u ← find_by_identifier env identifier country_code
      reset_code_for identifier u

    -- `ProcessForgotPassword.Execute`
    unfoldable pub process_forgot_password :
        (normalize_email : Text → Result Text) → (country_code identifier : Text) → M Delivered
    process_forgot_password normalize_email country_code identifier =
        reset_code_to country_code (normalize_identifier normalize_email identifier country_code)

    unfoldable pub verification_task : Channel → (to name code : Text) → DeliveryTask
    verification_task email to name code = send_verification_email to name code
    verification_task phone to name code = send_phone_verification to code

    -- `issueCode`
    unfoldable pub issue_code :
        (user_id name : Text) → Channel → Purpose → (to : Text) → Exec Desk Text
    issue_code user_id name channel purpose to = do
      onto (invalidate_by_user_channel env user_id purpose channel)
      code ← onto generate_otp
      onto (store_code user_id channel purpose code ttl)
      enqueue_delivery (verification_task channel to name code)
      pure code

    -- `issueVerificationCode`
    unfoldable pub issue_verification_code :
        (user_id name : Text) → Channel → (to : Text) → Exec Desk Text
    issue_verification_code user_id name channel to = issue_code user_id name channel verify to
