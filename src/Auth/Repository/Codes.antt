-- ===== src/Auth/Repository/Codes.antt =====
-- The statements of `VerificationCodeRepository`, and `RecoveryCodeRepository.Consume`. Of codes
-- that were created at the same time, the first row counts as the newest.
use go_project_starter.Base.{
  ℕ, suc, Bool, not, ◌&&◌, ◌||◌, ◌++◌, Option, none, some, List, [], ◌∷◌, ltb, leb, if◌then◌else◌,
  any, is_some,
}
use go_project_starter.Base.Texts.{Text, codes, same}
use go_project_starter.Base.Exec.{ok, err}
use go_project_starter.Apierr.{backend, too_many_requests}
use go_project_starter.Auth.Domain.VerificationCode.{
  VerificationCode, Purpose, verify, verify_old, reset, magic_link, Channel, email, phone, consume,
  is_consumed,
}
use go_project_starter.Auth.Domain.User.{User}
use go_project_starter.Auth.World.{Env, World, RecoveryCode, M, query, exec}
use go_project_starter.Auth.World

-- `string(purpose)` and `string(channel)`, the values of the columns.
unfoldable pub purpose_text : Purpose → Text
purpose_text verify = codes "verify"
purpose_text verify_old = codes "verify_old"
purpose_text reset = codes "reset"
purpose_text magic_link = codes "magic_link"

unfoldable pub channel_text : Channel → Text
channel_text email = codes "email"
channel_text phone = codes "phone"

abbrev pub of_purpose : Purpose → VerificationCode → Bool
of_purpose p c = same (purpose_text c.purpose) (purpose_text p)

abbrev pub of_channel : Channel → VerificationCode → Bool
of_channel ch c = same (channel_text c.channel) (channel_text ch)

-- consumed_at IS NULL AND expires_at > ?
unfoldable pub is_open : ℕ → VerificationCode → Bool
unfolding is_consumed
is_open now c = not (is_consumed c) && ltb now c.expires_at

abbrev newer : VerificationCode → Option VerificationCode → VerificationCode
newer c none = c
newer c (some d) = if leb d.created_at c.created_at then c else d

-- ORDER BY created_at DESC LIMIT 1 of the rows that pass a test.
unfoldable pub newest_code :
    (VerificationCode → Bool) → List VerificationCode → Option VerificationCode
newest_code p [] = none
newest_code p (c ∷ cs) = let rest = newest_code p cs in if p c then some (newer c rest) else rest

abbrev pub has_code_id : Text → VerificationCode → Bool
has_code_id id c = same c.id id

-- UPDATE verification_codes SET … WHERE …
unfoldable pub update_codes :
    (VerificationCode → Bool)
    → (VerificationCode → VerificationCode)
    → List VerificationCode
    → List VerificationCode
update_codes p f [] = []
update_codes p f (c ∷ cs) = (if p c then f c else c) ∷ update_codes p f cs

abbrev pub consumable : Text → VerificationCode → Bool
consumable id c = has_code_id id c && not (is_consumed c)

abbrev pub below_budget : ℕ → Text → VerificationCode → Bool
below_budget max_attempts id c = has_code_id id c && ltb c.attempts max_attempts

abbrev pub tried : ℕ → VerificationCode → VerificationCode
tried now c = record c { attempts = suc c.attempts; updated_at = now }

abbrev pub redeemable : Text → Text → RecoveryCode → Bool
redeemable user_id code_hash r =
    same r.user_id user_id && same r.code_hash code_hash && not (is_some r.used_at)

unfoldable pub use_recovery : (RecoveryCode → Bool) → ℕ → List RecoveryCode → List RecoveryCode
use_recovery p now [] = []
use_recovery p now (r ∷ rs) =
    (if p r then record r { used_at = some now } else r) ∷ use_recovery p now rs

-- What the INSERT needs: a new id, and a user that is stored.
unfoldable pub is_code_insertable : VerificationCode → List VerificationCode → List User → Bool
is_code_insertable c cs us = not (any (has_code_id c.id) cs) && any (λ u. same u.id c.user_id) us

module _ (env : Env) where
  unfoldable pub save_code : VerificationCode → M (Unit {0})
  save_code c w =
      if env.fails World.save_code || not (is_code_insertable c w.codes w.users)
      then (err backend, w)
      else (ok tt, record w { codes = w.codes ++ c ∷ [] })

  unfoldable pub find_latest_active :
      (user_id : Text) → Purpose → Channel → M (Option VerificationCode)
  find_latest_active user_id p ch = query env World.find_code λ w.
      newest_code
        (λ c. same c.user_id user_id && of_purpose p c && of_channel ch c && is_open w.now c)
        w.codes

  unfoldable pub find_active_by_hash : Purpose → (code_hash : Text) → M (Option VerificationCode)
  find_active_by_hash p code_hash = query env World.find_code λ w.
      newest_code (λ c. of_purpose p c && same c.code_hash code_hash && is_open w.now c) w.codes

  unfoldable pub consume_code : Text → M Bool
  consume_code id = exec env World.consume_code λ w. (
    any (consumable id) w.codes,
    record w { codes = update_codes (consumable id) (consume w.now) w.codes },
  )

  -- No row is found where the budget is spent.
  unfoldable pub increment_attempts : Text → (max_attempts : ℕ) → M (Unit {0})
  increment_attempts id max_attempts w =
      if env.fails World.increment_attempts
      then (err backend, w)
      else if any (below_budget max_attempts id) w.codes
      then (
        ok tt,
        record w { codes = update_codes (below_budget max_attempts id) (tried w.now) w.codes },
      )
      else (err too_many_requests, w)

  unfoldable pub invalidate_by_user : (user_id : Text) → Purpose → M (Unit {0})
  invalidate_by_user user_id p = exec env World.invalidate_codes λ w. (
    tt,
    record w {
      codes =
          update_codes (λ c. same c.user_id user_id && of_purpose p c && not (is_consumed c))
            (consume w.now) w.codes;
    },
  )

  unfoldable pub invalidate_by_user_channel : (user_id : Text) → Purpose → Channel → M (Unit {0})
  invalidate_by_user_channel user_id p ch = exec env World.invalidate_codes λ w. (
    tt,
    record w {
      codes =
          update_codes
            (λ c.
              same c.user_id user_id && of_purpose p c && of_channel ch c && not (is_consumed c))
            (consume w.now) w.codes;
    },
  )

  -- `RecoveryCodeRepository.Consume`.
  unfoldable pub consume_recovery : (user_id code_hash : Text) → M Bool
  consume_recovery user_id code_hash = exec env World.consume_recovery λ w. (
    any (redeemable user_id code_hash) w.recovery,
    record w { recovery = use_recovery (redeemable user_id code_hash) w.now w.recovery },
  )
