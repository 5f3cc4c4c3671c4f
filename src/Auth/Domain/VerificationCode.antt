-- ===== src/Auth/Domain/VerificationCode.antt =====
-- internal/modules/auth/domain/verification_code.go. The two hashes are arguments: SHA-256 in
-- hexadecimal, `HashSecret`, and bcrypt.
use go_project_starter.Base.{ℕ, ◌+◌, Bool, Option, none, some, is_some, ltb}
use go_project_starter.Base.Texts.{Text, same}
use go_project_starter.Base.Exec.{Result, ok, err}

pub data Channel : Type 0 where
  email phone : Channel

pub data Purpose : Type 0 where
  verify verify_old reset magic_link : Purpose

pub record VerificationCode : Type 0 where
  pub id : Text
  pub user_id : Text
  pub channel : Channel
  pub purpose : Purpose
  pub code_hash : Text
  pub attempts : ℕ
  pub expires_at : ℕ
  pub consumed_at : Option ℕ
  pub created_at : ℕ
  pub updated_at : ℕ

-- What the entity uses of the two packages. `generate` may fail, on a raw value that is too long.
pub record Hashes : Type 0 where
  pub hash_secret : Text → Text
  pub generate : Text → Result Text
  pub compare_hash : Text → Text → Bool

unfoldable pub hash_code : Hashes → Text → Purpose → Result Text
hash_code h raw magic_link = ok (h.hash_secret raw)
hash_code h raw _ = h.generate raw

abbrev built :
    (id user_id : Text) → Channel → Purpose → (ttl now : ℕ) → Result Text → Result VerificationCode
built id user_id channel purpose ttl now (err e) = err e
built id user_id channel purpose ttl now (ok code_hash) = ok (record {
  id = id;
  user_id = user_id;
  channel = channel;
  purpose = purpose;
  code_hash = code_hash;
  attempts = 0;
  expires_at = now + ttl;
  consumed_at = none;
  created_at = now;
  updated_at = now;
})

unfoldable pub new_verification_code :
    Hashes
    → (id user_id : Text) → Channel
    → Purpose
    → (raw : Text) (ttl now : ℕ) → Result VerificationCode
unfolding hash_code
new_verification_code h id user_id channel purpose raw ttl now =
    built id user_id channel purpose ttl now (hash_code h raw purpose)

unfoldable pub is_expired : ℕ → VerificationCode → Bool
is_expired now c = ltb c.expires_at now

unfoldable pub is_consumed : VerificationCode → Bool
is_consumed c = is_some c.consumed_at

unfoldable pub consume : ℕ → VerificationCode → VerificationCode
consume now c = record c { consumed_at = some now; updated_at = now }

unfoldable pub matches : Hashes → Text → VerificationCode → Bool
matches h raw c = elim c.purpose [
  | magic_link ↦ same (h.hash_secret raw) c.code_hash
  | _ ↦ h.compare_hash c.code_hash raw
]
