-- ===== src/Auth/Domain/RefreshToken.antt =====
-- internal/modules/auth/domain/refresh_token.go
use go_project_starter.Base.{ℕ, ◌+◌, Bool, Option, none, some, is_some, ltb}
use go_project_starter.Base.Texts.{Text}

pub record RefreshToken : Type 0 where
  pub id : Text
  pub user_id : Text
  pub family_id : Text
  pub jti : Text
  pub token_hash : Text
  pub expires_at : ℕ
  pub revoked_at : Option ℕ
  pub created_at : ℕ
  pub updated_at : ℕ

-- The hash is of the raw token, by `HashSecret`.
unfoldable pub new_refresh_token :
    (id user_id token_hash family_id jti : Text) (ttl now : ℕ) → RefreshToken
new_refresh_token id user_id token_hash family_id jti ttl now = record {
  id = id;
  user_id = user_id;
  family_id = family_id;
  jti = jti;
  token_hash = token_hash;
  expires_at = now + ttl;
  revoked_at = none;
  created_at = now;
  updated_at = now;
}

pub record RefreshFamily : Type 0 where
  pub id : Text
  pub created_at : ℕ
  pub last_used : ℕ
  pub expires_at : ℕ

-- `now.After(t.ExpiresAt)`.
unfoldable pub is_expired : ℕ → RefreshToken → Bool
is_expired now t = ltb t.expires_at now

unfoldable pub is_revoked : RefreshToken → Bool
is_revoked t = is_some t.revoked_at

unfoldable pub revoke : ℕ → RefreshToken → RefreshToken
revoke now t = record t { revoked_at = some now; updated_at = now }
