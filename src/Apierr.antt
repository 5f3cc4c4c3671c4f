-- ===== src/Apierr.antt =====
-- internal/application/apierr/apierr.go: the sentinel errors of the application, with the HTTP
-- status and the code that a client sees.
use go_project_starter.Base.{ℕ, String}
use go_project_starter.Base.Texts.{Text, codes}

pub record Kind : Type 0 where
  pub status : ℕ
  pub code : Text

-- The sentinels, and `backend` for any error of a driver, which carries no status.
pub data Err : Type 0 where
  unauthenticated unauthorized forbidden not_found conflict : Err
  verification_needed code_expired too_many_requests payload_too_large : Err
  invalid internal backend : Err

abbrev kind : ℕ → String → Kind
kind status code = record { status = status; code = codes code }

unfoldable pub kind_of : Err → Kind
kind_of unauthenticated = kind 401 "unauthenticated"
kind_of unauthorized = kind 401 "unauthorized"
kind_of forbidden = kind 403 "forbidden"
kind_of not_found = kind 404 "not_found"
kind_of conflict = kind 409 "conflict"
kind_of verification_needed = kind 403 "verification_required"
kind_of code_expired = kind 410 "code_expired"
kind_of too_many_requests = kind 429 "too_many_requests"
kind_of payload_too_large = kind 413 "payload_too_large"
kind_of invalid = kind 422 "invalid"
kind_of internal = kind 500 "internal"
kind_of backend = kind 500 "internal"
