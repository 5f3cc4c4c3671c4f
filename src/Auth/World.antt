-- ===== src/Auth/World.antt =====
-- What the use cases of internal/modules/auth work on: the tables, the cache and the audit trail
-- (`World`), and what they are given by the rest of the program and by packages (`Env`).
-- Every call of a driver may fail, as `fails` says, and a call that fails has no effect. The clock
-- stands still within one use case; the read pool is the write pool.
pub mod Keeping
use go_project_starter.Base.{
  ℕ, suc, Bool, true, false, Option, none, some, List, [], ◌∷◌, ◌++◌, if◌then◌else◌, ℤ,
}
use go_project_starter.Base.Texts.{Text}
use go_project_starter.Base.Exec.{Result, ok, err, Exec, ask, ◌>>=◌}
use go_project_starter.Apierr.{Err, backend}
use go_project_starter.Audit.{Actor, Entry}
use go_project_starter.Cache.{Memory}
use go_project_starter.Auth.Domain.User.{User}
use go_project_starter.Auth.Domain.RefreshToken.{RefreshToken}
use go_project_starter.Auth.Domain.VerificationCode.{VerificationCode, Hashes}

-- A row of user_recovery_codes.
pub record RecoveryCode : Type 0 where
  pub user_id : Text
  pub code_hash : Text
  pub used_at : Option ℕ

pub record World : Type 0 where
  pub now : ℕ
  -- how many identifiers and random tokens have been drawn
  pub drawn : ℕ
  pub users : List User
  pub tokens : List RefreshToken
  pub codes : List VerificationCode
  pub recovery : List RecoveryCode
  pub cache : Memory
  pub trail : List Entry

-- The calls of a driver that may fail.
pub data Call : Type 0 where
  find_by_hash save_token revoke_if_active list_families record_entry : Call
  jtis_by_family revoke_family jtis_by_user revoke_user : Text → Call
  find_user update_user save_user : Call
  cache_set cache_get cache_get_delete cache_increment cache_expire cache_delete : Text → Call
  find_code save_code consume_code increment_attempts invalidate_codes : Call
  consume_recovery save_recovery delete_recovery : Call
  enqueue_task : Call

pub record Claims : Type 0 where
  pub user_id : Text
  pub roles : List Text
  pub jti : Text

pub record Env : Type 0 where
  pub fails : Call → Bool
  -- `id.New()` and `NewOpaqueToken()`: the n-th draw
  pub fresh_id : ℕ → Text
  pub fresh_token : ℕ → Text
  pub hashes : Hashes
  -- `PasswordHasher.Compare`
  pub compare_password : (password hash : Text) → Bool
  -- `IssueAccessToken`, which signs at a time for a while
  pub issue_access_token : Claims → (ttl now : ℕ) → Result Text
  -- `ParseAccessToken`, at a time
  pub parse_access_token : Text → (now : ℕ) → Result Claims
  -- `port.Roles`; nil where RBAC is not wired
  pub roles : Option (Text → Result (List Text))
  -- `totp.Validate` with a window of one period
  pub totp_valid : (secret code : Text) (now : ℕ) → Result Bool
  pub access_ttl : ℕ
  pub refresh_ttl : ℕ
  -- 0 or less: no cap
  pub max_sessions : ℤ
  -- whether a cache and an auditor are wired
  pub has_cache : Bool
  pub has_auditor : Bool
  pub actor : Actor

abbrev pub M : Type 0 → Type 0
M A = Exec World A

module _ (env : Env) where
  -- A read of the tables or of the cache.
  unfoldable pub query : {A : Type 0} → Call → (World → A) → M A
  query c f w = (if env.fails c then err backend else ok (f w), w)

  -- A statement that writes.
  unfoldable pub exec : {A : Type 0} → Call → (World → A × World) → M A
  exec c f w = if env.fails c then (err backend, w) else (ok (f w).0, (f w).1)

  -- `domain.NewID()`.
  unfoldable pub new_id : M Text
  new_id w = (ok (env.fresh_id w.drawn), record w { drawn = suc w.drawn })

  -- `domain.NewOpaqueToken()`.
  unfoldable pub new_opaque_token : M Text
  new_opaque_token w = (ok (env.fresh_token w.drawn), record w { drawn = suc w.drawn })

  -- `audit.RecordBestEffort`, and nothing where no auditor is wired.
  unfoldable pub record_best_effort : Entry → M (Unit {0})
  record_best_effort e w = (
    ok tt,
    if env.has_auditor
        then (if env.fails record_entry then w else record w { trail = w.trail ++ e ∷ [] })
        else w,
  )
