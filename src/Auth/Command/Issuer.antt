-- ===== src/Auth/Command/Issuer.antt =====
-- issuer.go: access and refresh tokens for a login, and the cap on the sessions of a user.
use go_project_starter.Base.{
  ℕ, zero, suc, ◌-◌, none, some, List, [], ◌∷◌, if◌then◌else◌, length, positive,
}
use go_project_starter.Base.Texts.{Text, codes, is_empty}
use go_project_starter.Base.Exec.{ok, pure, ask, ◌>>=◌, ◌>>◌}
use go_project_starter.Audit.{Entry, created}
use go_project_starter.Auth.Domain.RefreshToken.{RefreshToken, RefreshFamily, new_refresh_token}
use go_project_starter.Auth.World.{Env, M, new_id, new_opaque_token, record_best_effort}
use go_project_starter.Auth.Repository.Tokens.{save, revoke_family, list_active_families}
use go_project_starter.Auth.Command.Denylist.{deny_family}

pub record TokenResult : Type 0 where
  pub access_token : Text
  pub refresh_token : Text
  pub expires_in : ℕ

unfoldable pub clock_now : M ℕ
clock_now = ask (λ w. ok w.now)

module _ (env : Env) where
  -- The loop of `enforceSessionCap`, which counts `excess` down.
  unfoldable pub evict : ℕ → List RefreshFamily → M (Unit {0})
  evict zero fs = pure tt
  evict (suc n) [] = pure tt
  evict (suc n) (f ∷ fs) = do deny_family env f.id; revoke_family env f.id; evict n fs

  -- On natural numbers the excess stops at 0, where the loop breaks at once.
  unfoldable pub enforce_session_cap : Text → M (Unit {0})
  enforce_session_cap user_id = elim (positive env.max_sessions) [
    | none ↦ pure tt
    | some cap ↦ do
      families ← list_active_families env user_id
      evict (length families - (cap - 1)) families
  ]

  unfoldable pub load_roles : Text → M (List Text)
  load_roles user_id = elim env.roles [ none ↦ pure [] | some roles ↦ ask (λ w. roles user_id) ]

  -- An empty family opens a new session, under the cap.
  unfoldable pub family_for : Text → Text → M Text
  family_for user_id family_id =
      if is_empty family_id
      then (do new ← new_id env; enforce_session_cap user_id; pure new)
      else pure family_id

  abbrev issued_entry : RefreshToken → Entry
  issued_entry t = record {
    subject_type = codes "refresh_tokens";
    subject_id = t.id;
    action = created;
    old_values = [];
    new_values = (codes "user_id", t.user_id) ∷ (codes "family_id", t.family_id) ∷ [];
    actor = env.actor;
  }

  -- The refresh token and its raw value are stored and returned last.
  unfoldable pub store_token : Text → Text → Text → Text → M TokenResult
  store_token user_id family_id jti access = do
    raw ← new_opaque_token env
    id ← new_id env
    now ← clock_now
    let t =
        new_refresh_token id user_id (env.hashes.hash_secret raw) family_id jti env.refresh_ttl now
    save env t
    record_best_effort env (issued_entry t)
    pure (record { access_token = access; refresh_token = raw; expires_in = env.access_ttl })

  unfoldable pub sign : Text → List Text → Text → M Text
  sign user_id roles jti = ask λ w.
      env.issue_access_token (record { user_id = user_id; roles = roles; jti = jti }) env.access_ttl
        w.now

  -- `IssueInFamily`.
  unfoldable pub issue_in_family : Text → Text → M TokenResult
  issue_in_family user_id family_id = do
    roles ← load_roles user_id
    family ← family_for user_id family_id
    jti ← new_id env
    access ← sign user_id roles jti
    store_token user_id family jti access

  -- `Issue`.
  unfoldable pub issue : Text → M TokenResult
  issue user_id = issue_in_family user_id []
