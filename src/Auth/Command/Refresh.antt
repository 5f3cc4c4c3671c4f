-- ===== src/Auth/Command/Refresh.antt =====
-- refresh.go: the exchange of a refresh token, and what follows its reuse.
use go_project_starter.Base.{Option, none, some, if◌then◌else◌}
use go_project_starter.Base.Texts.{Text, is_empty, trim_space}
use go_project_starter.Base.Exec.{pure, raise, best_effort, ◌>>=◌, ◌>>◌}
use go_project_starter.Apierr.{unauthorized}
use go_project_starter.Auth.Domain.User.{User, is_suspended}
use go_project_starter.Auth.Domain.RefreshToken.{RefreshToken, is_expired, is_revoked}
use go_project_starter.Auth.World.{Env, M}
use go_project_starter.Auth.Repository.Tokens
use go_project_starter.Auth.Repository.Tokens.{find_by_hash, revoke_by_id_if_active}
use go_project_starter.Auth.Repository.Users.{find_by_id}
use go_project_starter.Auth.Command.Denylist.{deny_family}
use go_project_starter.Auth.Command.Issuer.{TokenResult, clock_now, issue_in_family}

module _ (env : Env) where
  -- `revokeFamily`, whose errors are swallowed.
  unfoldable pub revoke_session : Text → M (Unit {0})
  revoke_session family_id =
      if is_empty family_id
      then pure tt
      else (do deny_family env family_id; best_effort (Tokens.revoke_family env family_id))

  unfoldable pub reused : RefreshToken → M TokenResult
  reused t = do revoke_session t.family_id; raise unauthorized

  -- A lost race counts as reuse; the winner continues the same family.
  unfoldable pub exchange : RefreshToken → User → M TokenResult
  exchange t user = do
    active ← revoke_by_id_if_active env t.id
    if active then issue_in_family env user.id t.family_id else reused t

  unfoldable pub for_user : RefreshToken → Option User → M TokenResult
  for_user t none = raise unauthorized
  for_user t (some user) = if is_suspended user then raise unauthorized else exchange t user

  unfoldable pub timely : RefreshToken → M TokenResult
  timely t = do
    now ← clock_now
    if is_expired now t
        then raise unauthorized
        else (do user ← find_by_id env t.user_id; for_user t user)

  unfoldable pub present : Option RefreshToken → M TokenResult
  present none = raise unauthorized
  present (some t) = if is_revoked t then reused t else timely t

  -- `Refresh.Execute`.
  unfoldable pub refresh : Text → M TokenResult
  refresh refresh_token =
      let raw = trim_space refresh_token in
      if is_empty raw
      then raise unauthorized
      else (do t ← find_by_hash env (env.hashes.hash_secret raw); present t)
