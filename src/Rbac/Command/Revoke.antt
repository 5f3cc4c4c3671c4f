-- ===== src/Rbac/Command/Revoke.antt =====
-- revoke_role.go.
use go_project_starter.Base.{◌||◌, Option, none, some, [], leb, not, if◌then◌else◌, any}
use go_project_starter.Base.Texts.{Text, codes, same, is_empty, trim_space}
use go_project_starter.Base.Exec.{pure, raise, require, ◌>>=◌, ◌>>◌}
use go_project_starter.Apierr.{invalid, not_found, forbidden}
use go_project_starter.Audit.{deleted}
use go_project_starter.Rbac.Tables.{Role}
use go_project_starter.Rbac.World.{Env, M, record_best_effort}
use go_project_starter.Rbac.Domain.{role_super_admin}
use go_project_starter.Rbac.Repository.Roles.{find_by_code}
use go_project_starter.Rbac.Repository.Access.{revoke_link, roles, count_users_with_role}
use go_project_starter.Rbac.Cache.{bump_checked}
use go_project_starter.Rbac.Command.{entry, role_link_values}

module _ (env : Env) where
  unfoldable pub unlink_role : (user_id : Text) → Role → M (Unit {0})
  unlink_role user_id r = do
    revoke_link env user_id r.id
    bump_checked env
    record_best_effort env (entry env (codes "user_roles") user_id deleted (role_link_values r) [])

  -- `ensureSuperAdminRemains`: a user who does not hold the role loses nothing.
  unfoldable pub ensure_super_admin_remains : (target : Text) → Role → M (Unit {0})
  ensure_super_admin_remains target r = do
    held ← roles env target
    if any (same r.code) held
        then (do n ← count_users_with_role env r.id; require (not (leb n 1)) forbidden (pure tt))
        else pure tt

  unfoldable pub revoke_found : (user_id : Text) → Option Role → M (Unit {0})
  revoke_found user_id none = raise not_found
  revoke_found user_id (some r) =
      if same r.code role_super_admin
      then (do ensure_super_admin_remains user_id r; unlink_role user_id r)
      else unlink_role user_id r

  -- `RevokeRole.Execute`
  unfoldable pub revoke_role : (user_id role : Text) → M (Unit {0})
  revoke_role user_id role =
      if is_empty (trim_space user_id) || is_empty (trim_space role)
      then raise invalid
      else (do r ← find_by_code env (trim_space role); revoke_found (trim_space user_id) r)
