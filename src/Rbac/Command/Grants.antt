-- ===== src/Rbac/Command/Grants.antt =====
-- grant_permission.go and revoke_permission.go.
use go_project_starter.Base.{◌||◌, Option, none, some, [], if◌then◌else◌}
use go_project_starter.Base.Texts.{Text, codes, is_empty, trim_space}
use go_project_starter.Base.Exec.{raise, ◌>>=◌, ◌>>◌}
use go_project_starter.Apierr.{invalid, not_found}
use go_project_starter.Audit.{created, deleted}
use go_project_starter.Rbac.Tables.{Permission}
use go_project_starter.Rbac.World.{Env, M, record_best_effort}
use go_project_starter.Rbac.Repository.Permissions.{find_by_code}
use go_project_starter.Rbac.Repository.Access.{grant_link, withdraw_link}
use go_project_starter.Rbac.Cache.{bump_checked}
use go_project_starter.Rbac.Command.{entry, permission_link_values}

module _ (env : Env) where
  unfoldable pub grant_found : (user_id : Text) → Option Permission → M (Unit {0})
  grant_found user_id none = raise not_found
  grant_found user_id (some p) = do
    grant_link env user_id p.id
    bump_checked env
    record_best_effort env
        (entry env (codes "user_permissions") user_id created [] (permission_link_values p))

  -- `GrantPermission.Execute`
  unfoldable pub grant_permission : (user_id permission : Text) → M (Unit {0})
  grant_permission user_id permission =
      if is_empty (trim_space user_id) || is_empty (trim_space permission)
      then raise invalid
      else (do p ← find_by_code env (trim_space permission); grant_found (trim_space user_id) p)

  unfoldable pub withdraw_found : (user_id : Text) → Option Permission → M (Unit {0})
  withdraw_found user_id none = raise not_found
  withdraw_found user_id (some p) = do
    withdraw_link env user_id p.id
    bump_checked env
    record_best_effort env
        (entry env (codes "user_permissions") user_id deleted (permission_link_values p) [])

  -- `RevokePermission.Execute`
  unfoldable pub revoke_permission : (user_id permission : Text) → M (Unit {0})
  revoke_permission user_id permission =
      if is_empty (trim_space user_id) || is_empty (trim_space permission)
      then raise invalid
      else (do p ← find_by_code env (trim_space permission); withdraw_found (trim_space user_id) p)
