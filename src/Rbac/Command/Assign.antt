-- ===== src/Rbac/Command/Assign.antt =====
-- assign_role.go. No caller is the program itself, which may give any role.
use go_project_starter.Base.{◌||◌, Option, none, some, [], if◌then◌else◌, any}
use go_project_starter.Base.Texts.{Text, codes, same, is_empty, trim_space}
use go_project_starter.Base.Exec.{pure, raise, require, ◌>>=◌, ◌>>◌}
use go_project_starter.Apierr.{invalid, not_found, forbidden}
use go_project_starter.Audit.{created}
use go_project_starter.Rbac.Tables.{Role}
use go_project_starter.Rbac.World.{Env, M, record_best_effort}
use go_project_starter.Rbac.Domain.{role_super_admin}
use go_project_starter.Rbac.Repository.Roles.{find_by_code}
use go_project_starter.Rbac.Repository.Access.{assign_link, roles}
use go_project_starter.Rbac.Cache.{bump_checked}
use go_project_starter.Rbac.Command.{entry, role_link_values}

module _ (env : Env) where
  unfoldable pub link_role : (user_id : Text) → Role → M (Unit {0})
  link_role user_id r = do
    assign_link env user_id r.id
    bump_checked env
    record_best_effort env (entry env (codes "user_roles") user_id created [] (role_link_values r))

  -- `authorizeSuperAdminGrant`, for a caller, and what follows.
  unfoldable pub authorize_grant : (caller : Option Text) (target : Text) → M (Unit {0})
  authorize_grant none target = pure tt
  authorize_grant (some caller) target = if same caller target then raise forbidden else (do
    held ← roles env caller
    require (any (same role_super_admin) held) forbidden (pure tt))

  unfoldable pub assign_found : (user_id : Text) → Option Role → M (Unit {0})
  assign_found user_id none = raise not_found
  assign_found user_id (some r) =
      if same r.code role_super_admin
      then (do authorize_grant env.caller user_id; link_role user_id r)
      else link_role user_id r

  -- `AssignRole.Execute`
  unfoldable pub assign_role : (user_id role : Text) → M (Unit {0})
  assign_role user_id role =
      if is_empty (trim_space user_id) || is_empty (trim_space role)
      then raise invalid
      else (do r ← find_by_code env (trim_space role); assign_found (trim_space user_id) r)
