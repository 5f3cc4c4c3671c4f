-- ===== src/Rbac/Domain.antt =====
-- internal/modules/rbac/domain/role.go and internal/application/authorization: new rows, and the
-- codes that the program itself relies on.
use go_project_starter.Base.{not, ◌||◌, if◌then◌else◌}
use go_project_starter.Base.Texts.{Text, codes, is_empty, trim_space}
use go_project_starter.Base.Exec.{pure, require, ◌>>=◌}
use go_project_starter.Apierr.{invalid}
use go_project_starter.Rbac.Tables.{Role, Permission}
use go_project_starter.Rbac.World.{Env, M, new_id}

abbrev pub role_super_admin : Text
role_super_admin = codes "super_admin"

abbrev pub role_user : Text
role_user = codes "user"

abbrev pub permission_manage_rbac : Text
permission_manage_rbac = codes "rbac.manage"

module _ (env : Env) where
  unfoldable pub new_role : (code name : Text) → M Role
  new_role code name =
      require (not (is_empty (trim_space code) || is_empty (trim_space name))) invalid
        (do id ← new_id env; pure (record { id = id; code = code; name = name }))

  unfoldable pub new_permission : (code group name : Text) → M Permission
  new_permission code group name =
      require (not (is_empty (trim_space code) || is_empty (trim_space name))) invalid (do
        id ← new_id env
        pure (record {
          id = id;
          code = code;
          group = if is_empty (trim_space group) then codes "General" else group;
          name = name;
        }))
