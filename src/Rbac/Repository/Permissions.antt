-- ===== src/Rbac/Repository/Permissions.antt =====
-- `PermissionRepository`, like `RoleRepository`.
use go_project_starter.Base.{Bool, ◌||◌, Option, List, [], ◌∷◌, ◌++◌, if◌then◌else◌, any}
use go_project_starter.Base.Texts.{Text, same}
use go_project_starter.Base.Exec.{ok, err}
use go_project_starter.Apierr.{backend}
use go_project_starter.Rbac.Tables.{
  Permission, permission_by_code, delete_permission_row, rename_permission, sort_permissions,
}
use go_project_starter.Rbac.World.{
  Env, M, read, write, permissions_find, permissions_list, permissions_save, permissions_delete,
  permissions_update,
}

abbrev clashes : Permission → Permission → Bool
clashes p q = same p.id q.id || same p.code q.code

module _ (env : Env) where
  unfoldable pub save : Permission → M (Unit {0})
  save p w =
      if env.fails permissions_save || any (clashes p) w.tables.permissions
      then (err backend, w)
      else (
        ok tt,
        record w { tables = record w.tables { permissions = w.tables.permissions ++ p ∷ [] } },
      )

  unfoldable pub find_by_code : (code : Text) → M (Option Permission)
  find_by_code code = read env permissions_find (λ w. permission_by_code code w.tables.permissions)

  unfoldable pub delete_permission_by_id : (id : Text) → M (Unit {0})
  delete_permission_by_id id =
      write env permissions_delete
        (λ w. (tt, record w { tables = delete_permission_row id w.tables }))

  unfoldable pub update : (id group name : Text) → M (Unit {0})
  update id group name = write env permissions_update λ w. (
    tt,
    record w {
      tables = record w.tables {
        permissions = rename_permission id group name w.tables.permissions;
      };
    },
  )

  unfoldable pub list_sorted : M (List Permission)
  list_sorted = read env permissions_list (λ w. sort_permissions w.tables.permissions)
