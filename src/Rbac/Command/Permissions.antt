-- ===== src/Rbac/Command/Permissions.antt =====
-- create_permission.go, update_permission.go and delete_permission.go.
use go_project_starter.Base.{not, ◌&&◌, ◌||◌, Option, none, some, [], if◌then◌else◌, is_some}
use go_project_starter.Base.Texts.{Text, codes, same, is_empty, trim_space}
use go_project_starter.Base.Exec.{pure, raise, require, ◌>>=◌, ◌>>◌}
use go_project_starter.Apierr.{invalid, conflict, not_found, forbidden}
use go_project_starter.Audit.{created, updated, deleted}
use go_project_starter.Rbac.Tables.{Permission}
use go_project_starter.Rbac.World.{Env, M, record_best_effort}
use go_project_starter.Rbac.Domain.{new_permission}
use go_project_starter.Rbac.Repository.Permissions.{
  find_by_code, save, delete_permission_by_id, update,
}
use go_project_starter.Rbac.Cache.{bump_best_effort, bump_checked}
use go_project_starter.Rbac.Command.{is_protected_permission, entry, permission_values}

abbrev group_or : Text → Text → Text
group_or old new = if is_empty new then old else new

module _ (env : Env) where
  -- What a permission that is made does, here and in `Bootstrap.ensurePermission`.
  unfoldable pub add_permission : (code group name : Text) → M (Unit {0})
  add_permission code group name = do
    p ← new_permission env code group name
    save env p
    record_best_effort env
        (entry env (codes "permissions") p.id created [] (permission_values p.code p.group p.name))

  -- `CreatePermission.Execute`
  unfoldable pub create_permission : (code group name : Text) → M (Unit {0})
  create_permission code group name =
      if is_empty (trim_space code) || is_empty (trim_space name) then raise invalid else (do
        existing ← find_by_code env (trim_space code)
        require (not (is_some existing)) conflict
            (add_permission (trim_space code) (trim_space group) (trim_space name)))

  unfoldable pub change : (group name : Text) → Permission → M (Unit {0})
  change group name p = if same group p.group && same name p.name then pure tt else (do
    update env p.id group name
    bump_best_effort env
    record_best_effort env (
        entry env (codes "permissions") p.id updated (permission_values p.code p.group p.name)
          (permission_values p.code group name)))

  -- An empty group stays as it was.
  unfoldable pub change_found : (group name : Text) → Option Permission → M (Unit {0})
  change_found group name none = raise not_found
  change_found group name (some p) = change (group_or p.group group) name p

  -- `UpdatePermission.Execute`
  unfoldable pub update_permission : (code group name : Text) → M (Unit {0})
  update_permission code group name =
      if is_empty (trim_space code) || is_empty (trim_space name)
      then raise invalid
      else if is_protected_permission (trim_space code)
      then raise forbidden
      else (do
        p ← find_by_code env (trim_space code)
        change_found (trim_space group) (trim_space name) p)

  unfoldable pub drop_permission : Option Permission → M (Unit {0})
  drop_permission none = raise not_found
  drop_permission (some p) = do
    delete_permission_by_id env p.id
    bump_checked env
    record_best_effort env
        (entry env (codes "permissions") p.id deleted (permission_values p.code p.group p.name) [])

  -- `DeletePermission.Execute`
  unfoldable pub delete_permission : (code : Text) → M (Unit {0})
  delete_permission code =
      if is_empty (trim_space code)
      then raise invalid
      else if is_protected_permission (trim_space code)
      then raise forbidden
      else (do p ← find_by_code env (trim_space code); drop_permission p)
