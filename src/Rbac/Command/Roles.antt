-- ===== src/Rbac/Command/Roles.antt =====
-- create_role.go, update_role.go and delete_role.go.
use go_project_starter.Base.{not, ◌||◌, Option, none, some, [], if◌then◌else◌, is_some}
use go_project_starter.Base.Texts.{Text, codes, same, is_empty, trim_space}
use go_project_starter.Base.Exec.{pure, raise, require, ◌>>=◌, ◌>>◌}
use go_project_starter.Apierr.{invalid, conflict, not_found, forbidden}
use go_project_starter.Audit.{created, updated, deleted}
use go_project_starter.Rbac.Tables.{Role}
use go_project_starter.Rbac.World.{Env, M, record_best_effort}
use go_project_starter.Rbac.Domain.{new_role}
use go_project_starter.Rbac.Repository.Roles.{find_by_code, save, delete_role_by_id, update_name}
use go_project_starter.Rbac.Cache.{bump_best_effort, bump_checked}
use go_project_starter.Rbac.Command.{is_protected_role, entry, role_values}

module _ (env : Env) where
  -- What a role that is made does, here and in `Bootstrap.ensureRole`.
  unfoldable pub add_role : (code name : Text) → M (Unit {0})
  add_role code name = do
    r ← new_role env code name
    save env r
    record_best_effort env (entry env (codes "roles") r.id created [] (role_values r.code r.name))

  -- `CreateRole.Execute`
  unfoldable pub create_role : (code name : Text) → M (Unit {0})
  create_role code name =
      if is_empty (trim_space code) || is_empty (trim_space name) then raise invalid else (do
        existing ← find_by_code env (trim_space code)
        require (not (is_some existing)) conflict (add_role (trim_space code) (trim_space name)))

  unfoldable pub rename : (name : Text) → Option Role → M (Unit {0})
  rename name none = raise not_found
  rename name (some r) = if same name r.name then pure tt else (do
    update_name env r.id name
    bump_best_effort env
    record_best_effort env (
        entry env (codes "roles") r.id updated (role_values r.code r.name)
          (role_values r.code name)))

  -- `UpdateRole.Execute`
  unfoldable pub update_role : (code name : Text) → M (Unit {0})
  update_role code name =
      if is_empty (trim_space code) || is_empty (trim_space name)
      then raise invalid
      else if is_protected_role (trim_space code)
      then raise forbidden
      else (do r ← find_by_code env (trim_space code); rename (trim_space name) r)

  unfoldable pub drop_role : Option Role → M (Unit {0})
  drop_role none = raise not_found
  drop_role (some r) = do
    delete_role_by_id env r.id
    bump_checked env
    record_best_effort env (entry env (codes "roles") r.id deleted (role_values r.code r.name) [])

  -- `DeleteRole.Execute`
  unfoldable pub delete_role : (code : Text) → M (Unit {0})
  delete_role code =
      if is_empty (trim_space code)
      then raise invalid
      else if is_protected_role (trim_space code)
      then raise forbidden
      else (do r ← find_by_code env (trim_space code); drop_role r)
