-- ===== src/Rbac/Command/Bootstrap.antt =====
-- bootstrap.go, and the built-in rows of seeder/roles_permissions_seeder.go.
use go_project_starter.Base.{false, ◌++◌, List, [], ◌∷◌, if◌then◌else◌, is_some}
use go_project_starter.Base.Texts.{Text, codes, is_empty, trim_space}
use go_project_starter.Base.Exec.{pure, ◌>>=◌, ◌>>◌}
use go_project_starter.Rbac.World.{Env, M}
use go_project_starter.Rbac.Domain.{role_super_admin, role_user, permission_manage_rbac}
use go_project_starter.Rbac.Repository.Roles
use go_project_starter.Rbac.Repository.Permissions
use go_project_starter.Rbac.Cache.{bump_best_effort}
use go_project_starter.Rbac.Command.Roles.{add_role}
use go_project_starter.Rbac.Command.Permissions.{add_permission}

pub record BootstrapRole : Type 0 where
  pub code : Text
  pub name : Text

pub record BootstrapPermission : Type 0 where
  pub code : Text
  pub group : Text
  pub name : Text

unfoldable pub default_roles : List BootstrapRole
default_roles =
    record { code = role_super_admin; name = codes "Super Admin" }
    ∷ record { code = role_user; name = codes "User" }
    ∷ []

unfoldable pub default_permissions : List BootstrapPermission
default_permissions =
    record { code = permission_manage_rbac; group = codes "RBAC"; name = codes "Manage RBAC" } ∷ []

module _ (env : Env) where
  unfoldable pub ensure_role : (code name : Text) → M (Unit {0})
  ensure_role code name = if is_empty code then pure tt else (do
    existing ← Roles.find_by_code env code
    if is_some existing then pure tt else add_role env code name)

  unfoldable pub ensure_permission : (code group name : Text) → M (Unit {0})
  ensure_permission code group name = if is_empty code then pure tt else (do
    existing ← Permissions.find_by_code env code
    if is_some existing then pure tt else add_permission env code group name)

  unfoldable pub ensure_roles : List BootstrapRole → M (Unit {0})
  ensure_roles [] = pure tt
  ensure_roles (r ∷ rs) = do ensure_role (trim_space r.code) (trim_space r.name); ensure_roles rs

  unfoldable pub ensure_permissions : List BootstrapPermission → M (Unit {0})
  ensure_permissions [] = pure tt
  ensure_permissions (p ∷ ps) = do
    ensure_permission (trim_space p.code) (trim_space p.group) (trim_space p.name)
    ensure_permissions ps

  -- `Bootstrap.Execute`
  unfoldable pub bootstrap : List BootstrapRole → List BootstrapPermission → M (Unit {0})
  bootstrap rs ps = do ensure_permissions ps; ensure_roles rs; bump_best_effort env

-- `RolesPermissionsSeeder.Run`: no cache and no auditor is wired.
unfoldable pub run_seeder : Env → List BootstrapRole → List BootstrapPermission → M (Unit {0})
run_seeder env extra_roles extra_permissions =
    bootstrap (record env { has_cache = false; has_auditor = false }) (default_roles ++ extra_roles)
      (default_permissions ++ extra_permissions)
