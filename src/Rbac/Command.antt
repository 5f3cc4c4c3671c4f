-- ===== src/Rbac/Command.antt =====
-- The use cases of application/command that change roles, permissions and who holds them.
pub mod Roles
pub mod Permissions
pub mod Assign
pub mod Revoke
pub mod Grants
pub mod Sync
pub mod Bootstrap
use go_project_starter.Base.{Bool, ◌||◌, List, [], ◌∷◌}
use go_project_starter.Base.Texts.{Text, codes, same}
use go_project_starter.Audit.{Action, Entry, created, deleted}
use go_project_starter.Rbac.Tables.{Role, Permission}
use go_project_starter.Rbac.Domain.{role_super_admin, role_user, permission_manage_rbac}
use go_project_starter.Rbac.World.{Env}

unfoldable pub is_protected_role : Text → Bool
is_protected_role code = same code role_super_admin || same code role_user

unfoldable pub is_protected_permission : Text → Bool
is_protected_permission code = same code permission_manage_rbac

abbrev pub Values : Type 0
Values = List (Text × Text)

abbrev pub entry : Env → Text → Text → Action → (old_values new_values : Values) → Entry
entry env subject_type subject_id action old_values new_values = record {
  subject_type = subject_type;
  subject_id = subject_id;
  action = action;
  old_values = old_values;
  new_values = new_values;
  actor = env.actor;
}

abbrev pub role_values : (code name : Text) → Values
role_values code name = (codes "code", code) ∷ (codes "name", name) ∷ []

abbrev pub permission_values : (code group name : Text) → Values
permission_values code group name =
    (codes "code", code) ∷ (codes "group", group) ∷ (codes "name", name) ∷ []

abbrev pub role_link_values : Role → Values
role_link_values r = (codes "role_id", r.id) ∷ (codes "role", r.code) ∷ []

abbrev pub permission_link_values : Permission → Values
permission_link_values p = (codes "permission_id", p.id) ∷ (codes "permission", p.code) ∷ []
