-- ===== src/Rbac/Repository/Roles.antt =====
-- `RoleRepository`. A code or an identifier that is taken is an error of the INSERT; the widths of
-- the columns are left out.
use go_project_starter.Base.{
  Bool, ◌||◌, Option, none, some, List, [], ◌∷◌, ◌++◌, if◌then◌else◌, any,
}
use go_project_starter.Base.Texts.{Text, same}
use go_project_starter.Base.Exec.{Result, ok, err}
use go_project_starter.Apierr.{backend}
use go_project_starter.Rbac.Tables.{
  Role, Link, Tables, role_by_code, codes_of_role, delete_role_row, rename_role, delete_left,
  add_links,
}
use go_project_starter.Rbac.World.{
  Env, World, M, read, write, roles_find, roles_list, roles_all_codes, roles_save, roles_delete,
  roles_update, roles_set, roles_permissions,
}

abbrev clashes : Role → Role → Bool
clashes r s = same r.id s.id || same r.code s.code

abbrev pub has_role_id : Text → Role → Bool
has_role_id id r = same r.id id

-- The links of a role after `SetPermissions`, where the transaction commits.
unfoldable pub replaced_links : Text → List Text → Tables → Option (List Link)
unfolding add_links delete_left
replaced_links role_id [] t = some (delete_left role_id t.role_permissions)
replaced_links role_id (p ∷ ids) t =
    if any (has_role_id role_id) t.roles
    then add_links role_id (p ∷ ids) t.permissions (delete_left role_id t.role_permissions)
    else none

unfoldable pub commit_links : Option (List Link) → World → Result (Unit {0}) × World
commit_links none w = (err backend, w)
commit_links (some ls) w = (ok tt, record w { tables = record w.tables { role_permissions = ls } })

module _ (env : Env) where
  unfoldable pub save : Role → M (Unit {0})
  save r w =
      if env.fails roles_save || any (clashes r) w.tables.roles
      then (err backend, w)
      else (ok tt, record w { tables = record w.tables { roles = w.tables.roles ++ r ∷ [] } })

  unfoldable pub find_by_code : (code : Text) → M (Option Role)
  find_by_code code = read env roles_find (λ w. role_by_code code w.tables.roles)

  unfoldable pub delete_role_by_id : (id : Text) → M (Unit {0})
  delete_role_by_id id =
      write env roles_delete (λ w. (tt, record w { tables = delete_role_row id w.tables }))

  unfoldable pub update_name : (id name : Text) → M (Unit {0})
  update_name id name = write env roles_update λ w.
      (tt, record w { tables = record w.tables { roles = rename_role id name w.tables.roles } })

  unfoldable pub set_permissions : (role_id : Text) → List Text → M (Unit {0})
  set_permissions role_id ids w =
      if env.fails roles_set
      then (err backend, w)
      else commit_links (replaced_links role_id ids w.tables) w

  unfoldable pub permissions_for : (role_id : Text) → M (List Text)
  permissions_for role_id = read env roles_permissions (λ w. codes_of_role role_id w.tables)

  -- The roles are stored in the order in which they were made.
  unfoldable pub list_all : M (List Role)
  list_all = read env roles_list (λ w. w.tables.roles)

  -- The map from the identifier of a role to its codes.
  unfoldable pub permissions_for_all : M (Text → List Text)
  permissions_for_all = read env roles_all_codes (λ w role_id. codes_of_role role_id w.tables)
