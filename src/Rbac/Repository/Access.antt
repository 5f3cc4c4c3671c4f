-- ===== src/Rbac/Repository/Access.antt =====
-- `UserAccessRepository`. A link to a row that is not there is an error of PostgreSQL; MySQL's
-- INSERT IGNORE passes it over and reports success.
use go_project_starter.Base.{ℕ, Bool, ◌&&◌, List, if◌then◌else◌, any}
use go_project_starter.Base.Texts.{Text, same}
use go_project_starter.Base.Exec.{ok, err}
use go_project_starter.Apierr.{backend}
use go_project_starter.Rbac.Tables.{
  Role, Permission, Tables, insert_link, delete_link, roles_of, direct_of, inherited_of,
  count_users,
}
use go_project_starter.Rbac.World.{
  Env, World, Call, M, read, write, access_roles, access_direct, access_inherited, access_count,
  access_assign, access_revoke, access_grant, access_withdraw,
}

module _ (env : Env) where
  -- `insertIgnore`: a call, whether both rows are there, and the tables with the link.
  unfoldable pub insert_ignore : Call → (World → Bool) → (Tables → Tables) → M (Unit {0})
  insert_ignore c known insert w =
      if env.fails c
      then (err backend, w)
      else if known w
      then (ok tt, record w { tables = insert w.tables })
      else if env.postgres
      then (err backend, w)
      else (ok tt, w)

  unfoldable pub assign_link : (user_id role_id : Text) → M (Unit {0})
  assign_link user_id role_id =
      insert_ignore access_assign
        (λ w. any (same user_id) w.users && any (λ (r : Role). same r.id role_id) w.tables.roles)
        (λ t. record t { user_roles = insert_link user_id role_id t.user_roles })

  unfoldable pub revoke_link : (user_id role_id : Text) → M (Unit {0})
  revoke_link user_id role_id = write env access_revoke λ w. (
    tt,
    record w {
      tables = record w.tables { user_roles = delete_link user_id role_id w.tables.user_roles };
    },
  )

  unfoldable pub grant_link : (user_id permission_id : Text) → M (Unit {0})
  grant_link user_id permission_id =
      insert_ignore access_grant
        (λ w.
          any (same user_id) w.users
          && any (λ (p : Permission). same p.id permission_id) w.tables.permissions)
        (λ t. record t { user_permissions = insert_link user_id permission_id t.user_permissions })

  unfoldable pub withdraw_link : (user_id permission_id : Text) → M (Unit {0})
  withdraw_link user_id permission_id = write env access_withdraw λ w. (
    tt,
    record w {
      tables = record w.tables {
        user_permissions = delete_link user_id permission_id w.tables.user_permissions;
      };
    },
  )

  unfoldable pub roles : (user_id : Text) → M (List Text)
  roles user_id = read env access_roles (λ w. roles_of user_id w.tables)

  unfoldable pub count_users_with_role : (role_id : Text) → M ℕ
  count_users_with_role role_id =
      read env access_count (λ w. count_users role_id w.tables.user_roles)

  unfoldable pub direct_permissions : (user_id : Text) → M (List Text)
  direct_permissions user_id = read env access_direct (λ w. direct_of user_id w.tables)

  unfoldable pub role_permission_codes : (user_id : Text) → M (List Text)
  role_permission_codes user_id = read env access_inherited (λ w. inherited_of user_id w.tables)
