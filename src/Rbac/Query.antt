-- ===== src/Rbac/Query.antt =====
-- application/query: get_user.go, get_role.go and list.go; the service of api.go, and authorizer.go.
pub mod Codes
use go_project_starter.Base.{
  Bool, ◌||◌, Option, none, some, List, [], ◌∷◌, ◌++◌, if◌then◌else◌, any, ℤ,
}
use go_project_starter.Base.Texts.{Text, same, is_empty}
use go_project_starter.Base.Exec.{pure, raise, best_effort, ◌>>=◌, ◌>>◌}
use go_project_starter.Apierr.{not_found}
use go_project_starter.Rbac.Tables.{Role, Permission}
use go_project_starter.Rbac.World.{Env, M, UserEntry}
use go_project_starter.Rbac.Domain.{role_super_admin}
use go_project_starter.Rbac.Repository.Roles.{
  find_by_code, permissions_for, list_all, permissions_for_all,
}
use go_project_starter.Rbac.Repository.Permissions.{list_sorted}
use go_project_starter.Rbac.Repository.Access.{roles, direct_permissions, role_permission_codes}
use go_project_starter.Rbac.Cache.{current_version, cached_user, set_user}

pub record RolesPermissions : Type 0 where
  pub roles : List Text
  pub permissions : List Text

pub record RoleDetail : Type 0 where
  pub id : Text
  pub code : Text
  pub name : Text
  pub permissions : List Text

-- The items of a list that were not seen before.
unfoldable pub unseen : (seen : List Text) → List Text → List Text
unseen seen [] = []
unseen seen (s ∷ ss) =
    let skipped = unseen seen ss in
    let kept = unseen (s ∷ seen) ss in if any (same s) seen then skipped else s ∷ kept

unfoldable pub union : List Text → List Text → List Text
unfolding unseen
union xs ys = unseen [] (xs ++ ys)

-- `authorization.ErrForbidden` or nil.
pub data Verdict : Type 0 where
  allowed denied : Verdict

abbrev verdict : Bool → Verdict
verdict held = if held then allowed else denied

module _ (env : Env) where
  -- `GetUser.load`
  unfoldable pub load : (user_id : Text) → M RolesPermissions
  load user_id = do
    held ← roles env user_id
    direct ← direct_permissions env user_id
    inherited ← role_permission_codes env user_id
    pure (record { roles = held; permissions = union direct inherited })

  -- A hit answers; else the load answers, and its result is stored as well as may be.
  unfoldable pub served : (user_id : Text) → ℤ → Option UserEntry → M RolesPermissions
  served user_id ver (some e) = pure (record { roles = e.roles; permissions = e.permissions })
  served user_id ver none = do
    res ← load user_id
    best_effort (set_user env user_id ver res.roles res.permissions)
    pure res

  -- `GetUser.Execute`
  unfoldable pub get_user : (user_id : Text) → M RolesPermissions
  get_user user_id =
      if env.has_cache
      then (do ver ← current_version env; hit ← cached_user env user_id ver; served user_id ver hit)
      else load user_id

  unfoldable pub has_permission : (user_id permission : Text) → M Bool
  has_permission user_id permission = do
    res ← get_user user_id
    pure (any (same role_super_admin) res.roles || any (same permission) res.permissions)

  unfoldable pub has_role : (user_id role : Text) → M Bool
  has_role user_id role = do res ← get_user user_id; pure (any (same role) res.roles)

  -- `Authorizer.HasPermission` and `HasRole`: an empty code asks for nothing.
  unfoldable pub authorize_permission : (user_id permission : Text) → M Verdict
  authorize_permission user_id permission =
      if is_empty permission
      then pure allowed
      else (do held ← has_permission user_id permission; pure (verdict held))

  unfoldable pub authorize_role : (user_id role : Text) → M Verdict
  authorize_role user_id role =
      if is_empty role then pure allowed else (do held ← has_role user_id role; pure (verdict held))

  unfoldable pub detail_of : Option Role → M RoleDetail
  detail_of none = raise not_found
  detail_of (some r) = do
    codes ← permissions_for env r.id
    pure (record { id = r.id; code = r.code; name = r.name; permissions = codes })

  -- `GetRole.Execute`
  unfoldable pub get_role : (code : Text) → M RoleDetail
  get_role code = do r ← find_by_code env code; detail_of r

  abbrev details : (Text → List Text) → List Role → List RoleDetail
  details codes [] = []
  details codes (r ∷ rs) =
      record { id = r.id; code = r.code; name = r.name; permissions = codes r.id }
      ∷ details codes rs

  -- `ListRoles.Execute`
  unfoldable pub list_roles : M (List RoleDetail)
  list_roles = do rs ← list_all env; codes ← permissions_for_all env; pure (details codes rs)

  -- `ListPermissions.Execute`
  unfoldable pub list_permissions : M (List Permission)
  list_permissions = list_sorted env
