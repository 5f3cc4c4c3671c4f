-- ===== src/Rbac/Tables.antt =====
-- internal/modules/rbac/infrastructure/repository.go: the five tables, and each statement as a
-- function of their rows. Codes are compared exactly, and ordered by their code points.
use go_project_starter.Base.{
  ℕ, suc, Bool, true, false, not, ◌&&◌, ◌||◌, Option, none, some, List, [], ◌∷◌, ◌++◌,
  if◌then◌else◌, ltb, ◌==◌, any, find, select,
}
use go_project_starter.Base.Texts.{Text, same}

pub record Role : Type 0 where
  pub id : Text
  pub code : Text
  pub name : Text

pub record Permission : Type 0 where
  pub id : Text
  pub code : Text
  pub group : Text
  pub name : Text

-- A row of role_permissions, of user_roles (the user first) or of user_permissions.
pub record Link : Type 0 where
  pub left : Text
  pub right : Text

pub record Tables : Type 0 where
  pub roles : List Role
  pub permissions : List Permission
  pub role_permissions : List Link
  pub user_roles : List Link
  pub user_permissions : List Link

abbrev pub has_link : Text → Text → Link → Bool
has_link left right l = same l.left left && same l.right right

abbrev pub linked : Text → Text → List Link → Bool
linked left right ls = any (has_link left right) ls

-- WHERE code = ?
unfoldable pub role_by_code : Text → List Role → Option Role
role_by_code code = find (λ (r : Role). same r.code code)

unfoldable pub permission_by_code : Text → List Permission → Option Permission
permission_by_code code = find (λ (p : Permission). same p.code code)

-- INSERT … ON CONFLICT DO NOTHING, of a link whose two sides are there.
unfoldable pub insert_link : Text → Text → List Link → List Link
insert_link left right ls =
    if linked left right ls then ls else ls ++ record { left = left; right = right } ∷ []

-- DELETE FROM … WHERE … = ? AND … = ?
unfoldable pub delete_link : Text → Text → List Link → List Link
delete_link left right ls = select (λ l. not (has_link left right l)) ls

-- DELETE FROM role_permissions WHERE role_id = ?, and the cascades of ON DELETE.
unfoldable pub delete_left : Text → List Link → List Link
delete_left left ls = select (λ (l : Link). not (same l.left left)) ls

unfoldable pub delete_right : Text → List Link → List Link
delete_right right ls = select (λ (l : Link). not (same l.right right)) ls

-- The order of ORDER BY code.
unfoldable pub text_lt : Text → Text → Bool
text_lt s [] = false
text_lt [] (d ∷ t) = true
text_lt (c ∷ s) (d ∷ t) = ltb c d || (c == d && text_lt s t)

unfoldable pub insert_text : Text → List Text → List Text
unfolding text_lt
insert_text s [] = s ∷ []
insert_text s (t ∷ ts) = let rest = insert_text s ts in if text_lt t s then t ∷ rest else s ∷ t ∷ ts

unfoldable pub sort_texts : List Text → List Text
unfolding insert_text
sort_texts [] = []
sort_texts (s ∷ ss) = insert_text s (sort_texts ss)

-- ORDER BY group_name ASC, code ASC
unfoldable pub permission_lt : Permission → Permission → Bool
unfolding text_lt
permission_lt p q = text_lt p.group q.group || (same p.group q.group && text_lt p.code q.code)

unfoldable pub insert_permission : Permission → List Permission → List Permission
unfolding permission_lt
insert_permission p [] = p ∷ []
insert_permission p (q ∷ qs) =
    let rest = insert_permission p qs in if permission_lt q p then q ∷ rest else p ∷ q ∷ qs

unfoldable pub sort_permissions : List Permission → List Permission
unfolding insert_permission
sort_permissions [] = []
sort_permissions (p ∷ ps) = insert_permission p (sort_permissions ps)

-- SELECT DISTINCT
unfoldable pub distinct : List Text → List Text
distinct [] = []
distinct (s ∷ ss) = let rest = distinct ss in if any (same s) rest then rest else s ∷ rest

-- The codes of the roles, or of the permissions, whose identifier passes a test.
unfoldable pub role_codes : (Text → Bool) → List Role → List Text
role_codes p [] = []
role_codes p (r ∷ rs) = let rest = role_codes p rs in if p r.id then r.code ∷ rest else rest

unfoldable pub permission_codes : (Text → Bool) → List Permission → List Text
permission_codes p [] = []
permission_codes p (r ∷ rs) =
    let rest = permission_codes p rs in if p r.id then r.code ∷ rest else rest

-- `PermissionsFor`: FROM permissions p JOIN role_permissions rp ON rp.permission_id = p.id WHERE …
unfoldable pub codes_of_role : Text → Tables → List Text
unfolding permission_codes sort_texts
codes_of_role role_id t =
    sort_texts (permission_codes (λ id. linked role_id id t.role_permissions) t.permissions)

-- `Roles`
unfoldable pub roles_of : Text → Tables → List Text
unfolding role_codes sort_texts
roles_of user_id t = sort_texts (role_codes (λ id. linked user_id id t.user_roles) t.roles)

-- `DirectPermissions`
unfoldable pub direct_of : Text → Tables → List Text
unfolding permission_codes sort_texts
direct_of user_id t =
    sort_texts (permission_codes (λ id. linked user_id id t.user_permissions) t.permissions)

-- A role of the user is linked to the permission: the two joins of `RolePermissionCodes`.
abbrev pub inherits : Text → Text → Tables → Bool
inherits user_id permission_id t =
    any (λ (l : Link). same l.right permission_id && linked user_id l.left t.user_roles)
      t.role_permissions

-- `RolePermissionCodes`
unfoldable pub inherited_of : Text → Tables → List Text
unfolding permission_codes sort_texts distinct
inherited_of user_id t =
    sort_texts (distinct (permission_codes (λ id. inherits user_id id t) t.permissions))

-- `CountUsersWithRole`
unfoldable pub count_users : Text → List Link → ℕ
count_users role_id [] = 0
count_users role_id (l ∷ ls) =
    let rest = count_users role_id ls in if same l.right role_id then suc rest else rest

-- `Delete` of a role and of a permission, with what ON DELETE CASCADE removes.
unfoldable pub delete_role_row : Text → Tables → Tables
unfolding delete_left delete_right
delete_role_row id t = record t {
  roles = select (λ (r : Role). not (same r.id id)) t.roles;
  role_permissions = delete_left id t.role_permissions;
  user_roles = delete_right id t.user_roles;
}

unfoldable pub delete_permission_row : Text → Tables → Tables
unfolding delete_right
delete_permission_row id t = record t {
  permissions = select (λ (p : Permission). not (same p.id id)) t.permissions;
  role_permissions = delete_right id t.role_permissions;
  user_permissions = delete_right id t.user_permissions;
}

-- `UpdateName` and `Update`
unfoldable pub rename_role : Text → Text → List Role → List Role
rename_role id name [] = []
rename_role id name (r ∷ rs) =
    (if same r.id id then record r { name = name } else r) ∷ rename_role id name rs

unfoldable pub rename_permission : Text → Text → Text → List Permission → List Permission
rename_permission id group name [] = []
rename_permission id group name (p ∷ ps) =
    (if same p.id id then record p { group = group; name = name } else p)
    ∷ rename_permission id group name ps

-- The inserts of `SetPermissions`: none where one of them breaks the primary key, or names a
-- permission that is not there.
unfoldable pub add_links : Text → List Text → List Permission → List Link → Option (List Link)
add_links role_id [] ps ls = some ls
add_links role_id (p ∷ ids) ps ls =
    let rest = add_links role_id ids ps (ls ++ record { left = role_id; right = p } ∷ []) in
    if linked role_id p ls || not (any (λ (q : Permission). same q.id p) ps) then none else rest
