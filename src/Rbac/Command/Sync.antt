-- ===== src/Rbac/Command/Sync.antt =====
-- sync_role_permissions.go: the permissions of a role are replaced, and those that are new made.
use go_project_starter.Base.{Option, none, some, List, [], ◌∷◌, ◌++◌, if◌then◌else◌, any}
use go_project_starter.Base.Texts.{Text, codes, same, is_empty, trim_space, cut}
use go_project_starter.Base.Exec.{pure, raise, ◌>>=◌, ◌>>◌}
use go_project_starter.Apierr.{not_found}
use go_project_starter.Audit.{updated}
use go_project_starter.Rbac.Tables.{Role, Permission}
use go_project_starter.Rbac.World.{Env, M, record_best_effort}
use go_project_starter.Rbac.Domain.{new_permission}
use go_project_starter.Rbac.Repository.Roles.{find_by_code, set_permissions, permissions_for}
use go_project_starter.Rbac.Repository.Permissions
use go_project_starter.Rbac.Cache.{bump_checked}
use go_project_starter.Rbac.Command.{Values, entry}

-- What is before the first dot, where that is not empty.
unfoldable pub group_for : Text → Text
group_for code = elim (cut 46 code) [
  | none ↦ codes "General"
  | some ([], rest) ↦ codes "General"
  | some (c ∷ before, rest) ↦ c ∷ before
]

-- The codes that the loop works on: trimmed, without empty ones, each at its first place.
unfoldable pub wanted_codes : (seen : List Text) → List Text → List Text
wanted_codes seen [] = []
wanted_codes seen (raw ∷ raws) =
    let skipped = wanted_codes seen raws in
    let kept = wanted_codes (trim_space raw ∷ seen) raws in
    if is_empty (trim_space raw)
    then skipped
    else if any (same (trim_space raw)) seen
    then skipped
    else trim_space raw ∷ kept

-- The values of the entry: a value for each code of the list.
abbrev sync_values : Role → List Text → Values
sync_values r [] = (codes "role", r.code) ∷ []
sync_values r (c ∷ cs) = sync_values r cs ++ (codes "permissions", c) ∷ []

module _ (env : Env) where
  -- The permission that was found, or a new one.
  unfoldable pub found_or_new : (code : Text) → Option Permission → M Permission
  found_or_new code (some p) = pure p
  found_or_new code none = do
    p ← new_permission env code (group_for code) code
    Permissions.save env p
    pure p

  unfoldable pub resolve : (code : Text) → M Permission
  resolve code = do p ← Permissions.find_by_code env code; found_or_new code p

  unfoldable pub resolve_all : List Text → M (List Permission)
  resolve_all [] = pure []
  resolve_all (code ∷ rest) = do p ← resolve code; ps ← resolve_all rest; pure (p ∷ ps)

  abbrev ids_of : List Permission → List Text
  ids_of [] = []
  ids_of (p ∷ ps) = p.id ∷ ids_of ps

  abbrev codes_of : List Permission → List Text
  codes_of [] = []
  codes_of (p ∷ ps) = p.code ∷ codes_of ps

  unfoldable pub sync_found : List Text → Option Role → M (Unit {0})
  sync_found raws none = raise not_found
  sync_found raws (some r) = do
    old_codes ← permissions_for env r.id
    ps ← resolve_all (wanted_codes [] raws)
    set_permissions env r.id (ids_of ps)
    bump_checked env
    record_best_effort env (
        entry env (codes "role_permissions") r.id updated (sync_values r old_codes)
          (sync_values r (codes_of ps)))

  -- `SyncRolePermissions.Execute`
  unfoldable pub sync_role_permissions : (role : Text) → List Text → M (Unit {0})
  sync_role_permissions role raws = do r ← find_by_code env (trim_space role); sync_found raws r
