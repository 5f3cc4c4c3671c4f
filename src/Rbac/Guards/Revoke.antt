-- ===== src/Rbac/Guards/Revoke.antt =====
-- The last super_admin stays one.
use go_project_starter.Base.{
  ◌≤◌, ◌≡◌, refl, sym, ◌∙◌, subst, Bool, true, false, ◌||◌, Option, none, some, arith, any,
  Bool-cases, ◌⊎◌, inl, inr,
}
use go_project_starter.Base.Texts.{Text, same, same_iff, is_empty, trim_space}
use go_project_starter.Base.Exec.{ok, pure, raise, require, ◌>>=◌}
use go_project_starter.Rbac.Tables.{
  Role, Tables, linked, delete_link, count_users, role_by_code, roles_of,
}
use go_project_starter.Rbac.World.{Env, World, read, write, access_revoke}
use go_project_starter.Rbac.Domain.{role_super_admin}
use go_project_starter.Rbac.Repository.Roles.{find_by_code}
use go_project_starter.Rbac.Repository.Access.{revoke_link, roles, count_users_with_role}
use go_project_starter.Rbac.Query.Codes.{any-roles_of}
use go_project_starter.Rbac.Command.Revoke.{
  unlink_role, ensure_super_admin_remains, revoke_found, revoke_role,
}
use go_project_starter.Rbac.Guards.{
  IsKeyedRoles, IsKeyedLinks, role_by_code-eq-some, apart_ids, found_unheld, bind-ends, write-ends,
  some_injective, IsFound, find_by_code-IsFound, noted-Keeps,
}
use go_project_starter.Rbac.Guards.Links.{
  delete_link_absent, count_users-delete_link_apart, count_users-delete_link,
}

module _ (env : Env) (target : Text) (r : Role) (w : World) where
  ensure-left : (ensure_super_admin_remains env target r w).1 ≡ w
  unfolding ensure_super_admin_remains roles count_users_with_role read require pure raise ◌>>=◌
  ensure-left = ground arith

  -- Where the check passes, the user does not hold the role, or another one does.
  ensure-eq-ok :
      {a : Unit {0}}
      → (ensure_super_admin_remains env target r w).0 ≡ ok a
      → (any (same r.code) (roles_of target w.tables) ≡ false)
        ⊎ (2 ≤ count_users r.id w.tables.user_roles)
  unfolding ensure_super_admin_remains roles count_users_with_role read require pure raise ◌>>=◌
  ensure-eq-ok h = ground arith

module _ (env : Env) (r : Role) where
  abbrev IsHeld : Tables → Type 0
  IsHeld t = 1 ≤ count_users r.id t.user_roles

  abbrev StaysHeld : World → Type 0
  StaysHeld w = IsHeld w.tables

  -- The links go last, and what follows leaves the tables.
  unlink_role-StaysHeld :
      (target : Text) (q : Role) (w : World)
      → StaysHeld w
      → 1 ≤ count_users r.id (delete_link target q.id w.tables.user_roles)
      → StaysHeld (unlink_role env target q w).1
  unfolding unlink_role revoke_link write
  unlink_role-StaysHeld target q w h left =
      write-ends StaysHeld (revoke_link env target q.id) _ w
        (deleted_link (env.fails access_revoke) refl) (λ _. noted-Keeps env IsHeld _)
    where
      deleted_link :
          (b : Bool) → env.fails access_revoke ≡ b → StaysHeld (revoke_link env target q.id w).1
      deleted_link true e = rw e h
      deleted_link false e = rw e left

  -- A user who passes the check of the role leaves it held.
  unlinked_super :
      (target : Text) (w : World) {a : Unit {0}}
      → IsKeyedLinks w.tables.user_roles
      → role_by_code r.code w.tables.roles ≡ some r
      → StaysHeld w
      → (ensure_super_admin_remains env target r w).0 ≡ ok a
      → StaysHeld (unlink_role env target r w).1
  unlinked_super target w keyed found h passed = elim (ensure-eq-ok env target r w passed) [
    | inl absent ↦
        let unlinked : linked target r.id w.tables.user_roles ≡ false =
          found_unheld r.code (λ id. linked target id w.tables.user_roles) w.tables.roles found
            (rw (any-roles_of target r.code w.tables) at absent) in
        unlink_role-StaysHeld target r w h
          (rw (delete_link_absent target r.id w.tables.user_roles unlinked) h)
    | inr two ↦
        unlink_role-StaysHeld target r w h
          (omega (arith, count_users-delete_link target r.id w.tables.user_roles keyed, two))
  ]

  revoke_found-StaysHeld :
      (target : Text) (q : Role) (w : World)
      → IsKeyedRoles w.tables.roles
      → IsKeyedLinks w.tables.user_roles
      → role_by_code role_super_admin w.tables.roles ≡ some r
      → role_by_code q.code w.tables.roles ≡ some q
      → StaysHeld w
      → StaysHeld (revoke_found env target (some q) w).1
  unfolding revoke_found
  revoke_found-StaysHeld target q w roles_keyed links_keyed super found h =
      let code : r.code ≡ role_super_admin =
        (role_by_code-eq-some role_super_admin w.tables.roles super).0 in
      elim (Bool-cases (same q.code role_super_admin)) [
        | inl is_super ↦
            let the_role : q ≡ r =
              some_injective
                (sym found ∙ rw (← (same_iff q.code role_super_admin).0 is_super) at super) in
            rw (is_super, the_role)
              (bind-ends StaysHeld (ensure_super_admin_remains env target r) _ w
                (ensure-left env target r w) h
                (λ a passed.
                  unlinked_super target w links_keyed
                    (subst (λ c. role_by_code c w.tables.roles ≡ some r) (sym code) super) h
                    passed))
        | inr other ↦ rw other (
            unlink_role-StaysHeld target q w h (
              rw
                (count_users-delete_link_apart target q.id r.id w.tables.user_roles (
                  apart_ids q.code role_super_admin w.tables.roles roles_keyed found super
                    (rw code other)))
                h))
      ]

  revoke_option-StaysHeld :
      (target : Text) (o : Option Role) (w : World)
      → IsKeyedRoles w.tables.roles
      → IsKeyedLinks w.tables.user_roles
      → role_by_code role_super_admin w.tables.roles ≡ some r
      → IsFound w o
      → StaysHeld w
      → StaysHeld (revoke_found env target o w).1
  unfolding revoke_found raise
  revoke_option-StaysHeld target none w roles_keyed links_keyed super found h = h
  revoke_option-StaysHeld target (some q) w roles_keyed links_keyed super found h =
      revoke_found-StaysHeld target q w roles_keyed links_keyed super found h

-- Revoking a role, of whomever and whatever call fails, leaves the role super_admin with a user if
-- it had one, where the identifiers of the roles and the rows of user_roles are different.
pub revoke_role_keeps_super_admin :
    (env : Env) (w : World) (r : Role) (target role : Text)
    → IsKeyedRoles w.tables.roles
    → IsKeyedLinks w.tables.user_roles
    → role_by_code role_super_admin w.tables.roles ≡ some r
    → 1 ≤ count_users r.id w.tables.user_roles
    → 1 ≤ count_users r.id (revoke_role env target role w).1.tables.user_roles
unfolding revoke_role find_by_code read raise revoke_found
revoke_role_keeps_super_admin env w r target role roles_keyed links_keyed super h =
    elim (Bool-cases (is_empty (trim_space target) || is_empty (trim_space role))) [
      | inl blank ↦ rw blank h
      | inr given ↦ rw given (
          bind-ends (StaysHeld env r) (find_by_code env (trim_space role)) _ w refl h (λ o e.
            revoke_option-StaysHeld env r (trim_space target) o w roles_keyed links_keyed super
              (find_by_code-IsFound env (trim_space role) w e) h))
    ]
