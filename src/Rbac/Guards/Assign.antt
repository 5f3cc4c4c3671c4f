-- ===== src/Rbac/Guards/Assign.antt =====
-- Who becomes a super_admin.
use go_project_starter.Base.{
  ◌≡◌, refl, sym, subst, true, false, ◌&&◌, ◌||◌, Option, none, some, arith, Bool-cases,
  and-eq-true, ◌⊎◌, inl, inr,
}
use go_project_starter.Base.Texts.{Text, same, same_iff, is_empty, trim_space}
use go_project_starter.Base.Exec.{ok, pure, raise, require, ◌>>=◌}
use go_project_starter.Rbac.Tables.{Role, Tables, linked, role_by_code}
use go_project_starter.Rbac.World.{Env, World, read}
use go_project_starter.Rbac.Domain.{role_super_admin}
use go_project_starter.Rbac.Repository.Roles.{find_by_code}
use go_project_starter.Rbac.Repository.Access.{assign_link, insert_ignore, roles}
use go_project_starter.Rbac.Query.Codes.{holds_role, any-roles_of}
use go_project_starter.Rbac.Command.Assign.{link_role, authorize_grant, assign_found, assign_role}
use go_project_starter.Rbac.Guards.{
  IsKeyedRoles, role_by_code-eq-some, apart_ids, bind-ends, write-ends, noted-Keeps, IsFound,
  find_by_code-IsFound,
}
use go_project_starter.Rbac.Guards.Links.{linked-insert_link}

module _ (env : Env) (caller : Text) (w : World) where
  -- The check of a caller leaves the world, and passes for another user only, and for a holder.
  authorize-left : (target : Text) → (authorize_grant env (some caller) target w).1 ≡ w
  unfolding authorize_grant roles read require pure raise ◌>>=◌
  authorize-left target = ground arith

  authorize-eq-ok :
      (target : Text) {a : Unit {0}}
      → (authorize_grant env (some caller) target w).0 ≡ ok a
      → (same caller target ≡ false) × (holds_role caller role_super_admin w.tables ≡ true)
  unfolding authorize_grant roles read require pure raise ◌>>=◌
  authorize-eq-ok target h = ground (arith, any-roles_of caller role_super_admin w.tables)

  -- A user of the role, now or before, or one whom the caller could make one.
  module _ (r : Role) (x : Text) where
    abbrev IsGuarded : Tables → Type 0
    IsGuarded t =
        linked x r.id t.user_roles ≡ true
        → (linked x r.id w.tables.user_roles ≡ true)
          ⊎ ((holds_role caller role_super_admin w.tables ≡ true) × (same caller x ≡ false))

    abbrev EndsGuarded : World → Type 0
    EndsGuarded v = IsGuarded v.tables

    assign_link-EndsGuarded :
        (target id : Text)
        → ((same target x && same id r.id) ≡ true
            → (holds_role caller role_super_admin w.tables ≡ true) × (same caller x ≡ false))
        → EndsGuarded (assign_link env target id w).1
    unfolding assign_link insert_ignore
    assign_link-EndsGuarded target id allowed h =
        elim (Bool-cases (linked x r.id w.tables.user_roles)) [
          | inl before ↦ inl before
          | inr unlinked ↦
              inr
                (allowed (ground (arith, linked-insert_link x r.id target id w.tables.user_roles)))
        ]

    link_role-EndsGuarded :
        (target : Text) (q : Role)
        → ((same target x && same q.id r.id) ≡ true
            → (holds_role caller role_super_admin w.tables ≡ true) × (same caller x ≡ false))
        → EndsGuarded (link_role env target q w).1
    unfolding link_role
    link_role-EndsGuarded target q allowed =
        write-ends EndsGuarded (assign_link env target q.id) _ w
          (assign_link-EndsGuarded target q.id allowed) (λ _. noted-Keeps env IsGuarded _)

    assign_found-EndsGuarded :
        (target : Text) (o : Option Role)
        → env.caller ≡ some caller
        → IsKeyedRoles w.tables.roles
        → role_by_code role_super_admin w.tables.roles ≡ some r
        → IsFound w o
        → EndsGuarded (assign_found env target o w).1
    unfolding assign_found raise
    assign_found-EndsGuarded target none called keyed super found = λ h. inl h
    assign_found-EndsGuarded target (some q) called keyed super found =
        elim (Bool-cases (same q.code role_super_admin)) [
          | inl is_super ↦ rw is_super (
              subst
                (λ c.
                  EndsGuarded ((authorize_grant env c target >>= λ _. link_role env target q) w).1)
                (sym called)
                (bind-ends EndsGuarded (authorize_grant env (some caller) target) _ w
                  (authorize-left target) (λ h. inl h)
                  (λ a passed. link_role-EndsGuarded target q (λ both.
                    let (other, holder) = authorize-eq-ok target passed in
                    (
                      holder,
                      rw
                          (← (same_iff target x).0
                            (and-eq-true (same target x) (same q.id r.id) both).0)
                          other,
                    )))))
          | inr plain ↦ rw plain (
              link_role-EndsGuarded target q (λ both. absurd (
                ground (
                  arith,
                  apart_ids q.code role_super_admin w.tables.roles keyed found super
                      (rw (role_by_code-eq-some role_super_admin w.tables.roles super).0 plain),
                  both,
                ))))
        ]

-- Where a caller assigns a role, whatever call fails, whoever has the role super_admin afterwards
-- had it before, or is another than the caller, who had it before. The identifiers of the roles are
-- different.
pub assign_role_guards_super_admin :
    (env : Env) (w : World) (r : Role) (caller target role x : Text)
    → env.caller ≡ some caller
    → IsKeyedRoles w.tables.roles
    → role_by_code role_super_admin w.tables.roles ≡ some r
    → linked x r.id (assign_role env target role w).1.tables.user_roles ≡ true
    → (linked x r.id w.tables.user_roles ≡ true)
      ⊎ ((holds_role caller role_super_admin w.tables ≡ true) × (same caller x ≡ false))
unfolding assign_role find_by_code read raise
assign_role_guards_super_admin env w r caller target role x called keyed super =
    elim (Bool-cases (is_empty (trim_space target) || is_empty (trim_space role))) [
      | inl blank ↦ rw blank (λ h. inl h)
      | inr given ↦ rw given (
          bind-ends (EndsGuarded env caller w r x) (find_by_code env (trim_space role)) _ w refl
            (λ h. inl h)
            (λ o e.
              assign_found-EndsGuarded env caller w r x (trim_space target) o called keyed super
                (find_by_code-IsFound env (trim_space role) w e)))
    ]
