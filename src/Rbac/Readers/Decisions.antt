-- ===== src/Rbac/Readers/Decisions.antt =====
-- What the service and the `Authorizer` decide, as the tables say it.
use go_project_starter.Base.{◌≡◌, refl, ◌||◌, some, [], ◌∷◌, arith, inl, if◌then◌else◌}
use go_project_starter.Base.Texts.{Text, is_empty}
use go_project_starter.Base.Exec.{pure}
use go_project_starter.Base.Assoc.{lookup}
use go_project_starter.Rbac.World.{Env, World, UserEntry}
use go_project_starter.Rbac.Domain.{role_super_admin}
use go_project_starter.Rbac.Query.{
  get_user, has_permission, has_role, allowed, denied, authorize_permission, authorize_role,
}
use go_project_starter.Rbac.Query.Codes.{holds_role, holds_permission, any-roles_of, any-union_of}
use go_project_starter.Rbac.Readers.{System, Reach}
use go_project_starter.Rbac.Readers.Kept.{Reach-IsCoherent}
use go_project_starter.Rbac.Readers.Coherent.{IsCoherent}
use go_project_starter.Rbac.Readers.Answers.{Answers, effective, then-Answers, get_user-Answers}

-- Before the first step: the cache is empty.
abbrev pub started : World → System
started w = record { world = record w { cache = [] }; readers = []; bumps = 0; pending = 0 }

started-IsCoherent : (env : Env) (w : World) → IsCoherent env (started w)
unfolding lookup
started-IsCoherent env w = record {
  version = refl;
  bounded = omega arith;
  items = λ u. tt;
  readers = tt;
}

module _ (env : Env) (u : Text) where
  has_permission-Answers :
      (p : Text) (s : System)
      → s.pending ≡ 0
      → IsCoherent env s
      → Answers env
          (has_permission env u p s.world).0
          (holds_role u role_super_admin s.world.tables || holds_permission u p s.world.tables)
  unfolding has_permission pure
  has_permission-Answers p s quiet h =
      then-Answers env (get_user env u) _ s.world (effective u s.world.tables)
        (get_user-Answers env u s quiet h)
        (λ v. inl (
          rw (any-roles_of u role_super_admin s.world.tables, any-union_of u p s.world.tables)
            refl))

  has_role-Answers :
      (r : Text) (s : System)
      → s.pending ≡ 0
      → IsCoherent env s
      → Answers env (has_role env u r s.world).0 (holds_role u r s.world.tables)
  unfolding has_role pure
  has_role-Answers r s quiet h =
      then-Answers env (get_user env u) _ s.world (effective u s.world.tables)
        (get_user-Answers env u s quiet h) (λ v. inl (rw (any-roles_of u r s.world.tables) refl))

  authorize_permission-Answers :
      (p : Text) (s : System)
      → s.pending ≡ 0
      → IsCoherent env s
      → Answers env (authorize_permission env u p s.world).0 (
          if is_empty p
            || holds_role u role_super_admin s.world.tables
            || holds_permission u p s.world.tables
          then allowed
          else denied)
  unfolding authorize_permission pure
  authorize_permission-Answers [] s quiet h = inl refl
  authorize_permission-Answers (c ∷ p) s quiet h =
      then-Answers env (has_permission env u (c ∷ p)) _ s.world
        (holds_role u role_super_admin s.world.tables || holds_permission u (c ∷ p) s.world.tables)
        (has_permission-Answers (c ∷ p) s quiet h) (λ v. inl refl)

  authorize_role-Answers :
      (r : Text) (s : System)
      → s.pending ≡ 0
      → IsCoherent env s
      → Answers env
          (authorize_role env u r s.world).0
          (if is_empty r || holds_role u r s.world.tables then allowed else denied)
  unfolding authorize_role pure
  authorize_role-Answers [] s quiet h = inl refl
  authorize_role-Answers (c ∷ r) s quiet h =
      then-Answers env (has_role env u (c ∷ r)) _ s.world (holds_role u (c ∷ r) s.world.tables)
        (has_role-Answers (c ∷ r) s quiet h) (λ v. inl refl)

-- From an empty cache, after any steps of readers and of use cases that change the tables, where
-- every change has been bumped and JSON reads back what it wrote: the authorizer allows a
-- permission exactly to whom the tables give the super_admin role or the permission, directly or by
-- a role, and a role to whom they give it, and an empty code to all; or a call of a driver failed,
-- and that is the result.
pub authorizer_refines :
    (env : Env) (w : World) (s : System) (u p r : Text)
    → ((e : UserEntry) → env.decode_entry (env.encode_entry e) ≡ some e)
    → Reach env (started w) s
    → s.pending ≡ 0
    → Answers env (authorize_permission env u p s.world).0 (
        if is_empty p
          || holds_role u role_super_admin s.world.tables
          || holds_permission u p s.world.tables
        then allowed
        else denied)
      × Answers env
          (authorize_role env u r s.world).0
          (if is_empty r || holds_role u r s.world.tables then allowed else denied)
authorizer_refines env w s u p r round_trip reached quiet =
    let coherent : IsCoherent env s =
      Reach-IsCoherent env round_trip reached (started-IsCoherent env w) in
    (
      authorize_permission-Answers env u p s quiet coherent,
      authorize_role-Answers env u r s quiet coherent,
    )
