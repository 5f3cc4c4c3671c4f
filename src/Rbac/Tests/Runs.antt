-- ===== src/Rbac/Tests/Runs.antt =====
-- The theorems of the roles, at concrete inputs.
use go_project_starter.Base.{
  ◌≡◌, ◌≤◌, refl, true, false, ◌||◌, none, some, List, [], ◌∷◌, pos, arith, if◌then◌else◌, ◌⊎◌,
}
use go_project_starter.Base.Texts.{Text, codes, same, is_empty, trim_space, trim_left, is_space}
use go_project_starter.Base.Exec.{ok, pure, raise, require, ◌>>=◌}
use go_project_starter.Base.Assoc.{lookup, put, without}
use go_project_starter.Base.Decimal.{format_int, from_digits, parse_int, parse_magnitude, to_digits}
use go_project_starter.Cache
use go_project_starter.Cache.{is_live, item_or_empty, live_item, number_of}
use go_project_starter.Rbac.Repository.Roles.{find_by_code}
use go_project_starter.Rbac.Repository.Access.{roles, assign_link, insert_ignore}
use go_project_starter.Rbac.Tables.{
  Tables, linked, role_by_code, count_users, text_lt, insert_text, sort_texts, role_codes, roles_of,
  direct_of, inherited_of, insert_link,
}
use go_project_starter.Rbac.World.{Env, version_bump, read, write, record_best_effort}
use go_project_starter.Rbac.Domain.{role_super_admin}
use go_project_starter.Rbac.Cache.{current_version, bump, bump_checked, set_user}
use go_project_starter.Rbac.Query.{union, allowed, denied, authorize_permission, authorize_role}
use go_project_starter.Rbac.Query.Codes.{holds_role, holds_permission}
use go_project_starter.Rbac.Command.Revoke.{revoke_role}
use go_project_starter.Rbac.Command.Assign.{assign_role, assign_found, authorize_grant, link_role}
use go_project_starter.Rbac.Readers.{
  Reader, System, here, new_reader, with_reader, Step, begin, read_roles, read_direct,
  read_inherited, store, change, bumped, Reach, start, next,
}
use go_project_starter.Rbac.Readers.Answers.{Answers}
use go_project_starter.Rbac.Readers.Decisions.{started, authorizer_refines}
use go_project_starter.Rbac.Guards.Revoke.{revoke_role_keeps_super_admin}
use go_project_starter.Rbac.Guards.Assign.{assign_role_guards_super_admin}
use go_project_starter.Rbac.Tests.{test_env, ann, bob, super_role, link, test_tables, test_world}
use go_project_starter.Rbac.Tests.Codec.{decode-encode}

-- Taking the role from its only holder changes nothing.
revoke_role_keeps_super_admin_example :
    1
    ≤ count_users super_role.id
        (revoke_role (test_env (some bob)) ann role_super_admin test_world).1.tables.user_roles
unfolding role_by_code same count_users
revoke_role_keeps_super_admin_example =
    revoke_role_keeps_super_admin (test_env (some bob)) test_world super_role ann role_super_admin
      (refl, (refl, (refl, tt))) (refl, (refl, tt)) refl (omega arith)

granted :
    linked bob super_role.id
      (assign_role (test_env (some ann)) bob role_super_admin test_world).1.tables.user_roles
    ≡ true
unfolding assign_role trim_space ◌>>=◌ find_by_code read assign_found role_by_code same
    authorize_grant roles roles_of link_role assign_link insert_ignore bump_checked
    record_best_effort bump write lookup put without format_int from_digits parse_int
    parse_magnitude to_digits pure raise require is_space trim_left Cache.increment is_live
    item_or_empty live_item number_of insert_link insert_text role_codes sort_texts text_lt
granted = refl

-- A super_admin makes another one.
assign_role_guards_super_admin_example :
    (linked bob super_role.id test_tables.user_roles ≡ true)
    ⊎ ((holds_role ann role_super_admin test_tables ≡ true) × (same ann bob ≡ false))
unfolding role_by_code same
assign_role_guards_super_admin_example =
    assign_role_guards_super_admin (test_env (some ann)) test_world super_role ann bob
      role_super_admin bob refl (refl, (refl, (refl, tt))) refl granted

-- bob's lists are read and stored; then bob loses the role, and the version is bumped.
abbrev env : Env
env = test_env none

abbrev s0 : System
s0 = started test_world

abbrev s1 : System
s1 = with_reader (new_reader bob (pos 0)) s0

abbrev r2 : Reader
r2 = record (new_reader bob (pos 0)) { roles = some (roles_of bob test_tables) }

abbrev r3 : Reader
r3 = record r2 { direct = some (direct_of bob test_tables) }

abbrev r4 : Reader
r4 = record r3 { inherited = some (inherited_of bob test_tables) }

abbrev s4 : System
s4 = with_reader r4 (with_reader r3 (with_reader r2 s1))

abbrev given : List Text
given = union (direct_of bob test_tables) (inherited_of bob test_tables)

abbrev s5 : System
s5 = record s4 { world = (set_user env bob (pos 0) (roles_of bob test_tables) given s4.world).1 }

abbrev fewer : Tables
fewer = record test_tables { user_roles = link ann super_role.id ∷ [] }

abbrev s6 : System
s6 = record s5 { world = record s5.world { tables = fewer }; pending = 1 }

abbrev s7 : System
s7 = record s6 { world = (bump env version_bump s6.world).1; bumps = 1; pending = 0 }

begun : (current_version env s0.world).0 ≡ ok (pos 0)
unfolding current_version ◌>>=◌ read Cache.get lookup
begun = refl

stored_step : Step env s4 s5
stored_step = store s4 r4 here refl refl refl

bumped_step : Step env s6 s7
bumped_step = bumped s6 version_bump refl refl (omega arith)

reached : Reach env s0 s7
reached =
    next
      (next
        (next
          (next
            (next (next (next start (begin s0 bob begun)) (read_roles s1 _ here))
              (read_direct _ r2 here))
            (read_inherited _ r3 here))
          stored_step)
        (change s5 fewer))
      bumped_step

-- What bob lost is denied, though the lists that were stored still give it.
authorizer_refines_example :
    Answers env (authorize_permission env bob (codes "post.edit") s7.world).0 (
      if is_empty (codes "post.edit")
        || holds_role bob role_super_admin fewer
        || holds_permission bob (codes "post.edit") fewer
      then allowed
      else denied)
    × Answers env (authorize_role env bob (codes "editor") s7.world).0 (
        if is_empty (codes "editor") || holds_role bob (codes "editor") fewer
        then allowed
        else denied)
unfolding bump same write
authorizer_refines_example =
    authorizer_refines env test_world s7 bob (codes "post.edit") (codes "editor") decode-encode
      reached refl
