-- ===== src/Rbac/Tests.antt =====
-- A program with roles, on which the theorems are run: two users, the built-in roles, and one role
-- of its own that gives a permission.
pub mod Codec
mod Runs
use go_project_starter.Base.{Bool, true, false, Option, none, some, List, [], ◌∷◌, pos, ◌≡◌}
use go_project_starter.Base.Texts.{Text, codes}
use go_project_starter.Audit.{Actor, unset}
use go_project_starter.Rbac.Tables.{Role, Permission, Link, Tables}
use go_project_starter.Rbac.World.{Env, World, Call, UserEntry}
use go_project_starter.Rbac.Domain.{role_super_admin, role_user}
use go_project_starter.Rbac.Tests.Codec.{encode, decode}

abbrev pub test_env : Option Text → Env
test_env caller = record {
  fails = λ c. false;
  fresh_id = λ n. n ∷ [];
  encode_entry = encode;
  decode_entry = decode;
  postgres = true;
  has_cache = true;
  has_auditor = true;
  ttl = pos 600;
  caller = caller;
  actor = record { kind = unset; id = []; ip_address = []; user_agent = [] };
}

abbrev pub ann : Text
ann = codes "ann"

abbrev pub bob : Text
bob = codes "bob"

abbrev pub super_role : Role
super_role = record { id = codes "r1"; code = role_super_admin; name = codes "Super Admin" }

abbrev pub plain_role : Role
plain_role = record { id = codes "r2"; code = role_user; name = codes "User" }

abbrev pub editor_role : Role
editor_role = record { id = codes "r3"; code = codes "editor"; name = codes "Editor" }

abbrev pub post_edit : Permission
post_edit = record {
  id = codes "p1";
  code = codes "post.edit";
  group = codes "Posts";
  name = codes "Edit";
}

abbrev pub link : Text → Text → Link
link left right = record { left = left; right = right }

-- ann is the only super_admin, and bob an editor.
abbrev pub test_tables : Tables
test_tables = record {
  roles = super_role ∷ plain_role ∷ editor_role ∷ [];
  permissions = post_edit ∷ [];
  role_permissions = link editor_role.id post_edit.id ∷ [];
  user_roles = link ann super_role.id ∷ link bob editor_role.id ∷ [];
  user_permissions = [];
}

abbrev pub test_world : World
test_world = record {
  now = 1000;
  drawn = 0;
  users = ann ∷ bob ∷ [];
  tables = test_tables;
  cache = [];
  trail = [];
}
