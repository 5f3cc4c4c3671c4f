-- ===== src/Rbac/Readers.antt =====
-- Any number of `GetUser.Execute` and of use cases that change the tables, at the same time: a run
-- of GetUser is a version read, three reads of the tables and one write of the cache, and a change
-- is a write of the tables that a bump of the version follows. Each is one step, in any order; a
-- run may stop, or read again, between any two of them.
pub mod Coherent
pub mod Stored
pub mod Bumped
pub mod Kept
pub mod Answers
pub mod Decisions
use go_project_starter.Base.{ℕ, suc, ◌≤◌, ◌<◌, ◌≡◌, Option, none, some, List, [], ◌∷◌, ℤ, false}
use go_project_starter.Base.Texts.{Text}
use go_project_starter.Base.Exec.{ok}
use go_project_starter.Base.Assoc.{lookup}
use go_project_starter.Base.Decimal.{max_int64}
use go_project_starter.Rbac.Tables.{Tables, roles_of, direct_of, inherited_of}
use go_project_starter.Rbac.World.{Env, World, Call}
use go_project_starter.Rbac.Cache.{version_key, user_key, current_version, set_user, bump}
use go_project_starter.Rbac.Query.{union}

-- A run of GetUser after its version read, with the lists that it has read.
pub record Reader : Type 0 where
  pub user_id : Text
  pub version : ℤ
  pub roles : Option (List Text)
  pub direct : Option (List Text)
  pub inherited : Option (List Text)

pub record System : Type 0 where
  pub world : World
  pub readers : List Reader
  -- how many bumps there were, and how many changes wait for theirs
  pub bumps : ℕ
  pub pending : ℕ

pub data Among (r : Reader) : List Reader → Type 0 where
  here : {rs : List Reader} → Among r (r ∷ rs)
  there : {q : Reader} {rs : List Reader} → Among r rs → Among r (q ∷ rs)

abbrev pub with_reader : Reader → System → System
with_reader r s = record s { readers = r ∷ s.readers }

abbrev pub new_reader : Text → ℤ → Reader
new_reader user_id version = record {
  user_id = user_id;
  version = version;
  roles = none;
  direct = none;
  inherited = none;
}

-- What the rest of the program does to the clock and to other keys.
pub record IsElsewhere (v w : World) : Type 0 where
  pub tables : w.tables ≡ v.tables
  pub version : lookup version_key w.cache ≡ lookup version_key v.cache
  pub users : (u : Text) → lookup (user_key u) w.cache ≡ lookup (user_key u) v.cache

pub data Step (env : Env) : System → System → Type 0 where
  begin :
      (s : System) (u : Text) {v : ℤ}
      → (current_version env s.world).0 ≡ ok v
      → Step env s (with_reader (new_reader u v) s)
  read_roles :
      (s : System) (r : Reader)
      → Among r s.readers
      → Step env s (with_reader (record r { roles = some (roles_of r.user_id s.world.tables) }) s)
  read_direct :
      (s : System) (r : Reader)
      → Among r s.readers
      → Step env s (with_reader (record r { direct = some (direct_of r.user_id s.world.tables) }) s)
  read_inherited :
      (s : System) (r : Reader)
      → Among r s.readers
      → Step env s
          (with_reader (record r { inherited = some (inherited_of r.user_id s.world.tables) }) s)
  store :
      (s : System) (r : Reader) {roles direct inherited : List Text}
      → Among r s.readers
      → r.roles ≡ some roles
      → r.direct ≡ some direct
      → r.inherited ≡ some inherited
      → Step env s (record s {
        world = (set_user env r.user_id r.version roles (union direct inherited) s.world).1;
      })
  change :
      (s : System) (t : Tables)
      → Step env s (record s { world = record s.world { tables = t }; pending = suc s.pending })
  bumped :
      (s : System) (c : Call) {n : ℕ}
      → env.fails c ≡ false
      → s.pending ≡ suc n
      → s.bumps < max_int64
      → Step env s (record s { world = (bump env c s.world).1; bumps = suc s.bumps; pending = n })
  elsewhere : (s : System) (w : World) → IsElsewhere s.world w → Step env s (record s { world = w })

-- The states that any sequence of steps leads to.
pub data Reach (env : Env) (s : System) : System → Type 0 where
  start : Reach env s s
  next : {t u : System} → Reach env s t → Step env t u → Reach env s u
