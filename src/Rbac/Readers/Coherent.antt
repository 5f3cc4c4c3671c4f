-- ===== src/Rbac/Readers/Coherent.antt =====
-- Every entry of the cache that carries the current version is what the tables say, unless a
-- change waits for its bump.
use go_project_starter.Base.{
  ℕ, suc, ◌≤◌, ◌≡◌, refl, ap, if◌then◌else◌, false, Option, none, some, List, ℤ, pos, arith, All,
  Bool-cases, inl, inr,
}
use go_project_starter.Base.Texts.{Text, same}
use go_project_starter.Base.Exec.{ok, err, ask, ◌>>=◌}
use go_project_starter.Base.Assoc.{lookup}
use go_project_starter.Base.Decimal.{max_int64, format_int, parse_int, parse_int-format_int}
use go_project_starter.Apierr.{backend}
use go_project_starter.Cache
use go_project_starter.Cache.{MemItem, value_of, live_item, is_live}
use go_project_starter.Rbac.Tables.{roles_of, direct_of, inherited_of}
use go_project_starter.Rbac.World.{Env, World, UserEntry, read, version_get}
use go_project_starter.Rbac.Cache.{version_key, user_key, version_of, current_version}
use go_project_starter.Rbac.Query.{union}
use go_project_starter.Rbac.Readers.{Reader, System, Among, here, there}

-- What the item of the version key counts.
abbrev pub IsVersion : ℕ → Option MemItem → Type 0
IsVersion n none = n ≡ 0
IsVersion n (some item) = (item.value ≡ format_int (pos n)) × (item.expires_at ≡ none)

-- A fact that was read at a version: if that is still the current one, it holds.
abbrev pub Since : System → ℤ → Type 0 → Type 0
Since s v P = (n : ℕ) × (v ≡ pos n) × (n ≤ s.bumps) × (n ≡ s.bumps → s.pending ≡ 0 → P)

-- A list that was read, or was not yet.
abbrev pub Read : Option (List Text) → List Text → Type 0
Read none truth = Unit
Read (some l) truth = l ≡ truth

abbrev pub IsReader : System → Reader → Type 0
IsReader s r = Since s r.version (
    Read r.roles (roles_of r.user_id s.world.tables)
    × Read r.direct (direct_of r.user_id s.world.tables)
    × Read r.inherited (inherited_of r.user_id s.world.tables))

abbrev pub IsEntry : System → Text → UserEntry → Type 0
IsEntry s u e = Since s e.version (
    (e.roles ≡ roles_of u s.world.tables)
    × (e.permissions ≡ union (direct_of u s.world.tables) (inherited_of u s.world.tables)))

module _ (env : Env) where
  abbrev pub IsItem : System → Text → Option MemItem → Type 0
  IsItem s u none = Unit
  IsItem s u (some item) = (e : UserEntry) × (env.decode_entry item.value ≡ some e) × IsEntry s u e

  pub record IsCoherent (s : System) : Type 0 where
    pub version : IsVersion s.bumps (lookup version_key s.world.cache)
    pub bounded : s.bumps ≤ max_int64
    pub items : (u : Text) → IsItem s u (lookup (user_key u) s.world.cache)
    pub readers : All (IsReader s) s.readers

pub Since-map : (s : System) {v : ℤ} {P Q : Type 0} → (P → Q) → Since s v P → Since s v Q
Since-map s f (n, e, le, h) = (n, e, le, λ same_version quiet. f (h same_version quiet))

-- While a change waits, nothing is claimed.
pub Since-change :
    (s t : System) {v : ℤ} {P Q : Type 0}
    → t.bumps ≡ s.bumps
    → t.pending ≡ suc s.pending
    → Since s v P
    → Since t v Q
Since-change s t eb ep (n, e, le, h) =
    (n, e, omega (arith, eb), λ same_version quiet. absurd (omega (arith, ep, quiet)))

-- What was read before a bump is of an old version.
pub Since-bumped :
    (s t : System) {v : ℤ} {P Q : Type 0} → t.bumps ≡ suc s.bumps → Since s v P → Since t v Q
Since-bumped s t eb (n, e, le, h) =
    (n, e, omega (arith, eb), λ same_version quiet. absurd (omega (arith, eb, same_version)))

pub among-All {ℓ} :
    (P : Reader → Type ℓ) {r : Reader} {rs : List Reader} → Among r rs → All P rs → P r
among-All P here h = h.0
among-All P (there m) h = among-All P m h.1

pub version_apart : (u : Text) → same (user_key u) version_key ≡ false
unfolding same user_key
version_apart u = refl

pub apart_version : (u : Text) → same version_key (user_key u) ≡ false
unfolding same user_key
apart_version u = refl

pub same-user_key : (u v : Text) → same (user_key u) (user_key v) ≡ same u v
unfolding same user_key
same-user_key u v = refl

version_item_read :
    (n now : ℕ) (o : Option MemItem)
    → n ≤ max_int64
    → IsVersion n o
    → version_of (value_of (live_item now o)) ≡ ok (pos n)
unfolding version_of value_of live_item is_live
version_item_read n now none bound h = rw h refl
version_item_read n now (some item) bound (value, forever) =
    let parsed : parse_int item.value ≡ some (pos n) =
      rw value (parse_int-format_int (pos n) bound) in
    ground arith

-- A version read returns the number of the bumps.
pub current_version_lem :
    (env : Env) (w : World) (n : ℕ)
    → n ≤ max_int64
    → IsVersion n (lookup version_key w.cache)
    → current_version env w ≡ (if env.fails version_get then err backend else ok (pos n), w)
unfolding current_version read ask ◌>>=◌ Cache.get
current_version_lem env w n bound h = elim (Bool-cases (env.fails version_get)) [
  | inl broken ↦ rw broken refl
  | inr works ↦
      rw works (ap (λ r. (r, w)) (version_item_read n w.now (lookup version_key w.cache) bound h))
]

module _ (env : Env) where
  -- The item of a user stays accurate where every entry does.
  pub IsItem-map :
      (s t : System) (u : Text) (o : Option MemItem)
      → ((e : UserEntry) → IsEntry s u e → IsEntry t u e)
      → IsItem env s u o
      → IsItem env t u o
  IsItem-map s t u none f h = tt
  IsItem-map s t u (some item) f (e, decoded, accurate) = (e, decoded, f e accurate)
