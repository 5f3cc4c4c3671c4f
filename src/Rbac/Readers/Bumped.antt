-- ===== src/Rbac/Readers/Bumped.antt =====
-- A bump of the version keeps the cache coherent.
use go_project_starter.Base.{
  ℕ, suc, ◌≤◌, ◌<◌, ◌≡◌, ◌+ℤ◌, refl, ap, false, Option, none, some, pos, arith, All-map,
}
use go_project_starter.Base.Texts.{same_refl}
use go_project_starter.Base.Assoc.{lookup, put, lookup-put}
use go_project_starter.Base.Decimal.{
  max_int64, format_int, parse_int, wrap_int64, parse_int-format_int,
}
use go_project_starter.Cache
use go_project_starter.Cache.{MemItem, Memory, live_item, is_live, item_or_empty, number_of}
use go_project_starter.Rbac.World.{Env, World, Call, write}
use go_project_starter.Rbac.Cache.{version_key, user_key, bump}
use go_project_starter.Rbac.Readers.{System}
use go_project_starter.Rbac.Readers.Coherent.{
  IsVersion, IsReader, IsCoherent, Since-bumped, apart_version, IsItem-map,
}

module _ (env : Env) where
  live_version :
      (n now : ℕ) (o : Option MemItem)
      → n ≤ max_int64
      → IsVersion n o
      → (number_of (item_or_empty (live_item now o)) ≡ pos n)
        × ((item_or_empty (live_item now o)).expires_at ≡ none)
  unfolding live_item is_live item_or_empty number_of parse_int
  live_version n now none bound h = rw h (refl, refl)
  live_version n now (some item) bound (value, forever) =
      let parsed : parse_int item.value ≡ some (pos n) =
        rw value (parse_int-format_int (pos n) bound) in
      ground arith

  next-IsVersion :
      (n : ℕ) (item : MemItem)
      → n < max_int64
      → number_of item ≡ pos n
      → item.expires_at ≡ none
      → IsVersion
          (suc n)
          (some (record item { value = format_int (wrap_int64 (number_of item +ℤ pos 1)) }))
  next-IsVersion n item bound number forever =
      let sum : wrap_int64 (number_of item +ℤ pos 1) ≡ pos (suc n) = rw number (ground arith) in
      (ap format_int sum, forever)

  bumped_world : World → MemItem → World
  bumped_world w item = record w { cache = put version_key item w.cache }

  put-IsCoherent :
      (s : System) (item : MemItem) (n : ℕ)
      → IsCoherent env s
      → s.bumps < max_int64
      → IsVersion (suc s.bumps) (some item)
      → IsCoherent env
          (record s { world = bumped_world s.world item; bumps = suc s.bumps; pending = n })
  unfolding bumped_world
  put-IsCoherent s item n h bound counted =
      let later : System = record s {
        world = bumped_world s.world item;
        bumps = suc s.bumps;
        pending = n;
      } in
      record {
        version =
            rw (lookup-put version_key version_key item s.world.cache, same_refl version_key)
              counted;
        bounded = bound;
        items = λ u.
            rw (lookup-put version_key (user_key u) item s.world.cache, apart_version u)
              (IsItem-map env s later u _ (λ e. Since-bumped s later refl) (h.items u));
        readers =
            All-map (IsReader s) (IsReader later) (λ r. Since-bumped s later refl) _ h.readers;
      }

  -- A bump, after which nothing that was read before counts.
  pub bumped-IsCoherent :
      (s : System) (c : Call) (n : ℕ)
      → IsCoherent env s
      → env.fails c ≡ false
      → s.bumps < max_int64
      → IsCoherent env
          (record s { world = (bump env c s.world).1; bumps = suc s.bumps; pending = n })
  unfolding bump write Cache.increment bumped_world
  bumped-IsCoherent s c n h works bound =
      let item : MemItem =
        item_or_empty (live_item s.world.now (lookup version_key s.world.cache)) in
      let (number, forever) =
        live_version s.bumps s.world.now (lookup version_key s.world.cache) h.bounded h.version in
      rw works (
        put-IsCoherent s (record item { value = format_int (wrap_int64 (number_of item +ℤ pos 1)) })
          n h bound (next-IsVersion s.bumps item bound number forever))
