-- ===== src/Rbac/Readers/Stored.antt =====
-- A reader's write of the cache keeps it coherent.
use go_project_starter.Base.{◌≡◌, refl, subst, Option, some, List, Bool-cases, inl, inr}
use go_project_starter.Base.Texts.{Text, same, same_iff}
use go_project_starter.Base.Assoc.{lookup, put, lookup-put}
use go_project_starter.Cache
use go_project_starter.Cache.{MemItem, Memory, live_item, is_live, item_or_empty, number_of}
use go_project_starter.Rbac.World.{Env, World, UserEntry, write, entry_set}
use go_project_starter.Rbac.Cache.{version_key, user_key, set_user}
use go_project_starter.Rbac.Query.{union}
use go_project_starter.Rbac.Readers.{Reader, System}
use go_project_starter.Rbac.Readers.Coherent.{
  Read, IsReader, IsEntry, IsItem, IsCoherent, Since-map, version_apart, same-user_key,
}

module _ (env : Env) where
  -- The item that a reader stores.
  abbrev stored : World → Reader → List Text → List Text → MemItem
  stored w r roles permissions = record {
    value =
        env.encode_entry (record { version = r.version; roles = roles; permissions = permissions });
    expires_at = Cache.expiry w.now env.ttl;
  }

  items-stored :
      (s t : System) (r : Reader) (m : Memory) (item : MemItem)
      → IsItem env t r.user_id (some item)
      → ((u : Text) → IsItem env t u (lookup (user_key u) m))
      → (u : Text) → IsItem env t u (lookup (user_key u) (put (user_key r.user_id) item m))
  items-stored s t r m item mine others u =
      rw (lookup-put (user_key r.user_id) (user_key u) item m, same-user_key r.user_id u)
        (elim (Bool-cases (same r.user_id u)) [
          | inl hit ↦
              rw hit (subst (λ k. IsItem env t k (some item)) ((same_iff r.user_id u).0 hit) mine)
          | inr miss ↦ rw miss (others u)
        ])

  Read-known :
      {o : Option (List Text)} {l truth : List Text} → o ≡ some l → Read o truth → l ≡ truth
  Read-known {o} {l} {truth} e h = subst (λ x. Read x truth) e h

  stored_world : World → Reader → List Text → List Text → World
  stored_world w r roles permissions = record w {
    cache = put (user_key r.user_id) (stored w r roles permissions) w.cache;
  }

  stored-IsCoherent :
      ((e : UserEntry) → env.decode_entry (env.encode_entry e) ≡ some e)
      → (s : System) (r : Reader) {roles direct inherited : List Text} → IsCoherent env s
      → IsReader s r
      → r.roles ≡ some roles
      → r.direct ≡ some direct
      → r.inherited ≡ some inherited
      → IsCoherent env (record s { world = stored_world s.world r roles (union direct inherited) })
  unfolding stored_world
  stored-IsCoherent round_trip s r {roles} {direct} {inherited} h fresh held own given =
      let later : System = record s {
        world = stored_world s.world r roles (union direct inherited);
      } in
      let e : UserEntry = record {
        version = r.version;
        roles = roles;
        permissions = union direct inherited;
      } in
      let accurate : IsEntry later r.user_id e =
        Since-map s
          (λ facts.
            (Read-known held facts.0, rw (Read-known own facts.1, Read-known given facts.2) refl))
          fresh in
      record {
        version =
            rw
              (
                lookup-put (user_key r.user_id) version_key
                    (stored s.world r roles (union direct inherited)) s.world.cache,
                version_apart r.user_id,
              )
              h.version;
        bounded = h.bounded;
        items = items-stored s later r s.world.cache _ (e, round_trip e, accurate) h.items;
        readers = h.readers;
      }

  -- A reader that stores what it read.
  pub store-IsCoherent :
      ((e : UserEntry) → env.decode_entry (env.encode_entry e) ≡ some e)
      → (s : System) (r : Reader) {roles direct inherited : List Text} → IsCoherent env s
      → IsReader s r
      → r.roles ≡ some roles
      → r.direct ≡ some direct
      → r.inherited ≡ some inherited
      → IsCoherent env (record s {
        world = (set_user env r.user_id r.version roles (union direct inherited) s.world).1;
      })
  unfolding set_user write Cache.set stored_world
  store-IsCoherent round_trip s r h fresh held own given = elim (Bool-cases (env.fails entry_set)) [
    | inl broken ↦ rw broken h
    | inr works ↦ rw works (stored-IsCoherent round_trip s r h fresh held own given)
  ]
