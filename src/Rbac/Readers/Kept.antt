-- ===== src/Rbac/Readers/Kept.antt =====
-- Each step keeps the cache coherent.
use go_project_starter.Rbac.Readers.Stored.{store-IsCoherent}
use go_project_starter.Rbac.Readers.Bumped.{bumped-IsCoherent}
use go_project_starter.Base.{
  ℕ, suc, ◌≡◌, refl, sym, subst, Bool, true, false, some, ℤ, pos, arith, All-map, if◌then◌else◌,
}
use go_project_starter.Base.Texts.{Text}
use go_project_starter.Base.Exec.{Result, ok, err}
use go_project_starter.Apierr.{backend}
use go_project_starter.Rbac.Tables.{Tables}
use go_project_starter.Rbac.World.{Env, World, UserEntry, version_get}
use go_project_starter.Rbac.Cache.{current_version}
use go_project_starter.Rbac.Readers.{
  Reader, System, new_reader, with_reader, IsElsewhere, Step, begin, read_roles, read_direct,
  read_inherited, store, change, bumped, elsewhere, Reach, start, next,
}
use go_project_starter.Rbac.Readers.Coherent.{
  IsVersion, IsReader, IsItem, IsCoherent, Since-map, Since-change, among-All, current_version_lem,
  IsItem-map,
}

module _ (env : Env) where
  version_known :
      (broken : Bool) {v : ℤ} (n : ℕ)
      → (if broken then err backend else ok (pos n)) ≡ ok v
      → v ≡ pos n
  version_known true n h = cc
  version_known false n h = cc

  -- A reader that begins carries the number of the bumps.
  begin-IsCoherent :
      (s : System) (u : Text) {v : ℤ}
      → IsCoherent env s
      → (current_version env s.world).0 ≡ ok v
      → IsCoherent env (with_reader (new_reader u v) s)
  begin-IsCoherent s u {v} h e =
      let read_version : v ≡ pos s.bumps = version_known (env.fails version_get) s.bumps (
        subst (λ (p : Result ℤ × World). p.0 ≡ ok v)
          (current_version_lem env s.world s.bumps h.bounded h.version) e) in
      record {
        version = h.version;
        bounded = h.bounded;
        items = h.items;
        readers = ((s.bumps, read_version, omega arith, λ _ _. (tt, tt, tt)), h.readers);
      }

  more-IsCoherent :
      (s : System) (r : Reader) → IsCoherent env s → IsReader s r → IsCoherent env (with_reader r s)
  more-IsCoherent s r h fresh = record {
    version = h.version;
    bounded = h.bounded;
    items = h.items;
    readers = (fresh, h.readers);
  }

  change-IsCoherent :
      (s : System) (t : Tables)
      → IsCoherent env s
      → IsCoherent env (record s { world = record s.world { tables = t }; pending = suc s.pending })
  change-IsCoherent s t h =
      let later : System = record s {
        world = record s.world { tables = t };
        pending = suc s.pending;
      } in
      record {
        version = h.version;
        bounded = h.bounded;
        items = λ u. IsItem-map env s later u _ (λ e. Since-change s later refl refl) (h.items u);
        readers =
            All-map (IsReader s) (IsReader later) (λ r. Since-change s later refl refl) _ h.readers;
      }

  elsewhere-IsCoherent :
      (s : System) (w : World)
      → IsCoherent env s
      → IsElsewhere s.world w
      → IsCoherent env (record s { world = w })
  elsewhere-IsCoherent s w h same_keys =
      let later : System = record s { world = w } in
      record {
        version = subst (IsVersion s.bumps) (sym same_keys.version) h.version;
        bounded = h.bounded;
        items = λ u. subst (IsItem env later u) (sym (same_keys.users u)) (
            IsItem-map env s later u _ (λ e. Since-map s (λ facts. rw same_keys.tables facts))
              (h.items u));
        readers =
            All-map (IsReader s) (IsReader later)
              (λ r. Since-map s (λ facts. rw same_keys.tables facts)) _ h.readers;
      }

  -- Every step keeps the cache coherent.
  Step-IsCoherent :
      ((e : UserEntry) → env.decode_entry (env.encode_entry e) ≡ some e)
      → {s t : System} → Step env s t
      → IsCoherent env s
      → IsCoherent env t
  Step-IsCoherent round_trip (begin s u e) h = begin-IsCoherent s u h e
  Step-IsCoherent round_trip (read_roles s r m) h =
      more-IsCoherent s _ h
        (Since-map s (λ facts. (refl, facts.1, facts.2)) (among-All (IsReader s) m h.readers))
  Step-IsCoherent round_trip (read_direct s r m) h =
      more-IsCoherent s _ h
        (Since-map s (λ facts. (facts.0, refl, facts.2)) (among-All (IsReader s) m h.readers))
  Step-IsCoherent round_trip (read_inherited s r m) h =
      more-IsCoherent s _ h
        (Since-map s (λ facts. (facts.0, facts.1, refl)) (among-All (IsReader s) m h.readers))
  Step-IsCoherent round_trip (store s r m held own given) h =
      store-IsCoherent env round_trip s r h (among-All (IsReader s) m h.readers) held own given
  Step-IsCoherent round_trip (change s t) h = change-IsCoherent s t h
  Step-IsCoherent round_trip (bumped s c {n} works waits bound) h =
      bumped-IsCoherent env s c n h works bound
  Step-IsCoherent round_trip (elsewhere s w same_keys) h = elsewhere-IsCoherent s w h same_keys

  pub Reach-IsCoherent :
      ((e : UserEntry) → env.decode_entry (env.encode_entry e) ≡ some e)
      → {s t : System} → Reach env s t
      → IsCoherent env s
      → IsCoherent env t
  Reach-IsCoherent round_trip start h = h
  Reach-IsCoherent round_trip (next r step) h =
      Step-IsCoherent round_trip step (Reach-IsCoherent round_trip r h)
