-- ===== src/Rbac/Readers/Answers.antt =====
-- What `GetUser`, the service and the `Authorizer` answer from a coherent cache.
use go_project_starter.Base.{
  ℕ, ◌≡◌, refl, ap, Bool, true, false, Option, none, some, pos, arith, Bool-cases, ◌⊎◌, inl, inr,
  if◌then◌else◌,
}
use go_project_starter.Base.Texts.{Text}
use go_project_starter.Base.Exec.{Result, ok, err, pure, ask, best_effort, ◌>>=◌, ◌>>◌}
use go_project_starter.Base.Assoc.{lookup}
use go_project_starter.Base.Decimal.{eq_int, eq_int_iff}
use go_project_starter.Apierr.{backend}
use go_project_starter.Cache
use go_project_starter.Cache.{MemItem, value_of, live_item, is_live}
use go_project_starter.Rbac.Tables.{Tables, roles_of, direct_of, inherited_of}
use go_project_starter.Rbac.World.{
  Env, World, UserEntry, Call, M, read, version_get, entry_get, access_roles, access_direct,
  access_inherited,
}
use go_project_starter.Rbac.Repository.Access.{roles, direct_permissions, role_permission_codes}
use go_project_starter.Rbac.Cache.{user_key, entry_at, cached_user, set_user}
use go_project_starter.Rbac.Query.{RolesPermissions, union, load, served, get_user}
use go_project_starter.Rbac.Readers.{System}
use go_project_starter.Rbac.Readers.Coherent.{IsEntry, IsItem, IsCoherent, current_version_lem}

-- A call of a driver that failed is the result; else the value is.
abbrev pub Answers {ℓ} : {A : Type ℓ} → Env → Result A → A → Type ℓ
Answers env r a = (r ≡ ok a) ⊎ ((c : Call) × (env.fails c ≡ true) × (r ≡ err backend))

-- What the tables say of a user.
abbrev pub effective : Text → Tables → RolesPermissions
effective u t = record {
  roles = roles_of u t;
  permissions = union (direct_of u t) (inherited_of u t);
}

module _ (env : Env) {A B : Type 0} where
  -- A step that reads one thing, and what follows.
  known-Answers :
      (m : M A) (k : A → M B) (w : World) (c : Call) (a : A) {b : B}
      → m w ≡ (if env.fails c then err backend else ok a, w)
      → Answers env (k a w).0 b
      → Answers env ((m >>= k) w).0 b
  unfolding ◌>>=◌
  known-Answers m k w c a e h = elim (Bool-cases (env.fails c)) [
    | inl broken ↦ inr (c, broken, rw (e, broken) refl)
    | inr works ↦ rw (e, works) h
  ]

  -- Steps with an answer, and what follows in whatever state they leave.
  pub then-Answers :
      (m : M A) (k : A → M B) (w : World) (a : A) {b : B}
      → Answers env (m w).0 a
      → ((v : World) → Answers env (k a v).0 b)
      → Answers env ((m >>= k) w).0 b
  unfolding ◌>>=◌
  then-Answers m k w a (inl e) h = rw e (h (m w).1)
  then-Answers m k w a (inr (c, broken, e)) h = inr (c, broken, rw e refl)

module _ (env : Env) (u : Text) where
  load-Answers : (w : World) → Answers env (load env u w).0 (effective u w.tables)
  unfolding load roles direct_permissions role_permission_codes read pure
  load-Answers w = known-Answers env _ _ w access_roles (roles_of u w.tables) refl (
      known-Answers env _ _ w access_direct (direct_of u w.tables) refl
        (known-Answers env _ _ w access_inherited (inherited_of u w.tables) refl (inl refl)))

  if-Answers :
      {A : Type 0} (b : Bool) (m n : M A) (w : World) {a : A}
      → Answers env (m w).0 a
      → Answers env (n w).0 a
      → Answers env ((if b then m else n) w).0 a
  if-Answers true m n w first second = first
  if-Answers false m n w first second = second

  -- A hit that is what the tables say, or a miss.
  abbrev IsHit : Tables → Option UserEntry → Type 0
  IsHit t none = Unit
  IsHit t (some e) = record { roles = e.roles; permissions = e.permissions } ≡ effective u t

  pos_injective : {m n : ℕ} → pos m ≡ pos n → m ≡ n
  pos_injective e = cc

  entry-IsHit :
      (s : System) (b : Bool) (e : UserEntry)
      → eq_int e.version (pos s.bumps) ≡ b
      → s.pending ≡ 0
      → IsEntry s u e
      → IsHit s.world.tables (if b then some e else none)
  entry-IsHit s true e current quiet (n, version, bound, facts) =
      let same_bumps : n ≡ s.bumps =
        pos_injective (rw (← version) ((eq_int_iff e.version (pos s.bumps)).0 current)) in
      let (held, given) = facts same_bumps quiet in rw (held, given) refl
  entry-IsHit s false e current quiet accurate = tt

  item-IsHit :
      (s : System) (o : Option MemItem)
      → s.pending ≡ 0
      → IsItem env s u o
      → (hit : Option UserEntry) × (entry_at env (pos s.bumps) (value_of (live_item s.world.now o))
          ≡ ok hit)
        × IsHit s.world.tables hit
  unfolding entry_at value_of live_item
  item-IsHit s none quiet h = (none, refl, tt)
  item-IsHit s (some item) quiet (e, decoded, accurate) =
      elim (Bool-cases (is_live s.world.now item)) [
        | inl live ↦ (
          (if eq_int e.version (pos s.bumps) then some e else none),
          rw (live, decoded) (ground arith),
          entry-IsHit s _ e refl quiet accurate,
        )
        | inr dead ↦ (none, rw dead refl, tt)
      ]

  cached_user_lem :
      (s : System)
      → s.pending ≡ 0
      → IsCoherent env s
      → (hit : Option UserEntry) × (cached_user env u (pos s.bumps) s.world
          ≡ (if env.fails entry_get then err backend else ok hit, s.world))
        × IsHit s.world.tables hit
  unfolding cached_user read ask ◌>>=◌ Cache.get
  cached_user_lem s quiet h =
      let (hit, found, accurate) =
        item-IsHit s (lookup (user_key u) s.world.cache) quiet (h.items u) in
      (
        hit,
        elim (Bool-cases (env.fails entry_get)) [
          | inl broken ↦ rw broken refl
          | inr works ↦ rw works (ap (λ r. (r, s.world)) found)
        ],
        accurate,
      )

  served-Answers :
      (s : System) (hit : Option UserEntry)
      → IsHit s.world.tables hit
      → Answers env (served env u (pos s.bumps) hit s.world).0 (effective u s.world.tables)
  unfolding served pure best_effort ◌>>=◌
  served-Answers s (some e) accurate = inl (ap ok accurate)
  served-Answers s none accurate =
      then-Answers env (load env u)
        (λ res. best_effort (set_user env u (pos s.bumps) res.roles res.permissions) >> pure res)
        s.world (effective u s.world.tables) (load-Answers s.world) (λ v. inl refl)

  pub get_user-Answers :
      (s : System)
      → s.pending ≡ 0
      → IsCoherent env s
      → Answers env (get_user env u s.world).0 (effective u s.world.tables)
  unfolding get_user
  get_user-Answers s quiet h =
      let (hit, found, accurate) = cached_user_lem s quiet h in
      if-Answers env.has_cache _ _ s.world
        (known-Answers env _ _ s.world version_get (pos s.bumps)
          (current_version_lem env s.world s.bumps h.bounded h.version)
          (known-Answers env _ _ s.world entry_get hit found (served-Answers s hit accurate)))
        (load-Answers s.world)
