-- ===== src/Auth/Command/Denylist/Effects.antt =====
-- What denying access tokens, in denylist.go, writes and leaves.
use go_project_starter.Base.{
  ℕ, zero, suc, ◌<◌, ◌+◌, ◌≤◌, true, false, List, [], ◌∷◌, if◌then◌else◌, ◌≡◌, ◌⊎◌, refl, sym, ◌∙◌,
  subst, pos, arith, All, some, Bool-cases, inl, inr,
}
use go_project_starter.Base.Texts.{Text, codes, is_empty, same, same_refl}
use go_project_starter.Base.Exec.{pure, best_effort, ◌>>=◌, Keeps, Keeps-bind, keeps_rules}
use go_project_starter.Cache
use go_project_starter.Cache.{Memory}
use go_project_starter.Cache.Laws.{get-set}
use go_project_starter.Auth.World.{Env, World, Call, exec, query, cache_set}
use go_project_starter.Auth.World
use go_project_starter.Auth.World.Keeping.{Keeps-query, Keeps-exec}
use go_project_starter.Auth.Repository.Tokens.{jtis_by_family, jtis_where, of_family}
use go_project_starter.Auth.Command.Denylist.{jti_deny_key, deny_one, deny_all, deny, deny_family}

module _ (env : Env) {P : World → Type 0}
    (stable : (w : World) (c : Memory) → P w → P (record w { cache = c })) where
  deny_one-Keeps : (jti : Text) → Keeps P (deny_one env jti)
  unfolding deny_one
  deny_one-Keeps jti = Keeps-exec env _ _ (λ w h. stable w _ h)

  pub deny_all-Keeps : (jtis : List Text) → Keeps P (deny_all env jtis)
  unfolding deny_all
  deny_all-Keeps [] = search keeps_rules
  deny_all-Keeps (jti ∷ jtis) =
      Keeps-bind (if is_empty jti then pure tt else best_effort (deny_one env jti)) _
        (search (keeps_rules, deny_one-Keeps)) (λ _. deny_all-Keeps jtis)

  pub deny-Keeps : (jtis : List Text) → Keeps P (deny env jtis)
  unfolding deny
  deny-Keeps jtis = search (keeps_rules, deny_all-Keeps)

  reads_keep : (f : Text) → Keeps P (jtis_by_family env f)
  unfolding jtis_by_family
  reads_keep f = Keeps-query env _ _

  -- Whatever no write to the cache changes is as it was.
  pub deny_family-Keeps : (f : Text) → Keeps P (deny_family env f)
  unfolding deny_family
  deny_family-Keeps f = search (keeps_rules, deny-Keeps, reads_keep)

-- A positive ttl, as a number of its own.
read_set :
    (now later ttl : ℕ) (k j v : Text) (m : Memory)
    → 0 < ttl
    → later ≤ now + ttl
    → Cache.get later j (Cache.set now k v (pos ttl) m)
      ≡ (if same k j then some v else Cache.get later j m)
read_set now later zero k j v m some_ttl soon = absurd (omega arith)
read_set now later (suc n) k j v m some_ttl soon = rw get-set (ground arith)

-- The entry that denies an access token is read at a time.
abbrev pub IsDenied : ℕ → Text → Memory → Type 0
IsDenied later jti m = Cache.get later (jti_deny_key jti) m ≡ some (codes "1")

-- The calls that the denial of a session makes do not fail, and a cache is wired.
pub record CanDeny (env : Env) (family_id : Text) : Type 0 where
  pub wired : env.has_cache ≡ true
  pub lives : 0 < env.access_ttl
  pub writes : (key : Text) → env.fails (cache_set key) ≡ false
  pub reads : env.fails (World.jtis_by_family family_id) ≡ false

module _ (env : Env) (now later : ℕ) (lives : 0 < env.access_ttl)
    (soon : later ≤ now + env.access_ttl)
    (writes : (key : Text) → env.fails (cache_set key) ≡ false) where
  -- Denied, and the clock as it was.
  abbrev Denied : Text → World → Type 0
  Denied jti w = (w.now ≡ now) × IsDenied later jti w.cache

  written :
      (w : World) (k j : Text)
      → w.now ≡ now
      → Cache.get later
          (jti_deny_key j)
          (Cache.set w.now (jti_deny_key k) (codes "1") (pos env.access_ttl) w.cache)
        ≡ (if same (jti_deny_key k) (jti_deny_key j)
            then some (codes "1")
            else Cache.get later (jti_deny_key j) w.cache)
  written w k j h = read_set w.now later env.access_ttl _ _ _ w.cache lives (omega arith)

  deny_one-IsDenied : (jti k : Text) → Keeps (Denied jti) (deny_one env k)
  unfolding deny_one
  deny_one-IsDenied jti k =
      Keeps-exec env _ _ (λ w h. (h.0, ground (arith, h.1, written w k jti h.0)))

  becomes-IsDenied : (jti : Text) (w : World) → w.now ≡ now → Denied jti (deny_one env jti w).1
  unfolding deny_one exec
  becomes-IsDenied jti w h =
      rw (writes (jti_deny_key jti))
        (h, ground (arith, written w jti jti h, same_refl (jti_deny_key jti)))

  deny_all-IsDenied : (jti : Text) (ks : List Text) → Keeps (Denied jti) (deny_all env ks)
  unfolding deny_all
  deny_all-IsDenied jti [] = search keeps_rules
  deny_all-IsDenied jti (k ∷ ks) =
      Keeps-bind (if is_empty k then pure tt else best_effort (deny_one env k)) _
        (search (keeps_rules, deny_one-IsDenied)) (λ _. deny_all-IsDenied jti ks)

  abbrev after_one : Text → World → World
  after_one jti w = if is_empty jti then w else (deny_one env jti w).1

  deny_all-after_one :
      (jti : Text) (jtis : List Text) (w : World)
      → (deny_all env (jti ∷ jtis) w).1 ≡ (deny_all env jtis (after_one jti w)).1
  unfolding deny_all pure best_effort ◌>>=◌
  deny_all-after_one jti jtis w = ground arith

  now-after_one : (jti : Text) (w : World) → (after_one jti w).now ≡ w.now
  unfolding deny_one exec
  now-after_one jti w = ground arith

  IsDenied-after_one :
      (jti : Text) (w : World) → w.now ≡ now → is_empty jti ≡ false → Denied jti (after_one jti w)
  IsDenied-after_one jti w h some_jti = rw some_jti (becomes-IsDenied jti w h)

  -- The tokens that were listed are denied when the loop has ended.
  All-IsDenied :
      (jtis : List Text) (w : World)
      → w.now ≡ now
      → All (λ j. (is_empty j ≡ true) ⊎ IsDenied later j (deny_all env jtis w).1.cache) jtis
  All-IsDenied [] w h = tt
  All-IsDenied (jti ∷ jtis) w h =
      let w1 = after_one jti w in
      subst (λ (v : World). All (λ j. (is_empty j ≡ true) ⊎ IsDenied later j v.cache) (jti ∷ jtis))
        (sym (deny_all-after_one jti jtis w))
        (
          elim (Bool-cases (is_empty jti)) [
            | inl e ↦ inl e
            | inr e ↦ inr (((deny_all-IsDenied jti jtis).at w1 (IsDenied-after_one jti w h e)).1)
          ],
          All-IsDenied jtis w1 (now-after_one jti w ∙ h),
        )

deny_family_run :
    (env : Env) (family_id : Text) (w : World)
    → CanDeny env family_id
    → (deny_family env family_id w).1
      ≡ (deny_all env (jtis_where (of_family family_id) w.tokens) w).1
unfolding deny_family jtis_by_family query deny best_effort ◌>>=◌
deny_family_run env family_id w can = ground (arith, can.reads, can.wired)

-- When nothing fails, the access tokens of a session are denied from then on until they expire.
pub deny_family_denies :
    (env : Env) (family_id : Text) (w : World) (later : ℕ)
    → CanDeny env family_id
    → later ≤ w.now + env.access_ttl
    → All
        (λ j. (is_empty j ≡ true) ⊎ IsDenied later j (deny_family env family_id w).1.cache)
        (jtis_where (of_family family_id) w.tokens)
deny_family_denies env family_id w later can soon =
    let jtis = jtis_where (of_family family_id) w.tokens in
    subst (λ (v : World). All (λ j. (is_empty j ≡ true) ⊎ IsDenied later j v.cache) jtis)
      (sym (deny_family_run env family_id w can))
      (All-IsDenied env w.now later can.lives soon can.writes jtis w refl)
