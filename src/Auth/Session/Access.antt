-- ===== src/Auth/Session/Access.antt =====
-- What an access token is still good for after its session has ended.
use go_project_starter.Base.{
  ℕ, zero, suc, pos, Option-cases, inl, inr, ◌+◌, ◌<◌, true, false, none, some, ◌≡◌, arith,
}
use go_project_starter.Base.Texts.{same_refl, Text, codes, is_empty}
use go_project_starter.Base.Exec.{Result-cases, ok, err}
use go_project_starter.Apierr.{unauthenticated}
use go_project_starter.Cache
use go_project_starter.Cache.Laws.{get-set}
use go_project_starter.Auth.Domain.User.{User, is_suspended, active}
use go_project_starter.Auth.World.{Env, World, Claims, cache_get, cache_set, query, exec}
use go_project_starter.Auth.World
use go_project_starter.Auth.Repository.Users.{find_by_id, user_by_id}
use go_project_starter.Auth.Command.Denylist.{jti_deny_key, deny_one}
use go_project_starter.Auth.Command.Denylist.Effects.{IsDenied}
use go_project_starter.Auth.Command.Authenticate.{Identity, is_denied, identity_of, authenticate}

lapsed :
    (now later ttl : ℕ) (k v : Text) (m : Cache.Memory)
    → 0 < ttl
    → now + ttl < later
    → Cache.get later k (Cache.set now k v (pos ttl) m) ≡ none
lapsed now later zero k v m lives late = absurd (omega arith)
lapsed now later (suc n) k v m lives late = rw get-set (ground (arith, same_refl k))

module _ (env : Env) where
  gone :
      (w : World) (later : ℕ) (jti : Text)
      → env.fails (cache_set (jti_deny_key jti)) ≡ false
      → 0 < env.access_ttl
      → w.now + env.access_ttl < later
      → Cache.get later (jti_deny_key jti) (deny_one env jti w).1.cache ≡ none
  unfolding deny_one exec
  gone w later jti writes lives late =
      rw writes
        (lapsed w.now later env.access_ttl (jti_deny_key jti) (codes "1") w.cache lives late)

  -- A token that parses and whose identifier is denied is refused, while the denylist is read.
  pub authenticate_denied :
      (raw : Text) (w : World) (claims : Claims)
      → env.parse_access_token raw w.now ≡ ok claims
      → is_empty claims.jti ≡ false
      → env.has_cache ≡ true
      → env.fails (cache_get (jti_deny_key claims.jti)) ≡ false
      → IsDenied w.now claims.jti w.cache
      → authenticate env raw w ≡ err unauthenticated
  unfolding authenticate is_denied
  authenticate_denied raw w claims parsed named wired reads denied = ground arith

  -- Whoever is let in presented a token that parses, and is a user that is there and active; and
  -- the denylist had no entry for the token, unless it has no identifier or could not be read.
  pub authenticate_sound :
      (raw : Text) (w : World) (who : Identity)
      → authenticate env raw w ≡ ok who
      → (claims : Claims) × (u : User) × (env.parse_access_token raw w.now ≡ ok claims)
        × (who.user_id ≡ claims.user_id)
        × (who.roles ≡ claims.roles)
        × (user_by_id claims.user_id w.users ≡ some u)
        × (u.status ≡ active)
        × (is_denied env claims w ≡ false)
  unfolding authenticate identity_of find_by_id query is_suspended
  authenticate_sound raw w who h = elim (Result-cases (env.parse_access_token raw w.now)) [
    | inl (e, refused) ↦ absurd (ground arith)
    | inr (claims, parsed) ↦ elim (Option-cases (user_by_id claims.user_id w.users)) [
      | inl missing ↦ absurd (ground arith)
      | inr (u, there) ↦
          (claims, u, parsed, ground arith, ground arith, there, ground arith, ground arith)
    ]
  ]

  -- An entry of the denylist is gone once the access-token ttl has passed since it was written: from
  -- then on a token that the parser still accepts, as it does within its leeway behind the expiry,
  -- is let in again, if its user is there and active and the read of the user does not fail.
  pub denied_token_revives :
      (raw : Text) (w v : World) (claims : Claims) (u : User)
      → v.cache ≡ (deny_one env claims.jti w).1.cache
      → env.fails (cache_set (jti_deny_key claims.jti)) ≡ false
      → 0 < env.access_ttl
      → w.now + env.access_ttl < v.now
      → env.parse_access_token raw v.now ≡ ok claims
      → env.fails World.find_user ≡ false
      → user_by_id claims.user_id v.users ≡ some u
      → u.status ≡ active
      → authenticate env raw v ≡ ok (record { user_id = claims.user_id; roles = claims.roles })
  unfolding authenticate identity_of find_by_id query is_suspended is_denied
  denied_token_revives raw w v claims u written writes lives late parsed reads there allowed =
      ground (arith, gone w v.now claims.jti writes lives late)
