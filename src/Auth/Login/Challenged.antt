-- ===== src/Auth/Login/Challenged.antt =====
-- What a login gives: tokens, or a challenge in their place.
use go_project_starter.Base.{suc, true, none, [], is_some, ℤ, ◌≡◌, refl, ap, Bool-cases, inl, inr}
use go_project_starter.Base.Texts.{Text}
use go_project_starter.Base.Exec.{Result, ok, err, raise, pure, ◌>>=◌, >>=-eq-ok}
use go_project_starter.Apierr.{Err}
use go_project_starter.Cache
use go_project_starter.Auth.Domain.User.{User}
use go_project_starter.Auth.World.{Env, World, exec, new_opaque_token, cache_set}
use go_project_starter.Auth.Command.Issuer.{issue}
use go_project_starter.Auth.Command.RateLimit.{reset_limit}
use go_project_starter.Auth.Command.Challenge.{issue_challenge, challenge_key, challenge_value}
use go_project_starter.Auth.Command.Login.{LoginResult, LoginConfig, challenged, sign_in}

-- Tokens and no challenge.
abbrev pub Granted : LoginResult → Type 0
Granted res = (is_some res.tokens ≡ true) × (res.mfa_challenge ≡ [])

-- No tokens and a challenge: a token that was drawn, under which the cache was given the user and
-- the identifier.
pub record IsChallenged (env : Env) (ttl : ℤ) (identifier : Text) (res : LoginResult) (v : World)
    : Type 0 where
  pub bare : res.tokens ≡ none
  -- The world in which the challenge was issued, last of all.
  pub before : World
  pub same_time : v.now ≡ before.now
  pub last_drawn : v.drawn ≡ suc before.drawn
  pub drawn : res.mfa_challenge ≡ env.fresh_token before.drawn
  pub stored :
      v.cache
      ≡ Cache.set before.now
          (challenge_key res.mfa_challenge)
          (challenge_value res.user.id identifier)
          ttl
          before.cache

returned : {a res : LoginResult} {w v : World} → pure a w ≡ (ok res, v) → (res ≡ a) × (v ≡ w)
unfolding pure
returned h = (cc, cc)

no_token :
    {e : Err} {t : Text} {w v : World} → ◌≡◌ {A = Result Text × World} (err e, w) (ok t, v) → ⊥
no_token h = cc

the_token :
    {a t : Text} {w v : World}
    → ◌≡◌ {A = Result Text × World} (ok a, w) (ok t, v)
    → (t ≡ a) × (v ≡ w)
the_token h = (cc, cc)

module _ (env : Env) where
  issue_challenge-eq-ok :
      (ttl : ℤ) (user_id identifier : Text) (w : World) {token : Text} {v : World}
      → issue_challenge env ttl user_id identifier w ≡ (ok token, v)
      → (token ≡ env.fresh_token w.drawn)
        × (v.now ≡ w.now)
        × (v.drawn ≡ suc w.drawn)
        × (v.cache
            ≡ Cache.set w.now
                (challenge_key token)
                (challenge_value user_id identifier)
                ttl
                w.cache)
  unfolding issue_challenge new_opaque_token exec raise pure ◌>>=◌
  issue_challenge-eq-ok ttl user_id identifier w h = elim (Bool-cases env.has_cache) [
    | inr bare ↦ absurd (no_token (rw bare at h))
    | inl cached ↦
        elim (Bool-cases (env.fails (cache_set (challenge_key (env.fresh_token w.drawn))))) [
          | inl failing ↦ absurd (no_token (rw (cached, failing) at h))
          | inr working ↦
              let (same_token, same_world) = the_token (rw (cached, working) at h) in
              rw (same_token, same_world) (refl, refl, refl, refl)
        ]
  ]

  pub challenged-IsChallenged :
      (ttl : ℤ) (u : User) (identifier : Text) (w : World) {res : LoginResult} {v : World}
      → challenged env ttl u identifier w ≡ (ok res, v)
      → (res.user ≡ u) × IsChallenged env ttl identifier res v
  unfolding challenged
  challenged-IsChallenged ttl u identifier w h =
      let (token, made, h1) = >>=-eq-ok (issue_challenge env ttl u.id identifier) _ w h in
      let (drawn, same_time, last_drawn, stored) =
        issue_challenge-eq-ok ttl u.id identifier w
          (ap (λ r. (r, (issue_challenge env ttl u.id identifier w).1)) made) in
      let (same_res, same_v) = returned h1 in
      rw (same_res, same_v)
        (
          refl,
          record {
            bare = refl;
            before = w;
            same_time = same_time;
            last_drawn = last_drawn;
            drawn = drawn;
            stored = stored;
          },
        )

  pub sign_in-Granted :
      (config : LoginConfig) (u : User) (identifier ip : Text) (w : World) {res : LoginResult}
      {v : World}
      → sign_in env config u identifier ip w ≡ (ok res, v)
      → (res.user ≡ u) × Granted res
  unfolding sign_in
  sign_in-Granted config u identifier ip w h =
      let (tokens, issued, h1) = >>=-eq-ok (issue env u.id) _ w h in
      let (_, done, h2) = >>=-eq-ok (reset_limit env config.limiter identifier ip) _ _ h1 in
      let (same_res, same_v) = returned h2 in rw same_res (refl, (refl, refl))
