-- ===== src/Auth/Session/Rotation.antt =====
-- What `Refresh.Execute` has checked and done when it returns tokens.
use go_project_starter.Base.{
  Bool, true, false, Option, none, some, [], ◌∷◌, ◌++◌, if◌then◌else◌, suc, ◌≡◌, refl, sym, ◌∙◌,
  arith, ◌≤◌, All, find-All,
}
use go_project_starter.Base.Texts.{Text, is_empty, trim_space}
use go_project_starter.Base.Exec.{ok, raise, ask, ◌>>=◌, >>=-eq-ok, bind_known}
use go_project_starter.Auth.Domain.User.{User, is_suspended, active}
use go_project_starter.Auth.Domain.RefreshToken.{
  RefreshToken, new_refresh_token, is_revoked, is_expired,
}
use go_project_starter.Auth.World.{Env, World, query, find_user, find_by_hash as find_hash}
use go_project_starter.Auth.Repository.Tokens.{
  find_by_hash, token_by_hash, revoke_by_id_if_active, revoke_where, revokes_any, has_id,
}
use go_project_starter.Auth.Repository.Users.{find_by_id, user_by_id}
use go_project_starter.Auth.Command.Issuer.{TokenResult, clock_now, issue_in_family}
use go_project_starter.Auth.Command.Refresh.{
  revoke_session, reused, exchange, for_user, timely, present, refresh,
}
use go_project_starter.Auth.Session.Issued.{query-eq-ok, exec-eq-ok, issue_in_family-eq-ok}

module _ (env : Env) where
  -- What a successful exchange has found, and what it leaves.
  pub record IsRotation (raw : Text) (w : World) (res : TokenResult) (w' : World) : Type 0 where
    pub token : RefreshToken
    pub user : User
    pub found : token_by_hash (env.hashes.hash_secret (trim_space raw)) w.tokens ≡ some token
    pub unrevoked : token.revoked_at ≡ none
    pub unexpired : w.now ≤ token.expires_at
    pub owner : user_by_id token.user_id w.users ≡ some user
    pub allowed : user.status ≡ active
    pub stored :
        w'.tokens
        ≡ revoke_where (has_id token.id) w.now w.tokens
          ++ new_refresh_token
              (env.fresh_id (suc (suc w.drawn)))
              user.id
              (env.hashes.hash_secret res.refresh_token)
              token.family_id
              (env.fresh_id w.drawn)
              env.refresh_ttl
              w.now
            ∷ []

  reused_fails :
      (t : RefreshToken) (w : World) {res : TokenResult} {w' : World}
      → reused env t w ≡ (ok res, w')
      → ⊥
  unfolding reused
  reused_fails t w h =
      let (_, _, h1) = >>=-eq-ok (revoke_session env t.family_id) _ w h in unfold raise in cc

  -- The step that retires the token comes first, and then the tokens are issued.
  pub exchange-eq-ok :
      (t : RefreshToken) (u : User) (w : World) {res : TokenResult} {w' : World}
      → exchange env t u w ≡ (ok res, w')
      → (revokes_any (has_id t.id) w.tokens ≡ true)
        × (issue_in_family env u.id t.family_id
              (record w { tokens = revoke_where (has_id t.id) w.now w.tokens })
            ≡ (ok res, w'))
  unfolding exchange revoke_by_id_if_active
  exchange-eq-ok t u w {res = res} {w' = w'} h =
      let (won_race, done, h1) = >>=-eq-ok _ _ w h in
      let (e, moved) = exec-eq-ok env _ _ w done in won won_race e (rw moved at h1)
    where
      won :
          (won_race : Bool)
          → revokes_any (has_id t.id) w.tokens ≡ won_race
          → (if won_race then issue_in_family env u.id t.family_id else reused env t)
              (record w { tokens = revoke_where (has_id t.id) w.now w.tokens })
            ≡ (ok res, w')
          → (revokes_any (has_id t.id) w.tokens ≡ true)
            × (issue_in_family env u.id t.family_id
                  (record w { tokens = revoke_where (has_id t.id) w.now w.tokens })
                ≡ (ok res, w'))
      won true e k = (e, k)
      won false e k = absurd (reused_fails t _ k)

  for_user-eq-ok :
      (t : RefreshToken) (o : Option User) (w : World) {res : TokenResult} {w' : World}
      → for_user env t o w ≡ (ok res, w')
      → (u : User) × (o ≡ some u) × (u.status ≡ active) × (exchange env t u w ≡ (ok res, w'))
  unfolding for_user is_suspended raise
  for_user-eq-ok t none w h = cc
  for_user-eq-ok t (some u) w h = (u, refl, ground arith, ground arith)

  reading_user :
      (t : RefreshToken) (w : World) {res : TokenResult} {w' : World}
      → (find_by_id env t.user_id >>= for_user env t) w ≡ (ok res, w')
      → (u : User) × (user_by_id t.user_id w.users ≡ some u)
        × (u.status ≡ active)
        × (exchange env t u w ≡ (ok res, w'))
  unfolding find_by_id query
  reading_user t w h =
      let (o, read, h1) = >>=-eq-ok _ _ w h in
      let same = query-eq-ok env find_user (λ v. user_by_id t.user_id v.users) w read in
      let (u, e, allowed, h2) = for_user-eq-ok t o w h1 in (u, same ∙ e, allowed, h2)

  timely-eq-ok :
      (t : RefreshToken) (w : World) {res : TokenResult} {w' : World}
      → timely env t w ≡ (ok res, w')
      → (w.now ≤ t.expires_at) × ((find_by_id env t.user_id >>= for_user env t) w ≡ (ok res, w'))
  unfolding timely clock_now ask is_expired raise
  timely-eq-ok t w h =
      let h1 = sym (bind_known clock_now _ w w.now w refl) ∙ h in (ground arith, ground arith)

  present-eq-ok :
      (o : Option RefreshToken) (w : World) {res : TokenResult} {w' : World}
      → present env o w ≡ (ok res, w')
      → (t : RefreshToken) × (o ≡ some t) × (t.revoked_at ≡ none) × (timely env t w ≡ (ok res, w'))
  unfolding present is_revoked raise
  present-eq-ok none w h = cc
  present-eq-ok (some t) w {res = res} {w' = w'} h =
      let fails = reused_fails t w {res = res} {w' = w'} in
      (t, refl, ground (arith, fails), ground (arith, fails))

  refresh-eq-ok :
      (raw : Text) (w : World) {res : TokenResult} {w' : World}
      → refresh env raw w ≡ (ok res, w')
      → (find_by_hash env (env.hashes.hash_secret (trim_space raw)) >>= present env) w
        ≡ (ok res, w')
  unfolding refresh raise
  refresh-eq-ok raw w h = ground arith

  -- What each step of a successful refresh has found, up to the issuing.
  pub refresh_steps :
      (raw : Text) (w : World) {res : TokenResult} {w' : World}
      → refresh env raw w ≡ (ok res, w')
      → (t : RefreshToken) × (u : User) × (token_by_hash
            (env.hashes.hash_secret (trim_space raw))
            w.tokens
          ≡ some t)
        × (t.revoked_at ≡ none)
        × (w.now ≤ t.expires_at)
        × (user_by_id t.user_id w.users ≡ some u)
        × (u.status ≡ active)
        × (issue_in_family env u.id t.family_id
              (record w { tokens = revoke_where (has_id t.id) w.now w.tokens })
            ≡ (ok res, w'))
  unfolding find_by_hash query token_by_hash
  refresh_steps raw w h =
      let hash = env.hashes.hash_secret (trim_space raw) in
      let (o, read, h1) = >>=-eq-ok _ _ w (refresh-eq-ok raw w h) in
      let found = query-eq-ok env find_hash (λ v. token_by_hash hash v.tokens) w read in
      let (t, e, unrevoked, h2) = present-eq-ok o w h1 in
      let (unexpired, h3) = timely-eq-ok t w h2 in
      let (u, owner, allowed, h4) = reading_user t w h3 in
      let (_, h5) = exchange-eq-ok t u w h4 in
      (t, u, found ∙ e, unrevoked, unexpired, owner, allowed, h5)

  -- When `refresh` returns tokens and every stored session has a name, the presented token is
  -- stored under the hash of the trimmed text, was neither revoked nor expired, and belongs to a
  -- user who is active; it is revoked, and the one token that is added, under the hash of the raw
  -- value returned, is of that user and in the same session.
  pub refresh-IsRotation :
      (raw : Text) (w : World) {res : TokenResult} {w' : World}
      → All (λ (t : RefreshToken). is_empty t.family_id ≡ false) w.tokens
      → refresh env raw w ≡ (ok res, w')
      → IsRotation raw w res w'
  unfolding token_by_hash
  refresh-IsRotation raw w families h =
      let (t, u, found, unrevoked, unexpired, owner, allowed, issued) = refresh_steps raw w h in
      let named =
        find-All (λ (t : RefreshToken). is_empty t.family_id ≡ false) _ w.tokens families found in
      let (stored, raw_token) = issue_in_family-eq-ok env u.id t.family_id _ named issued in
      record {
        token = t;
        user = u;
        found = found;
        unrevoked = unrevoked;
        unexpired = unexpired;
        owner = owner;
        allowed = allowed;
        stored = rw raw_token stored;
      }
