-- ===== src/Auth/Session/Issued.antt =====
-- What issuing tokens does when it returns.
use go_project_starter.Base.{false, List, [], ◌∷◌, ◌++◌, suc, ◌≡◌, refl, sym, ◌∙◌, arith}
use go_project_starter.Base.Texts.{Text, is_empty}
use go_project_starter.Base.Exec.{ok, pure, ask, ◌>>=◌, >>=-eq-ok, bind_known}
use go_project_starter.Auth.Domain.RefreshToken.{RefreshToken, new_refresh_token}
use go_project_starter.Auth.World.{
  Env, World, Call, query, exec, new_id, new_opaque_token, record_best_effort,
}
use go_project_starter.Auth.Repository.Tokens.{save}
use go_project_starter.Auth.Command.Issuer.{
  TokenResult, clock_now, load_roles, family_for, sign, store_token, issue_in_family,
}

module _ (env : Env) where
  pub query-eq-ok :
      {A : Type 0} (c : Call) (f : World → A) (w : World) {a : A}
      → (query env c f w).0 ≡ ok a
      → f w ≡ a
  unfolding query
  query-eq-ok c f w h = ground arith

  pub exec-eq-ok :
      {A : Type 0} (c : Call) (f : World → A × World) (w : World) {a : A}
      → (exec env c f w).0 ≡ ok a
      → ((f w).0 ≡ a) × ((exec env c f w).1 ≡ (f w).1)
  unfolding exec
  exec-eq-ok c f w h = ground arith

  -- The refresh token that `store_token` builds in a world.
  abbrev pub issued_in : World → (user_id family_id jti : Text) → RefreshToken
  issued_in w user_id family_id jti =
      new_refresh_token (env.fresh_id (suc w.drawn)) user_id
        (env.hashes.hash_secret (env.fresh_token w.drawn)) family_id jti env.refresh_ttl w.now

  store_token-eq-ok :
      (u f j a : Text) (w : World) {res : TokenResult} {w' : World}
      → store_token env u f j a w ≡ (ok res, w')
      → (w'.tokens ≡ w.tokens ++ issued_in w u f j ∷ [])
        × (res.refresh_token ≡ env.fresh_token w.drawn)
        × (res.access_token ≡ a)
  unfolding store_token save new_opaque_token new_id clock_now record_best_effort ◌>>=◌
  store_token-eq-ok u f j a w h = ground arith

  load_roles_reads : (u : Text) (w : World) → (load_roles env u w).1 ≡ w
  unfolding load_roles ask pure
  load_roles_reads u w = ground arith

  family_for_same : (u f : Text) (w : World) → is_empty f ≡ false → family_for env u f w ≡ (ok f, w)
  unfolding family_for pure
  family_for_same u f w h = rw h

  sign_then_store :
      (u f jti : Text) (roles : List Text) (w : World) {res : TokenResult} {w' : World}
      → (sign env u roles jti >>= store_token env u f jti) w ≡ (ok res, w')
      → (w'.tokens ≡ w.tokens ++ issued_in w u f jti ∷ [])
        × (res.refresh_token ≡ env.fresh_token w.drawn)
  unfolding sign ask
  sign_then_store u f jti roles w h =
      let (access, signed, stored) = >>=-eq-ok _ _ w h in
      let (tokens, raw, _) = store_token-eq-ok u f jti access w (stored) in (tokens, raw)

  -- Issuing in a session that is there adds one token to it, for the access token that was signed.
  pub issue_in_family-eq-ok :
      (u f : Text) (w : World) {res : TokenResult} {w' : World}
      → is_empty f ≡ false
      → issue_in_family env u f w ≡ (ok res, w')
      → (w'.tokens
          ≡ w.tokens
            ++ issued_in (record w { drawn = suc w.drawn }) u f (env.fresh_id w.drawn) ∷ [])
        × (res.refresh_token ≡ env.fresh_token (suc w.drawn))
  unfolding issue_in_family new_id
  issue_in_family-eq-ok u f w some_family h =
      let (roles, _, h1) = >>=-eq-ok _ _ w h in
      let h2 = (rw load_roles_reads at h1) in
      let known = bind_known (family_for env u f) _ w f w (family_for_same u f w some_family) in
      let w1 = record w { drawn = suc w.drawn } in
      let drawn = bind_known (new_id env) _ w (env.fresh_id w.drawn) w1 refl in
      sign_then_store u f (env.fresh_id w.drawn) roles w1 (sym drawn ∙ sym known ∙ h2)
