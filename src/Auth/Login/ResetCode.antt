-- ===== src/Auth/Login/ResetCode.antt =====
-- The reset code that the worker issues is the one that a later check accepts.
use go_project_starter.Base.{
  ℕ, true, false, Option, none, some, List, [], ◌∷◌, ◌++◌, ltb, any, ◌≡◌, refl, ap, sym, ◌∙◌, All,
  Bool-cases, inl, inr,
}
use go_project_starter.Base.Texts.{Text, same_refl}
use go_project_starter.Base.Exec.{Result, ok, err, ◌>>=◌, >>=-eq-ok, bind_known, pure}
use go_project_starter.Apierr.{backend}
use go_project_starter.Auth.World.{Env, World, exec, query}
use go_project_starter.Auth.World
use go_project_starter.Auth.Domain.User.{User}
use go_project_starter.Auth.Domain.VerificationCode.{VerificationCode, reset, consume, is_consumed}
use go_project_starter.Auth.Repository.Codes.{
  invalidate_by_user, find_latest_active, update_codes, consumable, newest_code,
}
use go_project_starter.Auth.Command.Delivery.{
  Delivered, channel_for, generate_otp, store_code, reset_code_for, reset_code_to,
  process_forgot_password,
}
use go_project_starter.Auth.Command.Login.{find_by_identifier}
use go_project_starter.Auth.Command.Passwords.{normalize_identifier}
use go_project_starter.Auth.Command.Verify.{validate_code}
use go_project_starter.Auth.Login.Factor.{account_of, find_by_identifier-eq-ok}
use go_project_starter.Auth.Login.Delivered.{
  newest_code-last, invalidated, readable, fresh_code, invalidated-closed, fresh_code-readable,
  new_code-eq-ok, generate_otp-SameTables, store_code-eq-ok, any-last, validate-fresh,
}

module _ (env : Env) (random : ℕ → Result ℕ) (otp_length ttl : ℕ) where
  -- What issuing a code for an identifier of a user left.
  record Issued (known : Text) (u : User) (d : Delivered) (w v : World) : Type 0 where
    to_user : d.user ≡ some u
    same_time : v.now ≡ w.now
    id : Text
    hash : Text
    hashed : env.hashes.generate d.secret ≡ ok hash
    older : List VerificationCode
    closed : All (λ c. readable u.id (channel_for known) w.now c ≡ false) older
    appended : v.codes ≡ older ++ fresh_code u.id (channel_for known) w.now id hash ttl ∷ []

  no_exec : ◌≡◌ {A = Result (Unit {0})} (err backend) (ok tt) → ⊥
  no_exec h = cc

  invalidate-eq-ok :
      (known : Text) (u : User) (w : World)
      → (invalidate_by_user env u.id reset w).0 ≡ ok tt
      → ((invalidate_by_user env u.id reset w).1.codes
          ≡ update_codes (invalidated u.id (channel_for known) w.now) (consume w.now) w.codes)
        × ((invalidate_by_user env u.id reset w).1.now ≡ w.now)
  unfolding invalidate_by_user exec
  invalidate-eq-ok known u w h = elim (Bool-cases (env.fails World.invalidate_codes)) [
    | inl failing ↦ absurd (no_exec (rw failing at h))
    | inr working ↦ rw working (refl, refl)
  ]

  returned : {a d : Delivered} {w v : World} → pure a w ≡ (ok d, v) → (d ≡ a) × (v ≡ w)
  unfolding pure
  returned h = (cc, cc)

  nobody_named : {u : User} → none ≡ some u → ⊥
  nobody_named h = cc

  the_user : {t u : User} → some t ≡ some u → t ≡ u
  the_user h = cc

  reset_code_for-eq-ok :
      (known : Text) (u : User) (w : World) {d : Delivered} {v : World}
      → reset_code_for env random otp_length ttl known (some u) w ≡ (ok d, v)
      → Issued known u d w v
  unfolding reset_code_for
  reset_code_for-eq-ok known u w h =
      let (o, closing, h1) = >>=-eq-ok (invalidate_by_user env u.id reset) _ w h in
      let (code, drawn, h2) = >>=-eq-ok (generate_otp env random otp_length ttl) _ _ h1 in
      let (o2, stored, h3) =
        >>=-eq-ok (store_code env u.id (channel_for known) reset code ttl) _ _ h2 in
      let w1 = (invalidate_by_user env u.id reset w).1 in
      let w2 = (generate_otp env random otp_length ttl w1).1 in
      let (same_d, same_v) = returned h3 in
      let (id, c, made, kept, still) =
        store_code-eq-ok env random otp_length ttl u.id (channel_for known) reset code w2
          (ap (λ r. (r, (store_code env u.id (channel_for known) reset code ttl w2).1)) stored) in
      let (hash, hashed, same_c) =
        new_code-eq-ok u.id (channel_for known) w2.now env.hashes id code ttl made in
      let (codes1, now1) = invalidate-eq-ok known u w closing in
      let (codes2, now2) = generate_otp-SameTables env random otp_length ttl w1 in
      rw (same_d, same_v)
        (record {
          to_user = refl;
          same_time = still ∙ (now2 ∙ now1);
          id = id;
          hash = hash;
          hashed = hashed;
          older = update_codes (invalidated u.id (channel_for known) w.now) (consume w.now) w.codes;
          closed = invalidated-closed u.id (channel_for known) w.now w.codes;
          appended =
              kept
              ∙ (ap (λ cs. cs ++ c ∷ []) (codes2 ∙ codes1)
                  ∙ ap
                      (λ x.
                        update_codes (invalidated u.id (channel_for known) w.now) (consume w.now)
                          w.codes
                        ++ x ∷ [])
                      (same_c
                        ∙ ap (λ n. fresh_code u.id (channel_for known) n id hash ttl)
                            (now2 ∙ now1)));
        })

  module _
      (hashes_match : (raw hash : Text)
        → env.hashes.generate raw ≡ ok hash
        → env.hashes.compare_hash hash raw ≡ true)
      (reads : env.fails World.find_code ≡ false) (consumes : env.fails World.consume_code ≡ false)
      (lives : ltb 0 ttl ≡ true) where
    Issued-newest :
        (known : Text) (u : User) (d : Delivered) (w v : World) (h : Issued known u d w v)
        → find_latest_active env u.id reset (channel_for known) v
          ≡ (ok (some (fresh_code u.id (channel_for known) v.now h.id h.hash ttl)), v)
    unfolding find_latest_active query
    Issued-newest known u d w v h =
        let newest =
          newest_code-last (readable u.id (channel_for known) w.now) h.older _ h.closed
            (fresh_code-readable u.id (channel_for known) w.now h.id h.hash ttl lives) in
        let read : newest_code (readable u.id (channel_for known) v.now) v.codes
            ≡ some (fresh_code u.id (channel_for known) v.now h.id h.hash ttl) =
          rw (h.same_time, h.appended) newest in
        rw (reads, read) refl

    Issued-accepted :
        (known : Text) (u : User) (d : Delivered) (most : ℕ) (w v : World)
        → ltb 0 most ≡ true
        → Issued known u d w v
        → ((find_latest_active env u.id reset (channel_for known) >>= λ o.
              validate_code env o d.secret most)
            v).0
          ≡ ok tt
    Issued-accepted known u d most w v budget h =
        let fresh = fresh_code u.id (channel_for known) v.now h.id h.hash ttl in
        let stored : any (consumable h.id) v.codes ≡ true = rw h.appended (
          any-last env random otp_length ttl (consumable h.id) h.older _
            (unfold is_consumed in rw (same_refl h.id) refl)) in
        ap (λ r. r.0)
          (bind_known (find_latest_active env u.id reset (channel_for known))
            (λ o. validate_code env o d.secret most) v (some fresh) v
            (Issued-newest known u d w v h))
        ∙ validate-fresh env random otp_length ttl u.id (channel_for known) h.id h.hash d.secret
            most v stored (hashes_match d.secret h.hash h.hashed) consumes budget

    -- The account that a delivery is for.
    delivered_to :
        (known : Text) (o : Option User) (u : User) (d : Delivered) (most : ℕ) (w v : World)
        → ltb 0 most ≡ true
        → reset_code_for env random otp_length ttl known o w ≡ (ok d, v)
        → d.user ≡ some u
        → (o ≡ some u)
          × (((find_latest_active env u.id reset (channel_for known) >>= λ o'.
                  validate_code env o' d.secret most)
                v).0
              ≡ ok tt)
    unfolding reset_code_for pure
    delivered_to known none u d most w v budget h for_u =
        absurd (nobody_named (sym (ap (λ (x : Delivered). x.user) (returned h).0) ∙ for_u))
    delivered_to known (some t) u d most w v budget h for_u =
        let issued = reset_code_for-eq-ok known t w h in
        let t_is_u : some t ≡ some u = sym issued.to_user ∙ for_u in
        (t_is_u, rw (sym (the_user t_is_u)) (Issued-accepted known t d most w v budget issued))

    -- The reset code that the worker issues is accepted: where processing a request for an
    -- identifier delivers a code to a user, that user is the account of the normalized identifier,
    -- and reading the newest reset code of the user and checking it against what was delivered
    -- passes. A hash matches what it was made of, the code lives for some time, there is a guess,
    -- and the codes can be read and consumed.
    pub reset_code_accepted :
        (normalize_email : Text → Result Text) (country_code identifier known : Text) (u : User)
        (d : Delivered) (most : ℕ) (w v : World)
        → ltb 0 most ≡ true
        → normalize_identifier normalize_email identifier country_code ≡ ok known
        → process_forgot_password env random otp_length ttl normalize_email country_code identifier
            w
          ≡ (ok d, v)
        → d.user ≡ some u
        → (account_of known country_code w.users ≡ some u)
          × (((find_latest_active env u.id reset (channel_for known) >>= λ o.
                  validate_code env o d.secret most)
                v).0
              ≡ ok tt)
    unfolding process_forgot_password reset_code_to
    reset_code_accepted normalize_email country_code identifier known u d most w v budget named h
          for_u =
        let (o, found, h1) =
          >>=-eq-ok (find_by_identifier env known country_code) _ w (rw named at h) in
        let (account, still) = find_by_identifier-eq-ok env known country_code w found in
        let (is_u, passes) = delivered_to known o u d most w v budget (rw still at h1) for_u in
        (account ∙ is_u, passes)
