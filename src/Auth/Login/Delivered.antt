-- ===== src/Auth/Login/Delivered.antt =====
-- The reset code that the worker issues is the one that a later check reads.
use go_project_starter.Base.{
  if◌then◌else◌, zero, suc, Bool-cases, inl, inr, ◌||◌, ℕ, ◌+◌, Bool, true, false, not, ◌&&◌, none,
  some, List, [], ◌∷◌, ◌++◌, ltb, ◌≡◌, refl, ap, sym, arith, any, leb, All,
}
use go_project_starter.Base.Texts.{Text, same, same_refl}
use go_project_starter.Base.Exec.{
  ask, Result, Result-cases, ok, err, pure, ◌>>=◌, >>=-eq-ok, Keeps, Keeps-bind, Keeps-pure,
}
use go_project_starter.Auth.World.{Env, World, new_id, exec}
use go_project_starter.Auth.World
use go_project_starter.Auth.Command.Issuer.{clock_now}
use go_project_starter.Auth.Command.Verify.{validate_code, judge, spend}
use go_project_starter.Auth.Command.Totp.{draw}
use go_project_starter.Auth.Command.Delivery.{draw_digits, generate_otp, store_code}
use go_project_starter.Auth.Domain.VerificationCode.{
  VerificationCode, Channel, Purpose, consume, is_consumed, new_verification_code, hash_code,
  Hashes, reset, is_expired, matches,
}
use go_project_starter.Apierr.{Err, backend}
use go_project_starter.Auth.Repository.Codes.{
  save_code, is_code_insertable, newest_code, update_codes, consumable, consume_code, is_open,
  of_purpose, of_channel, purpose_text, channel_text,
}

-- The newest of rows of which only the last passes.
pub newest_code-last :
    (p : VerificationCode → Bool) (cs : List VerificationCode) (c : VerificationCode)
    → All (λ d. p d ≡ false) cs
    → p c ≡ true
    → newest_code p (cs ++ c ∷ []) ≡ some c
unfolding newest_code
newest_code-last p [] c h e = rw e refl
newest_code-last p (d ∷ cs) c h e = rw h.0 (newest_code-last p cs c h.1 e)

module _ (user_id : Text) (ch : Channel) (now : ℕ) where
  abbrev pub invalidated : VerificationCode → Bool
  invalidated d = same d.user_id user_id && of_purpose reset d && not (is_consumed d)

  -- What `find_latest_active` reads.
  abbrev pub readable : VerificationCode → Bool
  readable d = same d.user_id user_id && of_purpose reset d && of_channel ch d && is_open now d

  closing : (d : VerificationCode) → readable (if invalidated d then consume now d else d) ≡ false
  unfolding is_open is_consumed consume
  closing d = elim (Bool-cases (invalidated d)) [
    | inl on ↦ rw on (ground arith)
    | inr off ↦ rw off (ground arith)
  ]

  -- After the reset codes of a user are invalidated, none is read.
  pub invalidated-closed :
      (cs : List VerificationCode)
      → All (λ d. readable d ≡ false) (update_codes invalidated (consume now) cs)
  unfolding update_codes
  invalidated-closed [] = tt
  invalidated-closed (d ∷ cs) = (closing d, invalidated-closed cs)

  abbrev pub fresh_code : (id hash : Text) (ttl : ℕ) → VerificationCode
  fresh_code id hash ttl = record {
    id = id;
    user_id = user_id;
    channel = ch;
    purpose = reset;
    code_hash = hash;
    attempts = 0;
    expires_at = now + ttl;
    consumed_at = none;
    created_at = now;
    updated_at = now;
  }

  pub fresh_code-readable :
      (id hash : Text) (ttl : ℕ) → ltb 0 ttl ≡ true → readable (fresh_code id hash ttl) ≡ true
  unfolding is_open is_consumed purpose_text
  fresh_code-readable id hash ttl h =
      let purpose : of_purpose reset (fresh_code id hash ttl) ≡ true =
        same_refl (purpose_text reset) in
      rw (same_refl user_id, same_refl (channel_text ch), purpose) (ground arith)

  no_code : {e : Err} {c : VerificationCode} → err e ≡ ok c → ⊥
  no_code h = cc

  made_code : {c d : VerificationCode} → ok c ≡ ok d → c ≡ d
  made_code h = cc

  pub new_code-eq-ok :
      (h : Hashes) (id raw : Text) (ttl : ℕ) {c : VerificationCode}
      → new_verification_code h id user_id ch reset raw ttl now ≡ ok c
      → (hash : Text) × (h.generate raw ≡ ok hash) × (c ≡ fresh_code id hash ttl)
  unfolding new_verification_code hash_code
  new_code-eq-ok h id raw ttl e = elim (Result-cases (h.generate raw)) [
    | inl (bad, failed) ↦ absurd (no_code (rw failed at e))
    | inr (hash, made) ↦ (hash, made, sym (made_code (rw made at e)))
  ]

-- What drawing digits leaves as it was.
abbrev pub SameTables : World → World → Type 0
SameTables w v = (v.codes ≡ w.codes) × (v.now ≡ w.now)

refused_err : {w v : World} → ◌≡◌ {A = Result (Unit {0}) × World} (err backend, w) (ok tt, v) → ⊥
refused_err h = cc

module _ (env : Env) (random : ℕ → Result ℕ) (otp_length ttl : ℕ) where
  Keeps-draw : (w : World) → Keeps (SameTables w) (draw env random)
  Keeps-draw w = record { at = λ v h. h }

  Keeps-draw_digits :
      (w : World) (n : ℕ) → Keeps (SameTables w) (draw_digits env random otp_length ttl n)
  unfolding draw_digits
  Keeps-draw_digits w zero = Keeps-pure []
  Keeps-draw_digits w (suc n) =
      Keeps-bind _ _ (Keeps-draw w) λ v. Keeps-bind _ _ (Keeps-draw_digits w n) λ s. Keeps-pure _

  pub generate_otp-SameTables :
      (w : World) → SameTables w (generate_otp env random otp_length ttl w).1
  unfolding generate_otp
  generate_otp-SameTables w = (Keeps-draw_digits w _).at w (refl, refl)

  save_code-eq-ok :
      (c : VerificationCode) (w : World) {v : World}
      → save_code env c w ≡ (ok tt, v)
      → (v.codes ≡ w.codes ++ c ∷ []) × (v.now ≡ w.now)
  unfolding save_code
  save_code-eq-ok c w {v = v} h =
      elim (Bool-cases (env.fails World.save_code || not (is_code_insertable c w.codes w.users))) [
        | inl refused ↦ absurd (refused_err (rw refused at h))
        | inr stored ↦
            let same_world : record w { codes = w.codes ++ c ∷ [] } ≡ v =
              ap (λ p. p.1) (rw stored at h) in
            (
              ap (λ (x : World). x.codes) (sym same_world),
              ap (λ (x : World). x.now) (sym same_world),
            )
      ]

  -- What storing a code that can be stored did.
  pub store_code-eq-ok :
      (user_id : Text) (ch : Channel) (p : Purpose) (raw : Text) (w : World) {v : World}
      → store_code env user_id ch p raw ttl w ≡ (ok tt, v)
      → (id : Text) × (c : VerificationCode) × (new_verification_code env.hashes id user_id ch p raw
            ttl w.now
          ≡ ok c)
        × (v.codes ≡ w.codes ++ c ∷ [])
        × (v.now ≡ w.now)
  unfolding store_code new_id ask
  store_code-eq-ok user_id ch p raw w h =
      let (id, drawn, h1) = >>=-eq-ok (new_id env) _ w h in
      let (c, made, h2) = >>=-eq-ok (ask _) _ (new_id env w).1 h1 in
      let (kept, still) = save_code-eq-ok c _ h2 in (id, c, made, kept, still)

  pub any-last :
      (p : VerificationCode → Bool) (cs : List VerificationCode) (c : VerificationCode)
      → p c ≡ true
      → any p (cs ++ c ∷ []) ≡ true
  any-last p [] c h = rw h refl
  any-last p (d ∷ cs) c h = rw (any-last p cs c h) (ground arith)

  -- A fresh code whose secret is presented in time passes.
  pub validate-fresh :
      (user_id : Text) (ch : Channel) (id hash raw : Text) (most : ℕ) (v : World)
      → any (consumable id) v.codes ≡ true
      → env.hashes.compare_hash hash raw ≡ true
      → env.fails World.consume_code ≡ false
      → ltb 0 most ≡ true
      → (validate_code env (some (fresh_code user_id ch v.now id hash ttl)) raw most v).0 ≡ ok tt
  unfolding validate_code is_consumed clock_now judge is_expired matches spend consume_code exec
      pure ◌>>=◌
  validate-fresh user_id ch id hash raw most v there right works budget =
      let timely : ltb (v.now + ttl) v.now ≡ false = ground arith in
      let tries : leb most 0 ≡ false = ground arith in rw (timely, tries, right, works, there) refl
