-- ===== src/Auth/Login/Reset.antt =====
-- `ResetPassword` of reset_password.go, from the identifier on.
use go_project_starter.Base.{
  ℕ, ◌&&◌, ◌||◌, Option, none, some, ltb, ◌≡◌, refl, ◌∙◌, ap, sym, arith, Bool-cases, inl, inr,
}
use go_project_starter.Base.Texts.{Text, same, is_empty}
use go_project_starter.Base.Exec.{Result, ok, err, raise, ◌>>=◌, >>=-eq-ok}
use go_project_starter.Apierr.{invalid}
use go_project_starter.Auth.Domain.User.{User}
use go_project_starter.Auth.Domain.VerificationCode.{VerificationCode, reset}
use go_project_starter.Auth.World.{Env, World, query}
use go_project_starter.Auth.Repository.Codes.{
  newest_code, of_purpose, of_channel, is_open, find_latest_active,
}
use go_project_starter.Auth.Command.Verify.{validate_code}
use go_project_starter.Auth.Command.Login.{find_by_identifier}
use go_project_starter.Auth.Command.Passwords.{
  reset_password_of, reset_for, reset_with, reset_password, channel_of, normalize_identifier,
  byte_length,
}
use go_project_starter.Auth.Login.Factor.{account_of, find_by_identifier-eq-ok}
use go_project_starter.Auth.Login.Guesses.{IsSpent, validate_code-IsSpent}
use go_project_starter.Auth.Login.Passwords.{
  IsSignedOut, reset_password_of-IsSignedOut, reset_password_of-KeptCodes,
}

module _ (env : Env) (hash_password : Text → Result Text) where
  -- The code that may reset the password of a user: the newest open one of the channel.
  abbrev pub reset_code : User → (identifier : Text) → World → Option VerificationCode
  reset_code u identifier w =
      newest_code
        (λ c.
          same c.user_id u.id
          && of_purpose reset c
          && of_channel (channel_of env hash_password identifier) c
          && is_open w.now c)
        w.codes

  -- The code of the user passed, which left `spent_world`, and is still spent so at the end, and the
  -- user is signed out.
  pub record IsReset (u : User) (identifier code : Text) (most : ℕ) (w v : World) : Type 0 where
    pub spent_world : World
    pub spent : IsSpent env (reset_code u identifier w) code most w spent_world
    pub still_spent : v.codes ≡ spent_world.codes
    pub signed_out : IsSignedOut u.id v.tokens

  reading :
      (u : User) (identifier : Text) (w : World) {o : Option VerificationCode}
      → (find_latest_active env u.id reset (channel_of env hash_password identifier) w).0 ≡ ok o
      → (reset_code u identifier w ≡ o)
        × ((find_latest_active env u.id reset (channel_of env hash_password identifier) w).1 ≡ w)
  unfolding find_latest_active query
  reading u identifier w h = (ground arith, refl)

  passing :
      (u : User) (identifier code new_password : Text) (most : ℕ) (w : World) {v : World}
      → (validate_code env (reset_code u identifier w) code most >>= λ _.
            reset_password_of env hash_password u new_password)
          w
        ≡ (ok tt, v)
      → IsReset u identifier code most w v
  passing u identifier code new_password most w h =
      let (_, passed, h1) =
        >>=-eq-ok (validate_code env (reset_code u identifier w) code most) _ w h in
      record {
        spent_world = (validate_code env (reset_code u identifier w) code most w).1;
        spent =
            validate_code-IsSpent env (reset_code u identifier w) code most w _
              (ap (λ r. (r, (validate_code env (reset_code u identifier w) code most w).1)) passed);
        still_spent =
            ap (λ p. p.1.codes) (sym h1)
            ∙ (reset_password_of-KeptCodes env hash_password _ u new_password).at _ refl;
        signed_out = reset_password_of-IsSignedOut env hash_password u new_password _ h1;
      }

  reset_for-eq-ok :
      (o : Option User) (identifier code new_password : Text) (most : ℕ) (w : World) {v : World}
      → reset_for env hash_password o identifier code new_password most w ≡ (ok tt, v)
      → (u : User) × (o ≡ some u) × IsReset u identifier code most w v
  unfolding reset_for
  reset_for-eq-ok none identifier code new_password most w h = absurd (unfold raise in cc)
  reset_for-eq-ok (some u) identifier code new_password most w h =
      let (o, read, h1) =
        >>=-eq-ok (find_latest_active env u.id reset (channel_of env hash_password identifier)) _ w
          h in
      let (found, still) = reading u identifier w read in
      (u, refl, passing u identifier code new_password most w (rw (found, sym still) h1))

  refused : (w : World) {v : World} → raise {A = Unit {0}} invalid w ≡ (ok tt, v) → ⊥
  refused w h = unfold raise in cc

  module _ (country_code : Text) where
    reset_with-eq-ok :
        (r : Result Text) (code new_password : Text) (most : ℕ) (w : World) {v : World}
        → reset_with env hash_password r country_code code new_password most w ≡ (ok tt, v)
        → (identifier : Text) × (u : User) × (r ≡ ok identifier)
          × (account_of identifier country_code w.users ≡ some u)
          × IsReset u identifier code most w v
    unfolding reset_with
    reset_with-eq-ok (err e) code new_password most w h = absurd (refused w h)
    reset_with-eq-ok (ok identifier) code new_password most w {v = v} h =
        elim (Bool-cases (is_empty code || ltb (byte_length new_password) 8)) [
          | inl weak ↦ absurd (refused w (rw weak at h))
          | inr strong ↦
              let (o, found, h1) =
                >>=-eq-ok (find_by_identifier env identifier country_code) _ w {v = v}
                  (rw strong at h) in
              let (account, still) = find_by_identifier-eq-ok env identifier country_code w found in
              let (u, e, done) =
                reset_for-eq-ok o identifier code new_password most w (rw still at h1) in
              (identifier, u, refl, account ∙ e, done)
        ]

    -- A reset that succeeds was of the account of the identifier and passed the check of the newest
    -- open reset code of that account; it left the codes as that check did, with the one consumed,
    -- and no refresh token of the user active.
    pub reset_password_resets :
        (normalize_email : Text → Result Text) (identifier code new_password : Text) (most : ℕ)
        (w : World) {v : World}
        → reset_password env hash_password normalize_email country_code identifier code new_password
            most w
          ≡ (ok tt, v)
        → (known : Text) × (u : User) × (normalize_identifier normalize_email identifier
              country_code
            ≡ ok known)
          × (account_of known country_code w.users ≡ some u)
          × IsReset u known code most w v
    unfolding reset_password
    reset_password_resets normalize_email identifier code new_password most w h =
        reset_with-eq-ok _ code new_password most w h
