-- ===== src/Auth/Login/Disable.antt =====
-- disable_totp.go: who turns the second factor off, and what is left of it.
use go_project_starter.Base.{
  Bool, true, false, Option, none, some, List, [], ◌∷◌, any, ◌≡◌, refl, sym, ◌∙◌, ap, subst, arith,
  Bool-cases, inl, inr,
}
use go_project_starter.Base.Texts.{Text, same}
use go_project_starter.Base.Exec.{ok, raise, require, >>=-eq-ok}
use go_project_starter.Apierr.{unauthorized}
use go_project_starter.Auth.Domain.User
use go_project_starter.Auth.Domain.User.{User, is_totp_enabled}
use go_project_starter.Auth.World.{Env, World, RecoveryCode, query, find_user, record_best_effort}
use go_project_starter.Auth.Repository.Users.{find_by_id, user_by_id, update}
use go_project_starter.Auth.Repository.Recovery.{delete_all, without_codes}
use go_project_starter.Auth.Command.Issuer.{clock_now}
use go_project_starter.Auth.Command.Challenge.{validate_mfa_code}
use go_project_starter.Auth.Command.Totp.{turn_off, disable_for, disable_totp_for}
use go_project_starter.Auth.Login.Factor.{HasSecondFactor, validate_mfa_code-eq-ok}
use go_project_starter.Auth.Session.Issued.{query-eq-ok, exec-eq-ok}

-- The user has no recovery code.
abbrev pub HasNoCodes : Text → List RecoveryCode → Type 0
HasNoCodes user_id rs = any (λ (r : RecoveryCode). same r.user_id user_id) rs ≡ false

without_codes-HasNoCodes :
    (user_id : Text) (rs : List RecoveryCode) → HasNoCodes user_id (without_codes user_id rs)
unfolding without_codes
without_codes-HasNoCodes user_id [] = refl
without_codes-HasNoCodes user_id (r ∷ rs) = ground (arith, without_codes-HasNoCodes user_id rs)

module _ (env : Env) where
  recorded-recovery : (w : World) (e : _) → (record_best_effort env e w).1.recovery ≡ w.recovery
  unfolding record_best_effort
  recorded-recovery w e = ground arith

  deleted-HasNoCodes :
      (user_id : Text) (w : World) {a : Unit {0}}
      → (delete_all env user_id w).0 ≡ ok a
      → HasNoCodes user_id (delete_all env user_id w).1.recovery
  unfolding delete_all
  deleted-HasNoCodes user_id w done =
      let (_, moved) = exec-eq-ok env _ _ w done in
      rw moved (without_codes-HasNoCodes user_id w.recovery)

  turn_off-HasNoCodes :
      (u : User) (w : World) {v : World}
      → turn_off env u w ≡ (ok tt, v)
      → HasNoCodes u.id v.recovery
  unfolding turn_off
  turn_off-HasNoCodes u w h =
      let (now, _, h1) = >>=-eq-ok clock_now _ w h in
      let (_, _, h2) = >>=-eq-ok (update env (User.disable_totp now u)) _ _ h1 in
      let (_, done, h3) = >>=-eq-ok (delete_all env u.id) _ _ h2 in
      subst (HasNoCodes u.id) (sym (recorded-recovery _ _) ∙ ap (λ p. p.1.recovery) h3)
        (deleted-HasNoCodes u.id _ done)

  by_valid :
      (valid : Bool) (u : User) (code : Text) (w w' : World) {v : World}
      → validate_mfa_code env u code w ≡ (ok valid, w')
      → require valid unauthorized (turn_off env u) w' ≡ (ok tt, v)
      → HasSecondFactor env u code w × HasNoCodes u.id v.recovery
  unfolding require raise
  by_valid true u code w w' read h =
      (validate_mfa_code-eq-ok env u code w read, turn_off-HasNoCodes u w' h)
  by_valid false u code w w' read h = cc

  disable_for-eq-ok :
      (o : Option User) (code : Text) (w : World) {v : World}
      → disable_for env code o w ≡ (ok tt, v)
      → (u : User) × (o ≡ some u)
        × (is_totp_enabled u ≡ true)
        × HasSecondFactor env u code w
        × HasNoCodes u.id v.recovery
  unfolding disable_for raise
  disable_for-eq-ok none code w h = cc
  disable_for-eq-ok (some u) code w {v = v} h = elim (Bool-cases (is_totp_enabled u)) [
    | inr plain ↦ absurd (ground arith)
    | inl enabled ↦
        let (valid, read, h1) =
          >>=-eq-ok (validate_mfa_code env u code)
            (λ ok_code. require ok_code unauthorized (turn_off env u)) w {v = v}
            (rw enabled at h) in
        let (factor, left) =
          by_valid valid u code w (validate_mfa_code env u code w).1
            (ap (λ r. (r, (validate_mfa_code env u code w).1)) read) h1 in
        (u, refl, enabled, factor, left)
  ]

  -- Where the second factor is turned off, it was on, and the code was one of now, or a recovery
  -- code that was not used; afterwards the user has no recovery codes.
  pub disable_totp_proved :
      (user_id code : Text) (w : World) {v : World}
      → disable_totp_for env user_id code w ≡ (ok tt, v)
      → (u : User) × (user_by_id user_id w.users ≡ some u)
        × (is_totp_enabled u ≡ true)
        × HasSecondFactor env u code w
        × HasNoCodes u.id v.recovery
  unfolding disable_totp_for find_by_id query
  disable_totp_proved user_id code w {v = v} h =
      let (o, read, h1) = >>=-eq-ok (find_by_id env user_id) (disable_for env code) w {v = v} h in
      let (u, e, enabled, factor, left) = disable_for-eq-ok o code _ {v = v} h1 in
      let found = query-eq-ok env find_user (λ x. user_by_id user_id x.users) w read ∙ e in
      (u, found, enabled, factor, left)
