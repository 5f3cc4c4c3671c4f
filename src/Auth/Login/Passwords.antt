-- ===== src/Auth/Login/Passwords.antt =====
-- change_password.go and reset_password.go, by the sessions that are left.
use go_project_starter.Base.{
  ℕ, true, false, not, ◌&&◌, ◌||◌, Option, none, some, List, [], ◌∷◌, ltb, All, ◌≡◌, refl, sym, ◌∙◌,
  ap, subst, arith, Bool-cases, inl, inr,
}
use go_project_starter.Base.Texts.{Text, same, same_iff, is_empty}
use go_project_starter.Base.Exec.{Result, ok, raise, >>=-eq-ok, Keeps, keeps_rules}
use go_project_starter.Apierr.{invalid}
use go_project_starter.Audit.{Entry}
use go_project_starter.Auth.Domain.User.{User}
use go_project_starter.Auth.Domain.RefreshToken.{RefreshToken, is_revoked, revoke}
use go_project_starter.Auth.World.{Env, World, query, find_user, record_best_effort}
use go_project_starter.Auth.Repository.Users.{find_by_id, user_by_id}
use go_project_starter.Auth.Repository.Tokens.{revoke_by_user_id, revoke_where, of_user}
use go_project_starter.Auth.Command.Passwords.{
  store_password, deny_user, replace_password, change_for, change_password, byte_length,
  reset_password_of,
}
use go_project_starter.Auth.Domain.VerificationCode.{VerificationCode}
use go_project_starter.Auth.World.Keeping.{Keeps-query, Keeps-exec}
use go_project_starter.Auth.Repository.Users.{update}
use go_project_starter.Auth.Repository.Tokens.{jtis_by_user}
use go_project_starter.Auth.Command.Issuer.{clock_now}
use go_project_starter.Auth.Command.Denylist.Effects.{deny-Keeps}
use go_project_starter.Auth.Session.Issued.{query-eq-ok, exec-eq-ok}

-- No token of the user is active.
abbrev pub IsSignedOut : Text → List RefreshToken → Type 0
IsSignedOut user_id ts = All (λ t. (same t.user_id user_id && not (is_revoked t)) ≡ false) ts

revoke_where-IsSignedOut :
    (user_id : Text) (now : ℕ) (ts : List RefreshToken)
    → IsSignedOut user_id (revoke_where (of_user user_id) now ts)
unfolding revoke_where revoke is_revoked
revoke_where-IsSignedOut user_id now [] = tt
revoke_where-IsSignedOut user_id now (t ∷ ts) =
    (ground arith, revoke_where-IsSignedOut user_id now ts)

user_by_id-id :
    (id : Text) (users : List User) {u : User} → user_by_id id users ≡ some u → u.id ≡ id
unfolding user_by_id
user_by_id-id id [] e = cc
user_by_id-id id (x ∷ users) {u} e = elim (Bool-cases (same x.id id)) [
  | inl hit ↦ ground (arith, same_iff x.id id)
  | inr miss ↦ user_by_id-id id users {u = u} (rw miss at e)
]

module _ (env : Env) (hash_password : Text → Result Text) where
  recorded-tokens : (e : Entry) (w : World) → (record_best_effort env e w).1.tokens ≡ w.tokens
  unfolding record_best_effort
  recorded-tokens e w = ground arith

  revoked-IsSignedOut :
      (u : Text) (w : World) {a : Unit {0}}
      → (revoke_by_user_id env u w).0 ≡ ok a
      → IsSignedOut u (revoke_by_user_id env u w).1.tokens
  unfolding revoke_by_user_id
  revoked-IsSignedOut u w done =
      let (_, moved) = exec-eq-ok env _ _ w done in
      rw moved (revoke_where-IsSignedOut u w.now w.tokens)

  replace_password-IsSignedOut :
      (u : User) (new_password : Text) (w : World) {v : World}
      → replace_password env hash_password u new_password w ≡ (ok tt, v)
      → IsSignedOut u.id v.tokens
  unfolding replace_password
  replace_password-IsSignedOut u new_password w h =
      let (_, _, h1) = >>=-eq-ok (store_password env hash_password u new_password) _ w h in
      let (_, _, h2) = >>=-eq-ok (deny_user env hash_password u.id) _ _ h1 in
      let (_, done, h3) = >>=-eq-ok (revoke_by_user_id env u.id) _ _ h2 in
      subst (IsSignedOut u.id) (sym (recorded-tokens _ _) ∙ ap (λ p. p.1.tokens) h3)
        (revoked-IsSignedOut u.id _ done)

  pub reset_password_of-IsSignedOut :
      (u : User) (new_password : Text) (w : World) {v : World}
      → reset_password_of env hash_password u new_password w ≡ (ok tt, v)
      → IsSignedOut u.id v.tokens
  unfolding reset_password_of
  reset_password_of-IsSignedOut u new_password w {v = v} h =
      let (_, _, h1) = >>=-eq-ok (store_password env hash_password u new_password) _ w h in
      let (_, _, h2) = >>=-eq-ok (record_best_effort env _) _ _ h1 in
      let (_, _, h3) = >>=-eq-ok (deny_user env hash_password u.id) _ _ h2 in
      subst (IsSignedOut u.id) (ap (λ p. p.1.tokens) h3)
        (revoked-IsSignedOut u.id _ (ap (λ p. p.0) h3))

  module _ (cs : List VerificationCode) where
    -- The verification codes are as they were.
    abbrev KeptCodes : World → Type 0
    KeptCodes w = w.codes ≡ cs

    update-KeptCodes : (u : User) → Keeps KeptCodes (update env u)
    unfolding update
    update-KeptCodes u = record { at = λ w h. ground arith }

    store_password-KeptCodes :
        (u : User) (p : Text) → Keeps KeptCodes (store_password env hash_password u p)
    unfolding store_password clock_now
    store_password-KeptCodes u p = search (keeps_rules, update-KeptCodes)

    record-KeptCodes : (e : Entry) → Keeps KeptCodes (record_best_effort env e)
    unfolding record_best_effort
    record-KeptCodes e = record { at = λ w h. ground arith }

    jtis_by_user-KeptCodes : (u : Text) → Keeps KeptCodes (jtis_by_user env u)
    unfolding jtis_by_user
    jtis_by_user-KeptCodes u = Keeps-query env _ _

    deny_user-KeptCodes : (u : Text) → Keeps KeptCodes (deny_user env hash_password u)
    unfolding deny_user
    deny_user-KeptCodes u =
        search (keeps_rules, jtis_by_user-KeptCodes, deny-Keeps env {P = KeptCodes} (λ w c h. h))

    revoke_by_user_id-KeptCodes : (u : Text) → Keeps KeptCodes (revoke_by_user_id env u)
    unfolding revoke_by_user_id
    revoke_by_user_id-KeptCodes u = Keeps-exec env _ _ (λ w h. h)

    pub reset_password_of-KeptCodes :
        (u : User) (p : Text) → Keeps KeptCodes (reset_password_of env hash_password u p)
    unfolding reset_password_of
    reset_password_of-KeptCodes u p = search (
      keeps_rules, store_password-KeptCodes, record-KeptCodes, deny_user-KeptCodes,
      revoke_by_user_id-KeptCodes,
    )

  change_for-eq-ok :
      (o : Option User) (old_password new_password : Text) (w : World) {v : World}
      → change_for env hash_password o old_password new_password w ≡ (ok tt, v)
      → (u : User) × (o ≡ some u)
        × (env.compare_password old_password u.password_hash ≡ true)
        × (replace_password env hash_password u new_password w ≡ (ok tt, v))
  unfolding change_for raise
  change_for-eq-ok none old_password new_password w h = cc
  change_for-eq-ok (some u) old_password new_password w h = (u, refl, ground arith, ground arith)

  -- A password that is changed is that of a user who gave the old one, and afterwards no refresh
  -- token of the user is active.
  pub change_password_signs_out :
      (user_id old_password new_password : Text) (w : World) {v : World}
      → change_password env hash_password user_id old_password new_password w ≡ (ok tt, v)
      → (u : User) × (user_by_id user_id w.users ≡ some u)
        × (env.compare_password old_password u.password_hash ≡ true)
        × IsSignedOut user_id v.tokens
  unfolding change_password
  change_password_signs_out user_id old_password new_password w {v = v} h =
      elim (Bool-cases (is_empty old_password || ltb (byte_length new_password) 8)) [
        | inl weak ↦ absurd (refused (rw weak at h))
        | inr strong ↦
            let (o, read, h1) = >>=-eq-ok (find_by_id env user_id) _ w {v = v} (rw strong at h) in
            let (u, e, right, h2) = change_for-eq-ok o old_password new_password _ {v = v} h1 in
            let found =
              query-eq-ok env find_user (λ x. user_by_id user_id x.users) w (reading read) ∙ e in
            (
              u,
              found,
              right,
              subst (λ i. IsSignedOut i v.tokens) (user_by_id-id user_id w.users found)
                  (replace_password-IsSignedOut u new_password _ h2),
            )
      ]
    where
      refused : raise {A = Unit {0}} invalid w ≡ (ok tt, v) → ⊥
      refused k = unfold raise in cc

      reading :
          {o : Option User}
          → (find_by_id env user_id w).0 ≡ ok o
          → (query env find_user (λ x. user_by_id user_id x.users) w).0 ≡ ok o
      reading k = unfold find_by_id in k
