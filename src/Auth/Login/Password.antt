-- ===== src/Auth/Login/Password.antt =====
-- `Login` of login.go, by what the account asks for.
use go_project_starter.Base.{
  Bool, true, false, ◌&&◌, ◌||◌, Option, none, some, if◌then◌else◌, is_some, any, ◌≡◌, refl, ◌∙◌,
  ap, subst, sym, ◌⊎◌, inl, inr, arith, Bool-cases,
}
use go_project_starter.Base.Texts.{Text, is_empty, trim_space, lower_text}
use go_project_starter.Base.Exec.{ok, raise, ◌>>=◌, >>=-eq-ok}
use go_project_starter.Auth.Domain.User.{User, active, is_suspended, is_totp_enabled}
use go_project_starter.Auth.World.{Env, World}
use go_project_starter.Apierr.{unauthorized, invalid}
use go_project_starter.Auth.Repository.Codes.{redeemable}
use go_project_starter.Auth.Command.RateLimit.{check_limit}
use go_project_starter.Auth.Command.Challenge.{validate_mfa_code}
use go_project_starter.Auth.Command.Login.{
  LoginResult, LoginConfig, LoginCommand, find_by_identifier, sign_in, second_factor, is_unverified,
  login_as, login,
}
use go_project_starter.Auth.Login.Challenged.{
  IsChallenged, Granted, challenged-IsChallenged, sign_in-Granted,
}
use go_project_starter.Auth.Login.Factor.{
  SameAccounts, account_of, HasSecondFactor, check_limit-SameAccounts, validate_mfa_code-eq-ok,
  find_by_identifier-eq-ok,
}

module _ (env : Env) where
  module _ (config : LoginConfig) where
    -- What signing in as `u` takes.
    pub record IsEarned (cmd : LoginCommand) (w v : World) (res : LoginResult) : Type 0 where
      pub account :
          account_of (lower_text (trim_space cmd.identifier)) config.country_code w.users
          ≡ some res.user
      pub password : env.compare_password cmd.password res.user.password_hash ≡ true
      pub allowed : res.user.status ≡ active
      pub verified : is_unverified env config res.user ≡ false
      pub factor :
          ((is_totp_enabled res.user && is_some res.tokens) ≡ false)
          ⊎ HasSecondFactor env res.user cmd.code w
      pub outcome :
          Granted res
          ⊎ ((is_totp_enabled res.user ≡ true)
              × IsChallenged env config.challenge_ttl
                  (lower_text (trim_space cmd.identifier))
                  res
                  v)

    second_factor-eq-ok :
        (u : User) (identifier code ip : Text) (w : World) {res : LoginResult} {v : World}
        → second_factor env config u identifier code ip w ≡ (ok res, v)
        → (res.user ≡ u)
          × (IsChallenged env config.challenge_ttl identifier res v
              ⊎ (Granted res × HasSecondFactor env u code w))
    unfolding second_factor
    second_factor-eq-ok u identifier code ip w {res} {v} h =
        elim (Bool-cases (is_empty (trim_space code))) [
          | inl blank ↦
              let (same, bare) =
                challenged-IsChallenged env config.challenge_ttl u identifier w {res = res} {v = v}
                  (rw blank at h) in
              (same, inl bare)
          | inr given ↦
              let (valid, checked, h1) =
                >>=-eq-ok (validate_mfa_code env u code)
                  (λ valid.
                    if valid then sign_in env config u identifier ip else raise unauthorized)
                  w {v = v} (rw given at h) in
              by_code valid checked h1
        ]
      where
        by_code :
            (valid : Bool)
            → (validate_mfa_code env u code w).0 ≡ ok valid
            → (if valid then sign_in env config u identifier ip else raise unauthorized)
                (validate_mfa_code env u code w).1
              ≡ (ok res, v)
            → (res.user ≡ u)
              × (IsChallenged env config.challenge_ttl identifier res v
                  ⊎ (Granted res × HasSecondFactor env u code w))
        by_code true checked k =
            let (same, granted) = sign_in-Granted env config u identifier ip _ k in
            (
              same,
              inr (
                granted,
                validate_mfa_code-eq-ok env u code w {v = (validate_mfa_code env u code w).1}
                    (ap (λ r. (r, (validate_mfa_code env u code w).1)) checked),
              ),
            )
        by_code false checked k = unfold raise in cc

    -- What `login_as` has checked of the account, and how it goes on.
    login_as-eq-ok :
        (o : Option User) (cmd : LoginCommand) (identifier : Text) (w : World) {res : LoginResult}
        {v : World}
        → login_as env config o cmd identifier w ≡ (ok res, v)
        → (u : User) × (o ≡ some u)
          × (env.compare_password cmd.password u.password_hash ≡ true)
          × (u.status ≡ active)
          × (is_unverified env config u ≡ false)
          × (((if is_totp_enabled u
                  then second_factor env config u identifier cmd.code cmd.ip
                  else sign_in env config u identifier cmd.ip)
                w)
              ≡ (ok res, v))
    unfolding login_as raise is_suspended
    login_as-eq-ok none cmd identifier w h = cc
    login_as-eq-ok (some u) cmd identifier w h =
        (u, refl, ground arith, ground arith, ground arith, ground arith)

    same_factor :
        (u : User) (code : Text) (w v : World)
        → SameAccounts w v
        → HasSecondFactor env u code v
        → HasSecondFactor env u code w
    same_factor u code w v (_, codes, time) (inl totp) =
        inl (subst (λ t. env.totp_valid u.totp_secret (trim_space code) t ≡ ok true) time totp)
    same_factor u code w v (_, codes, time) (inr recovered) = inr (
        subst (λ rs. any (redeemable u.id (env.hashes.hash_secret (trim_space code))) rs ≡ true)
          codes recovered)

    factor_of :
        (u : User) (identifier : Text) (cmd : LoginCommand) (w : World) {res : LoginResult}
        {v : World}
        → (if is_totp_enabled u
              then second_factor env config u identifier cmd.code cmd.ip
              else sign_in env config u identifier cmd.ip)
            w
          ≡ (ok res, v)
        → (res.user ≡ u)
          × (((is_totp_enabled u && is_some res.tokens) ≡ false) ⊎ HasSecondFactor env u cmd.code w)
          × (Granted res
              ⊎ ((is_totp_enabled u ≡ true)
                  × IsChallenged env config.challenge_ttl identifier res v))
    factor_of u identifier cmd w {res = res} {v = v} h = elim (Bool-cases (is_totp_enabled u)) [
      | inr plain ↦
          let (same, granted) =
            sign_in-Granted env config u identifier cmd.ip w {v = v} (rw plain at h) in
          (same, inl (ground arith), inl granted)
      | inl guarded ↦
          let (same, proof) =
            second_factor-eq-ok u identifier cmd.code cmd.ip w {v = v} (rw guarded at h) in
          (
            same,
            elim proof [ inl asked ↦ inl (unasked asked.bare) | inr given ↦ inr given.1 ],
            elim proof [ inl asked ↦ inr (guarded, asked) | inr given ↦ inl given.0 ],
          )
    ]
      where
        unasked : res.tokens ≡ none → (is_totp_enabled u && is_some res.tokens) ≡ false
        unasked bare = ground arith

    refused :
        (w : World) {res : LoginResult} {v : World} → raise {S = World} invalid w ≡ (ok res, v) → ⊥
    refused w h = unfold raise in cc

    logged-eq-ok :
        (cmd : LoginCommand) (w : World) {res : LoginResult} {v : World}
        → login env config cmd w ≡ (ok res, v)
        → let identifier = lower_text (trim_space cmd.identifier) in
          (check_limit env config.limiter identifier cmd.ip >>= λ _.
          find_by_identifier env identifier config.country_code >>= λ o.
          login_as env config o cmd identifier)
            w
          ≡ (ok res, v)
    unfolding login raise
    logged-eq-ok cmd w h =
        let identifier = lower_text (trim_space cmd.identifier) in
        elim (Bool-cases (is_empty identifier || is_empty cmd.password)) [
          | inl blank ↦ absurd (refused w (rw blank at h))
          | inr given ↦ rw given at h
        ]

    admitted :
        (cmd : LoginCommand) (w v : World) (o : Option User) {res : LoginResult} {x : World}
        → let identifier = lower_text (trim_space cmd.identifier) in
          SameAccounts w v
          → account_of identifier config.country_code v.users ≡ o
          → login_as env config o cmd identifier v ≡ (ok res, x)
          → IsEarned cmd w x res
    admitted cmd w v o {res = res} {x = x} same account h =
        let identifier = lower_text (trim_space cmd.identifier) in
        let (u, e, password, allowed, verified, h1) = login_as-eq-ok o cmd identifier v h in
        let (user, factor, outcome) = factor_of u identifier cmd v h1 in
        record {
          account = rw user (
              subst (λ us. account_of identifier config.country_code us ≡ some u) same.0
                (account ∙ e));
          password = rw user password;
          allowed = rw user allowed;
          verified = rw user verified;
          factor = rw user (elim factor [
            | inl bare ↦ inl bare
            | inr given ↦ inr (same_factor u cmd.code w v same given)
          ]);
          outcome =
              subst
                (λ a.
                  Granted res
                  ⊎ ((is_totp_enabled a ≡ true)
                      × IsChallenged env config.challenge_ttl identifier res x))
                (sym user) outcome;
        }

    -- Whoever logs in named an active account, with its email verified where that is required, and
    -- gave its password. Where the account has a second factor, tokens are only given for a valid
    -- TOTP code or an unused recovery code. What was given is tokens and no challenge; or, only to an
    -- account with a second factor, no tokens and a challenge: a token that was drawn, under which
    -- the cache was given the user and the identifier.
    pub login-IsEarned :
        (cmd : LoginCommand) (w : World) {res : LoginResult} {v : World}
        → login env config cmd w ≡ (ok res, v)
        → IsEarned cmd w v res
    login-IsEarned cmd w {res = res} {v = v} h =
        let identifier = lower_text (trim_space cmd.identifier) in
        let limit = check_limit env config.limiter identifier cmd.ip in
        let (_, passed, h1) = >>=-eq-ok limit _ w {v = v} (logged-eq-ok cmd w h) in
        let same : SameAccounts w (limit w).1 =
          (check_limit-SameAccounts env w config.limiter identifier cmd.ip).at w
            (refl, refl, refl) in
        let (o, found, h2) =
          >>=-eq-ok (find_by_identifier env identifier config.country_code) _ (limit w).1 {v = v}
            h1 in
        let (account, still) =
          find_by_identifier-eq-ok env identifier config.country_code (limit w).1 found in
        admitted cmd w (limit w).1 o same account (rw still at h2)
