-- ===== src/Auth/Login/Guesses.antt =====
-- `validateCode` of verify.go: the spending of a code, and the budget of its guesses.
use go_project_starter.Base.{
  ℕ, ◌≤◌, Bool, true, false, Option, none, some, List, [], ◌∷◌, leb, if◌then◌else◌, any, All, ◌≡◌,
  ◌≢◌, refl, ap, ◌∙◌, sym, arith, Bool-cases, inl, inr,
}
use go_project_starter.Base.Texts.{Text}
use go_project_starter.Base.Exec.{ok, raise, pure, ask, >>=-eq-ok, bind_known, Keeps, keeps_rules}
use go_project_starter.Auth.Domain.VerificationCode.{
  VerificationCode, consume, is_consumed, is_expired, matches,
}
use go_project_starter.Auth.World.{Env, World, exec}
use go_project_starter.Auth.World
use go_project_starter.Apierr.{invalid}
use go_project_starter.Auth.Session.Issued.{exec-eq-ok}
use go_project_starter.Auth.World.Keeping.{Keeps-exec}
use go_project_starter.Auth.Repository.Codes.{
  update_codes, consumable, below_budget, tried, consume_code, increment_attempts,
}
use go_project_starter.Auth.Command.Issuer.{clock_now}
use go_project_starter.Auth.Command.Verify.{spend, wrong_guess, judge, validate_code}

-- No row of the code is left to consume.
pub consumed_away :
    (id : Text) (now : ℕ) (cs : List VerificationCode)
    → any (consumable id) (update_codes (consumable id) (consume now) cs) ≡ false
unfolding update_codes is_consumed consume
consumed_away id now [] = refl
consumed_away id now (c ∷ cs) = ground (arith, consumed_away id now cs)

abbrev pub InBudget : ℕ → VerificationCode → Type 0
InBudget most c = c.attempts ≤ most

update_codes-InBudget :
    (most now : ℕ) (id : Text) (cs : List VerificationCode)
    → All (InBudget most) cs
    → All (InBudget most) (update_codes (below_budget most id) (tried now) cs)
unfolding update_codes
update_codes-InBudget most now id [] h = tt
update_codes-InBudget most now id (c ∷ cs) h =
    (ground arith, update_codes-InBudget most now id cs h.1)

consume-InBudget :
    (most now : ℕ) (id : Text) (cs : List VerificationCode)
    → All (InBudget most) cs
    → All (InBudget most) (update_codes (consumable id) (consume now) cs)
unfolding update_codes consume
consume-InBudget most now id [] h = tt
consume-InBudget most now id (c ∷ cs) h = (ground arith, consume-InBudget most now id cs h.1)

module _ (env : Env) where
  abbrev pub CodesInBudget : ℕ → World → Type 0
  CodesInBudget most w = All (InBudget most) w.codes

  consume_code-InBudget : (most : ℕ) (id : Text) → Keeps (CodesInBudget most) (consume_code env id)
  unfolding consume_code
  consume_code-InBudget most id =
      Keeps-exec env _ _ (λ w h. consume-InBudget most w.now id w.codes h)

  increment_attempts-InBudget :
      (most : ℕ) (id : Text) → Keeps (CodesInBudget most) (increment_attempts env id most)
  unfolding increment_attempts
  increment_attempts-InBudget most id = record { at = λ w h. counted w h }
    where
      counted :
          (w : World)
          → CodesInBudget most w
          → CodesInBudget most (increment_attempts env id most w).1
      counted w h = elim (Bool-cases (env.fails World.increment_attempts)) [
        | inl broken ↦ rw broken h
        | inr works ↦ elim (Bool-cases (any (below_budget most id) w.codes)) [
          | inl left ↦ rw works (rw left (update_codes-InBudget most w.now id w.codes h))
          | inr spent ↦ rw works (rw spent h)
        ]
      ]

  clock_now-InBudget : (most : ℕ) → Keeps (CodesInBudget most) clock_now
  unfolding clock_now
  clock_now-InBudget most = search keeps_rules

  spend-InBudget : (most : ℕ) (id : Text) → Keeps (CodesInBudget most) (spend env id)
  unfolding spend
  spend-InBudget most id = search (keeps_rules, consume_code-InBudget)

  wrong_guess-InBudget :
      (most : ℕ) (id : Text) → Keeps (CodesInBudget most) (wrong_guess env id most)
  unfolding wrong_guess
  wrong_guess-InBudget most id = search (keeps_rules, increment_attempts-InBudget)

  judge-InBudget :
      (most now : ℕ) (c : VerificationCode) (raw : Text)
      → Keeps (CodesInBudget most) (judge env c raw most now)
  unfolding judge
  judge-InBudget most now c raw = search (keeps_rules, spend-InBudget, wrong_guess-InBudget)

  checked-InBudget :
      (most : ℕ) (o : Option VerificationCode) (raw : Text)
      → Keeps (CodesInBudget most) (validate_code env o raw most)
  unfolding validate_code
  checked-InBudget most none raw = search keeps_rules
  checked-InBudget most (some c) raw = search (keeps_rules, clock_now-InBudget, judge-InBudget)

  -- Where no stored code has more attempts than the budget, that is so after a check of a code,
  -- read at any time before, of any guess, and with any calls failing.
  pub validate_code-InBudget :
      (most : ℕ) (o : Option VerificationCode) (raw : Text) (w : World)
      → CodesInBudget most w
      → CodesInBudget most (validate_code env o raw most w).1
  validate_code-InBudget most o raw w h = (checked-InBudget most o raw).at w h

  -- What a check that passes has found, and what it has done.
  pub record IsSpent (o : Option VerificationCode) (raw : Text) (most : ℕ) (w v : World)
      : Type 0 where
    code : VerificationCode
    given : o ≡ some code
    unconsumed : is_consumed code ≡ false
    unexpired : is_expired w.now code ≡ false
    budget : leb most code.attempts ≡ false
    right : matches env.hashes raw code ≡ true
    active : any (consumable code.id) w.codes ≡ true
    stored : v ≡ record w { codes = update_codes (consumable code.id) (consume w.now) w.codes }

  spend-eq-ok :
      (id : Text) (w v : World)
      → spend env id w ≡ (ok tt, v)
      → (any (consumable id) w.codes ≡ true)
        × (v ≡ record w { codes = update_codes (consumable id) (consume w.now) w.codes })
  unfolding spend consume_code
  spend-eq-ok id w v h =
      let (won, done, h1) = >>=-eq-ok (consume_code env id) _ w h in
      let (found, moved) = exec-eq-ok env _ _ w done in going won found (rw moved at h1)
    where
      going :
          (won : Bool)
          → any (consumable id) w.codes ≡ won
          → (if won then pure tt else raise invalid)
              (record w { codes = update_codes (consumable id) (consume w.now) w.codes })
            ≡ (ok tt, v)
          → (any (consumable id) w.codes ≡ true)
            × (v ≡ record w { codes = update_codes (consumable id) (consume w.now) w.codes })
      going true found k = (found, unfold pure in cc)
      going false found k = absurd (unfold raise in cc)

  wrong_guess_fails :
      (id : Text) (most : ℕ) (w v : World) → wrong_guess env id most w ≡ (ok tt, v) → ⊥
  unfolding wrong_guess
  wrong_guess_fails id most w v h =
      let (_, _, h1) = >>=-eq-ok (increment_attempts env id most) _ w h in unfold raise in cc

  judge-eq-ok :
      (c : VerificationCode) (raw : Text) (most now : ℕ) (w v : World)
      → judge env c raw most now w ≡ (ok tt, v)
      → (is_expired now c ≡ false)
        × (leb most c.attempts ≡ false)
        × (matches env.hashes raw c ≡ true)
        × (spend env c.id w ≡ (ok tt, v))
  unfolding judge raise
  judge-eq-ok c raw most now w v h =
      let wrong = wrong_guess_fails c.id most w v in
      (ground arith, ground arith, ground arith, ground arith)

  checked-eq-ok :
      (o : Option VerificationCode) (raw : Text) (most : ℕ) (w v : World)
      → validate_code env o raw most w ≡ (ok tt, v)
      → (c : VerificationCode) × (o ≡ some c)
        × (is_consumed c ≡ false)
        × (judge env c raw most w.now w ≡ (ok tt, v))
  unfolding validate_code
  checked-eq-ok none raw most w v h = absurd (unfold raise in cc)
  checked-eq-ok (some c) raw most w v h = elim (Bool-cases (is_consumed c)) [
    | inl gone ↦ absurd (refused (rw gone at h))
    | inr unconsumed ↦
        (c, refl, unconsumed, sym (bind_known clock_now _ w w.now w clock) ∙ (rw unconsumed at h))
  ]
    where
      refused : raise {A = Unit {0}} invalid w ≡ (ok tt, v) → ⊥
      refused h = unfold raise in cc

      clock : clock_now w ≡ (ok w.now, w)
      clock = unfold clock_now ask in refl

  -- A check that passes was of a code that was read unconsumed, unexpired and within its budget,
  -- of a guess that matches, and of a row that was still unconsumed, which it consumes and no more.
  pub validate_code-IsSpent :
      (o : Option VerificationCode) (raw : Text) (most : ℕ) (w v : World)
      → validate_code env o raw most w ≡ (ok tt, v)
      → IsSpent o raw most w v
  validate_code-IsSpent o raw most w v h =
      let (c, given, unconsumed, h1) = checked-eq-ok o raw most w v h in
      let (unexpired, budget, right, h2) = judge-eq-ok c raw most w.now w v h1 in
      let (active, stored) = spend-eq-ok c.id w v h2 in
      record {
        code = c;
        given = given;
        unconsumed = unconsumed;
        unexpired = unexpired;
        budget = budget;
        right = right;
        active = active;
        stored = stored;
      }

  -- Two requests that read the same code cannot both pass: once one has passed, a later check of
  -- the code as it was read before fails, while the codes are those that the first one left.
  pub no_double_spend :
      (c : VerificationCode) (first second : Text) (most : ℕ) (w v x : World)
      → validate_code env (some c) first most w ≡ (ok tt, v)
      → x.codes ≡ v.codes
      → (y : World) → validate_code env (some c) second most x ≢ (ok tt, y)
  no_double_spend c first second most w v x h kept y again =
      let one = validate_code-IsSpent (some c) first most w v h in
      let two = validate_code-IsSpent (some c) second most x y again in
      let same_one : c ≡ one.code = ground (arith, one.given) in
      let same_two : c ≡ two.code = ground (arith, two.given) in
      let codes : x.codes ≡ update_codes (consumable c.id) (consume w.now) w.codes =
        kept
        ∙ ap (λ (z : World). z.codes) one.stored
        ∙ ap (λ (d : VerificationCode). update_codes (consumable d.id) (consume w.now) w.codes)
            (sym same_one) in
      let left : any (consumable c.id) x.codes ≡ false =
        ap (any (consumable c.id)) codes ∙ consumed_away c.id w.now w.codes in
      let found : any (consumable c.id) x.codes ≡ true =
        ap (λ (d : VerificationCode). any (consumable d.id) x.codes) same_two ∙ two.active in
      cc
