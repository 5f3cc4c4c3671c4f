-- ===== src/Base/Exec.antt =====
-- Methods that change a state and may fail: what was written before an error stays written.
use mathlib.Core.Path.{◌≡◌, refl, ap}
use mathlib.Core.Logic.{◌⊎◌, inl, inr}
use mathlib.Core.Bool.{Bool, true, false}
use go_project_starter.Base.Tests.{if◌then◌else◌}
use go_project_starter.Apierr.{Err}

pub data Result {ℓ} (A : Type ℓ) : Type ℓ where
  ok : A → Result A
  err : Err → Result A

pub Result-cases {ℓ} :
    {A : Type ℓ} (r : Result A) → ((e : Err) × (r ≡ err e)) ⊎ ((a : A) × (r ≡ ok a))
Result-cases (ok a) = inr (a, refl)
Result-cases (err e) = inl (e, refl)

abbrev pub Exec : Type 0 → Type 0 → Type 0
Exec S A = S → Result A × S

module _ {S A : Type 0} where
  unfoldable pub pure : A → Exec S A
  pure a s = (ok a, s)

  unfoldable pub raise : Err → Exec S A
  raise e s = (err e, s)

  -- A read: the result is of the state, which stays.
  unfoldable pub ask : (S → Result A) → Exec S A
  ask f s = (f s, s)

  unfoldable pub require : Bool → Err → Exec S A → Exec S A
  unfolding raise
  require true e m = m
  require false e m = raise e

  -- `if err != nil { log }`: the error is dropped, and what was written stays.
  unfoldable pub best_effort : Exec S A → Exec S (Unit {0})
  best_effort m s = (ok tt, (m s).1)

module _ {S : Type 0} where
  unfoldable pub modify : (S → S) → Exec S (Unit {0})
  modify f s = (ok tt, f s)

module _ {W A B : Type 0} where
  -- What follows a step, on its result and the state it left.
  abbrev pub followed_by : (A → Exec W B) → W → Result A → Result B × W
  followed_by k w (err e) = (err e, w)
  followed_by k w (ok a) = k a w

  infixl 10 ◌>>=◌
  unfoldable pub ◌>>=◌ : Exec W A → (A → Exec W B) → Exec W B
  unfolding modify best_effort require ask pure raise
  ◌>>=◌ m k w = followed_by k (m w).1 (m w).0

  infixl 10 ◌>>◌
  abbrev pub ◌>>◌ : Exec W A → Exec W B → Exec W B
  first >> second = first >>= λ _. second

  followed_by-eq-ok :
      (k : A → Exec W B) (w : W) (r : Result A) {b : B} {v : W}
      → followed_by k w r ≡ (ok b, v)
      → (a : A) × (r ≡ ok a) × (k a w ≡ (ok b, v))
  followed_by-eq-ok k w (ok a) h = (a, refl, h)
  followed_by-eq-ok k w (err e) h = cc

  -- A chain that returns has a first step that returns.
  pub >>=-eq-ok :
      (m : Exec W A) (k : A → Exec W B) (w : W) {b : B} {v : W}
      → (m >>= k) w ≡ (ok b, v)
      → (a : A) × ((m w).0 ≡ ok a) × (k a (m w).1 ≡ (ok b, v))
  unfolding ◌>>=◌
  >>=-eq-ok m k w h = followed_by-eq-ok k (m w).1 (m w).0 h

  -- A first step whose result is known.
  pub bind_known :
      (m : Exec W A) (k : A → Exec W B) (w : W) (a : A) (v : W)
      → m w ≡ (ok a, v)
      → (m >>= k) w ≡ k a v
  unfolding ◌>>=◌
  bind_known m k w a v e = ap (λ (p : Result A × W). followed_by k p.1 p.0) e

-- A step keeps a property of the state, also where it fails.
pub record Keeps {W A : Type 0} (P : W → Type 0) (m : Exec W A) : Type 0 where
  pub at : (w : W) → P w → P (m w).1

module _ {W A B : Type 0} {P : W → Type 0} where
  Keeps-followed_by :
      (k : A → Exec W B)
      → ((a : A) → Keeps P (k a))
      → (w : W) (r : Result A) → P w
      → P (followed_by k w r).1
  Keeps-followed_by k each w (ok a) h = (each a).at w h
  Keeps-followed_by k each w (err e) h = h

  pub Keeps-bind :
      (m : Exec W A) (k : A → Exec W B) → Keeps P m → ((a : A) → Keeps P (k a)) → Keeps P (m >>= k)
  unfolding ◌>>=◌
  Keeps-bind m k first each = record {
    at = λ w h. Keeps-followed_by k each (m w).1 (m w).0 (first.at w h);
  }

module _ {W A : Type 0} {P : W → Type 0} where
  pub Keeps-best_effort : (m : Exec W A) → Keeps P m → Keeps P (best_effort m)
  unfolding best_effort
  Keeps-best_effort m kept = record { at = kept.at }

  pub Keeps-if : (b : Bool) {m n : Exec W A} → Keeps P m → Keeps P n → Keeps P (if b then m else n)
  Keeps-if true first second = first
  Keeps-if false first second = second

  pub Keeps-ask : (f : W → Result A) → Keeps P (ask f)
  unfolding ask
  Keeps-ask f = record { at = λ w p. p }

  pub Keeps-raise : (e : Err) → Keeps {A = A} P (raise e)
  unfolding raise
  Keeps-raise e = record { at = λ w p. p }

  pub Keeps-require : (b : Bool) (e : Err) (m : Exec W A) → Keeps P m → Keeps P (require b e m)
  unfolding require
  Keeps-require true e m kept = kept
  Keeps-require false e m kept = Keeps-raise e

  pub Keeps-pure : (a : A) → Keeps P (pure a)
  unfolding pure
  Keeps-pure a = record { at = λ w p. p }

pub ruleset keeps_rules =
    (Keeps-bind, Keeps-if, Keeps-best_effort, Keeps-require, Keeps-ask, Keeps-raise, Keeps-pure)
