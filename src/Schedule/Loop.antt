-- ===== src/Schedule/Loop.antt =====
-- The loop of a list item: where it ends, and which bits it sets.
use go_project_starter.Base.{
  ℕ, zero, suc, ◌+◌, ◌-◌, ◌%◌, ◌≤◌, ◌<◌, ◌≡◌, refl, ap, ◌∙◌, some, Bool, true, false, ◌&&◌, ◌||◌,
  leb, ◌==◌, if◌then◌else◌, arith, Bool-cases, inl, inr, leb→le,
}
use mathlib.Core.Path.{fun_ext}
use native.Mathlib.Nat.{mod-eq_of_lt, add-mod_right}
use go_project_starter.Base.Decimal.{max_int64}
use go_project_starter.Schedule.{Mask, Outcome, finished, panicked, set, fill, fill_range}

-- The values `lo`, `lo + step`, … up to `hi`.
abbrev pub in_steps : (lo hi step : ℕ) → ℕ → Bool
in_steps lo hi step x = leb lo x && leb x hi && ((x - lo) % step == 0)

-- A turn of the loop takes the first of them.
in_steps-next :
    (lo hi step x : ℕ)
    → 1 ≤ step
    → lo ≤ hi
    → in_steps lo hi step x ≡ (x == lo || in_steps (lo + step) hi step x)
in_steps-next lo hi step x positive within = elim (Bool-cases (leb (lo + step) x)) [
  | inl far ↦
      let shift : (x - lo) % step ≡ (x - (lo + step)) % step =
        rw (← add-mod_right (x - (lo + step)) step) (ap (λ y. y % step) (ground arith)) in
      ground (arith, shift)
  | inr near ↦ ground (arith, λ (h : x - lo < step). mod-eq_of_lt h)
]

-- Beyond the end there are none.
in_steps-none : (lo hi step x : ℕ) → hi < lo → in_steps lo hi step x ≡ false
in_steps-none lo hi step x h = ground arith

-- The bits after the loop.
abbrev pub with_steps : (lo hi step : ℕ) → Mask → Mask
with_steps lo hi step m x = m x || in_steps lo hi step x

set-with_steps :
    (lo hi step : ℕ) (m : Mask)
    → 1 ≤ step
    → lo ≤ hi
    → with_steps (lo + step) hi step (set lo m) ≡ with_steps lo hi step m
unfolding set
set-with_steps lo hi step m positive within =
    fun_ext λ x. ground (arith, in_steps-next lo hi step x positive within)

fill_lem :
    (fuel v hi step : ℕ) (m : Mask)
    → 1 ≤ step
    → hi ≤ 63
    → hi < v + fuel
    → (v ≤ hi → v + step ≤ max_int64)
    → fill (suc fuel) v hi step m ≡ finished (with_steps v hi step m)
unfolding fill
fill_lem zero v hi step m positive small enough fits =
    let beyond : leb v hi ≡ false = ground arith in
    rw beyond (ap finished (fun_ext λ x. ground (arith, in_steps-none v hi step x (omega arith))))
fill_lem (suc fuel) v hi step m positive small enough fits = elim (Bool-cases (leb v hi)) [
  | inl within ↦
      let bound : v + step ≤ max_int64 = fits (leb→le v hi within) in
      let room : leb (v + step) max_int64 ≡ true = ground arith in
      rw (within, room)
        (fill_lem fuel (v + step) hi step (set v m) positive small (omega arith) (λ h. omega arith)
          ∙ ap finished (set-with_steps v hi step m positive (leb→le v hi within)))
  | inr beyond ↦
      rw beyond
        (ap finished (fun_ext λ x. ground (arith, in_steps-none v hi step x (ground arith))))
]

first_of : {x : Outcome} (y : Outcome) (b : Bool) → b ≡ true → x ≡ (if b then x else y)
first_of y b e = rw e refl

-- The loop of a list item with bounds up to 63 ends. It adds the values from the lower bound to the
-- upper one in steps, unless the first addition of the step passes the largest int64: then it
-- panics.
pub fill_range_lem :
    (lo hi step : ℕ) (m : Mask)
    → 1 ≤ step
    → lo ≤ hi
    → hi ≤ 63
    → fill_range step (some (lo, hi)) m
      ≡ (if leb (lo + step) max_int64 then finished (with_steps lo hi step m) else panicked)
unfolding fill_range fill
fill_range_lem lo hi step m positive within small = elim (Bool-cases (leb (lo + step) max_int64)) [
  | inl room ↦
      fill_lem (suc hi) lo hi step m positive small (omega arith) (λ _. leb→le _ _ room)
      ∙ first_of panicked _ room
  | inr wraps ↦ rw wraps (ground arith)
]
