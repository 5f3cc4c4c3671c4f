-- ===== src/Queue/Backoff.antt =====
-- The delays between the attempts of a job.
use go_project_starter.Base.{
  ℕ, zero, suc, ◌*◌, ◌^◌, ◌≤◌, ◌≡◌, sym, ap, ◌∙◌, leb, if◌then◌else◌, arith, Bool-cases, inl, inr,
  leb→le,
}
use go_project_starter.Queue.{backoff, doubled, backoff_base, backoff_max}

abbrev pub capped : ℕ → ℕ
capped n = if leb backoff_max n then backoff_max else n

one_le_pow : (n : ℕ) → 1 ≤ 2 ^ n
one_le_pow zero = omega arith
one_le_pow (suc n) = omega (arith, one_le_pow n)

le_mul : (d e : ℕ) → 1 ≤ e → d ≤ d * e
le_mul zero e h = omega arith
le_mul (suc d) e h = omega (arith, le_mul d e h)

double_pow : (delay n : ℕ) → delay * 2 * 2 ^ n ≡ delay * 2 ^ suc n
double_pow delay n = grind arith

large : (delay n : ℕ) → 150 ≤ delay → capped (delay * 2 ^ suc n) ≡ backoff_max
large delay n h =
    let grows = le_mul (delay * 2) (2 ^ n) (one_le_pow n) in
    let e = double_pow delay n in ground arith

doubled-capped : (n delay : ℕ) → delay ≤ backoff_max → doubled n delay ≡ capped (delay * 2 ^ n)
unfolding doubled
doubled-capped zero delay small = ground arith
doubled-capped (suc n) delay small = elim (Bool-cases (leb 150 delay)) [
  | inl h ↦ rw h (sym (large delay n (leb→le 150 delay h)))
  | inr h ↦ rw h (doubled-capped n (delay * 2) (ground arith) ∙ ap capped (double_pow delay n))
]

-- After `n + 1` failures the delay is 5 seconds doubled `n` times, and never more than 5 minutes.
pub backoff_lem : (n : ℕ) → backoff (suc n) ≡ capped (backoff_base * 2 ^ n)
unfolding backoff
backoff_lem n = doubled-capped n backoff_base (omega arith)

-- A delay is between 5 seconds and 5 minutes, and does not shrink with another failure.
pub backoff-bounds :
    (n : ℕ) → (backoff_base ≤ backoff n) × (backoff n ≤ backoff_max) × (backoff n ≤ backoff (suc n))
backoff-bounds zero = unfold backoff in ground (arith, backoff_lem 0)
backoff-bounds (suc n) =
    let grows = le_mul backoff_base (2 ^ n) (one_le_pow n) in
    ground (arith, backoff_lem n, backoff_lem (suc n))
