-- ===== src/Base/Decimal.antt =====
-- Decimal numbers: what the program uses of Go's `strconv`, on 64-bit signed integers.
use Prim.Native.Nat.{ℕ, zero, suc, ◌+◌, ◌-◌, ◌*◌, ◌/◌, ◌%◌, ◌^◌, ◌≤◌, ◌<◌}
use mathlib.Core.Path.{◌≡◌}
use mathlib.Core.Bool.{Bool, true, false, ◌&&◌}
use mathlib.Core.Option.{Option, none, some}
use mathlib.Core.List.{[], ◌∷◌}
use native.Mathlib.Omega.{arith}
use mathlib.Core.Logic.{◌↔◌, inl, inr}
use go_project_starter.Base.Tests.{
  ℤ, pos, negsuc, sub_ℕ, ◌+ℤ◌, ltb, leb, ◌==◌, if◌then◌else◌, Bool-cases,
}
use go_project_starter.Base.Texts.{Text}

-- The digits of a number before a text.
unfoldable pub to_digits : ℕ → ℕ → Text → Text
to_digits zero n acc = acc
to_digits (suc fuel) n acc =
    let rest = to_digits fuel (n / 10) ((48 + n % 10) ∷ acc) in
    if ltb n 10 then (48 + n) ∷ acc else rest

unfoldable pub from_digits : ℕ → Text → Option ℕ
from_digits acc [] = some acc
from_digits acc (c ∷ s) =
    let rest = from_digits (acc * 10 + (c - 48)) s in if leb 48 c && leb c 57 then rest else none

abbrev pub max_int64 : ℕ
max_int64 = 2 ^ 63 - 1

-- a == b on int64.
unfoldable pub eq_int : ℤ → ℤ → Bool
eq_int (pos m) (pos n) = m == n
eq_int (pos m) (negsuc n) = false
eq_int (negsuc m) (pos n) = false
eq_int (negsuc m) (negsuc n) = m == n

pub eq_int_iff : (a b : ℤ) → (eq_int a b ≡ true) ↔ (a ≡ b)
unfolding eq_int
eq_int_iff (pos m) (pos n) = ground arith
eq_int_iff (pos m) (negsuc n) = ground arith
eq_int_iff (negsuc m) (pos n) = ground arith
eq_int_iff (negsuc m) (negsuc n) = ground arith

-- strconv.FormatInt(n, 10).
unfoldable pub format_int : ℤ → Text
format_int (pos n) = to_digits (suc n) n []
format_int (negsuc n) = b'-' ∷ to_digits (suc (suc n)) (suc n) []

unfoldable pub parse_magnitude : ℕ → Text → Option ℕ
parse_magnitude most [] = none
parse_magnitude most (c ∷ s) = elim (from_digits 0 (c ∷ s)) [
  | none ↦ none
  | some n ↦ if leb n most then some n else none
]

abbrev pub negated : ℕ → ℤ
negated zero = pos zero
negated (suc n) = negsuc n

-- strconv.ParseInt(s, 10, 64) and strconv.Atoi: a sign, digits, and the range of an int64.
unfoldable pub parse_int : Text → Option ℤ
parse_int [] = none
parse_int (c ∷ s) =
    if c == b'-'
    then elim (parse_magnitude (suc max_int64) s) [ none ↦ none | some n ↦ some (negated n) ]
    else if c == b'+'
    then elim (parse_magnitude max_int64 s) [ none ↦ none | some n ↦ some (pos n) ]
    else elim (parse_magnitude max_int64 (c ∷ s)) [ none ↦ none | some n ↦ some (pos n) ]

pub from_digits-to_digits :
    (fuel n : ℕ) (acc : Text) → n < fuel → from_digits 0 (to_digits fuel n acc) ≡ from_digits n acc
unfolding to_digits from_digits
from_digits-to_digits zero n acc h = elim h [ ]
from_digits-to_digits (suc fuel) n acc h =
    ground (arith, from_digits-to_digits fuel (n / 10) ((48 + n % 10) ∷ acc))

-- The value of `a + b` in an int64, of the exact sum.
abbrev pub wrap_int64 : ℤ → ℤ
wrap_int64 (pos n) = if leb n max_int64 then pos n else sub_ℕ n (2 ^ 64)
wrap_int64 (negsuc n) = if leb n max_int64 then negsuc n else sub_ℕ (2 ^ 64) (suc n)

-- Digits are written first, and are no sign.
to_digits_head :
    (fuel n : ℕ) (acc : Text)
    → n < fuel
    → (c : ℕ) × (s : Text) × (to_digits fuel n acc ≡ c ∷ s) × (48 ≤ c) × (c < 58)
unfolding to_digits
to_digits_head zero n acc h = elim h [ ]
to_digits_head (suc fuel) n acc h = elim (Bool-cases (ltb n 10)) [
  | inl small ↦ (48 + n, acc, rw small, ground arith, ground arith)
  | inr large ↦
      let (c, s, e, lo, hi) = to_digits_head fuel (n / 10) ((48 + n % 10) ∷ acc) (ground arith) in
      (c, s, rw large e, lo, hi)
]

-- An int64.
abbrev pub IsInt64 : ℤ → Type 0
IsInt64 (pos n) = n ≤ max_int64
IsInt64 (negsuc n) = n ≤ max_int64

parse_magnitude-to_digits :
    (most n : ℕ) → n ≤ most → parse_magnitude most (to_digits (suc n) n []) ≡ some n
parse_magnitude-to_digits most n h =
    let (c, s, e, _, _) = to_digits_head (suc n) n [] (omega arith) in
    let back = from_digits-to_digits (suc n) n [] (omega arith) in
    within (to_digits (suc n) n []) e (unfold from_digits in back)
  where
    within :
        (t : Text) {c : ℕ} {s : Text}
        → t ≡ c ∷ s
        → from_digits 0 t ≡ some n
        → parse_magnitude most t ≡ some n
    within [] e back = cc
    within (c ∷ s) e back = unfold parse_magnitude in ground arith

-- What is formatted is parsed back, for every int64.
pub parse_int-format_int : (z : ℤ) → IsInt64 z → parse_int (format_int z) ≡ some z
unfolding format_int
parse_int-format_int (pos n) h =
    let (c, s, e, lo, hi) = to_digits_head (suc n) n [] (omega arith) in
    unsigned (to_digits (suc n) n []) e lo (parse_magnitude-to_digits max_int64 n h)
  where
    unsigned :
        (t : Text) {c : ℕ} {s : Text}
        → t ≡ c ∷ s
        → 48 ≤ c
        → parse_magnitude max_int64 t ≡ some n
        → parse_int t ≡ some (pos n)
    unsigned [] e lo m = cc
    unsigned (c ∷ s) e lo m = unfold parse_int in ground arith
parse_int-format_int (negsuc n) h =
    let m = parse_magnitude-to_digits (suc max_int64) (suc n) (omega arith) in
    unfold parse_int in ground arith

parse_magnitude-le : (most : ℕ) (t : Text) (n : ℕ) → parse_magnitude most t ≡ some n → n ≤ most
unfolding parse_magnitude
parse_magnitude-le most [] n h = cc
parse_magnitude-le most (c ∷ s) n h = ground arith

-- What parses is an int64.
pub parse_int-IsInt64 : (t : Text) (z : ℤ) → parse_int t ≡ some z → IsInt64 z
unfolding parse_int
parse_int-IsInt64 [] z h = cc
parse_int-IsInt64 (c ∷ s) z h = grind (arith, parse_magnitude-le)

-- The sum of two int64s wraps to an int64.
pub wrap_int64-IsInt64 : (a b : ℤ) → IsInt64 a → IsInt64 b → IsInt64 (wrap_int64 (a +ℤ b))
wrap_int64-IsInt64 a b ha hb = ground arith
