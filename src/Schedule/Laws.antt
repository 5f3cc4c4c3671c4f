-- ===== src/Schedule/Laws.antt =====
-- That `Parse` ends, and what `Match` takes for a Sunday.
use go_project_starter.Base.{
  ℕ, zero, suc, ◌+◌, ◌≤◌, ◌≡◌, ◌≢◌, subst, Bool, true, false, ◌&&◌, ◌||◌, Option, none, some, List,
  [], ◌∷◌, ltb, leb, ◌==◌, if◌then◌else◌, arith, Bool-cases, inl, inr, ℤ, pos, negsuc,
}
use go_project_starter.Base.Texts.{Text, cut}
use go_project_starter.Base.Decimal.{max_int64, parse_int}
use go_project_starter.Schedule.{
  Mask, FieldSpec, Outcome, finished, invalid, panicked, out_of_fuel, fill_range, in_bounds,
  bounds_of, range_of, step_of, positive_step, parse_part, parse_parts, parse_field, Parsed,
  compiled, rejected, crashed, unfinished, with_mask, fields, stepped, cut_step, run_part,
  after_part, parse_fields, parse_cron, Spec, Time, matches,
}
use go_project_starter.Schedule.Loop.{fill_range_lem, with_steps}

-- A run that ends.
abbrev Ends : Outcome → Type 0
Ends (finished m) = Unit
Ends invalid = Unit
Ends panicked = Unit
Ends out_of_fuel = ⊥

abbrev IsDone : Parsed → Type 0
IsDone (compiled s) = Unit
IsDone rejected = Unit
IsDone crashed = Unit
IsDone unfinished = ⊥

fill_range-Ends :
    (lo hi step : ℕ) (m : Mask)
    → 1 ≤ step
    → lo ≤ hi
    → hi ≤ 63
    → Ends (fill_range step (some (lo, hi)) m)
fill_range-Ends lo hi step m positive within small =
    rw (fill_range_lem lo hi step m positive within small) (either_way (leb (lo + step) max_int64))
  where
    either_way : (b : Bool) → Ends (if b then finished (with_steps lo hi step m) else panicked)
    either_way true = tt
    either_way false = tt

module _ (f : FieldSpec) (small : f.max ≤ 63) where
  checked-Ends :
      (step : ℕ) (lo hi : ℤ) (m : Mask) → 1 ≤ step → Ends (fill_range step (in_bounds f lo hi) m)
  unfolding in_bounds fill_range
  checked-Ends step (pos lo) (pos hi) m positive =
      elim (Bool-cases (ltb lo f.min || ltb f.max hi || ltb hi lo)) [
        | inl out ↦ rw out tt
        | inr within ↦
            rw within (fill_range-Ends lo hi step m positive (ground arith) (ground arith))
      ]
  checked-Ends step (pos lo) (negsuc hi) m positive = tt
  checked-Ends step (negsuc lo) hi m positive = tt

  bounds-Ends :
      (step : ℕ) (o : Option (ℤ × ℤ)) (m : Mask)
      → 1 ≤ step
      → Ends (fill_range step (bounds_of f o) m)
  unfolding bounds_of fill_range
  bounds-Ends step none m positive = tt
  bounds-Ends step (some (lo, hi)) m positive = checked-Ends step lo hi m positive

  positive_step-eq-some : (o : Option ℤ) {step : ℕ} → positive_step o ≡ some step → 1 ≤ step
  unfolding positive_step
  positive_step-eq-some none e = ground arith
  positive_step-eq-some (some (negsuc n)) e = ground arith
  positive_step-eq-some (some (pos zero)) e = ground arith
  positive_step-eq-some (some (pos (suc n))) e = ground arith

  stepped-Ends :
      (o : Option ℤ) (rest : Text) (m : Mask) → Ends (run_part f (stepped (positive_step o) rest) m)
  unfolding run_part stepped positive_step
  stepped-Ends none rest m = tt
  stepped-Ends (some (negsuc n)) rest m = tt
  stepped-Ends (some (pos zero)) rest m = tt
  stepped-Ends (some (pos (suc n))) rest m = bounds-Ends (suc n) (range_of f rest) m (omega arith)

  cut_step-Ends :
      (part : Text) (o : Option (Text × Text)) (m : Mask) → Ends (run_part f (cut_step part o) m)
  unfolding cut_step run_part
  cut_step-Ends part none m = bounds-Ends 1 (range_of f part) m (omega arith)
  cut_step-Ends part (some (before, after)) m = stepped-Ends (parse_int after) before m

  parse_part-Ends : (part : Text) (m : Mask) → Ends (parse_part f part m)
  unfolding parse_part step_of
  parse_part-Ends part m = cut_step-Ends part (cut b'/' part) m

  after_part-Ends :
      (o : Outcome) (k : Mask → Outcome)
      → Ends o
      → ((m : Mask) → Ends (k m))
      → Ends (after_part o k)
  unfolding after_part
  after_part-Ends (finished m) k h rest = rest m
  after_part-Ends invalid k h rest = tt
  after_part-Ends panicked k h rest = tt
  after_part-Ends out_of_fuel k h rest = elim h [ ]

  parse_parts-Ends : (parts : List Text) (m : Mask) → Ends (parse_parts f parts m)
  unfolding parse_parts
  parse_parts-Ends [] m = tt
  parse_parts-Ends (part ∷ parts) m =
      after_part-Ends (parse_part f part m) (parse_parts f parts) (parse_part-Ends part m)
        (parse_parts-Ends parts)

  parse_field-Ends : (token : Text) → Ends (parse_field f token)
  unfolding parse_field
  parse_field-Ends token = parse_parts-Ends _ _

with_mask-IsDone :
    (o : Outcome) (k : Mask → Parsed)
    → Ends o
    → ((m : Mask) → IsDone (k m))
    → IsDone (with_mask o k)
unfolding with_mask
with_mask-IsDone (finished m) k h rest = rest m
with_mask-IsDone invalid k h rest = tt
with_mask-IsDone panicked k h rest = tt
with_mask-IsDone out_of_fuel k h rest = elim h [ ]

-- Parsing five fields.
parse_fields-IsDone : (ts : List Text) → IsDone (parse_fields ts)
unfolding parse_fields
parse_fields-IsDone [] = tt
parse_fields-IsDone (a ∷ []) = tt
parse_fields-IsDone (a ∷ b ∷ []) = tt
parse_fields-IsDone (a ∷ b ∷ c ∷ []) = tt
parse_fields-IsDone (a ∷ b ∷ c ∷ d ∷ []) = tt
parse_fields-IsDone (a ∷ b ∷ c ∷ d ∷ e ∷ []) =
    with_mask-IsDone _ _ (parse_field-Ends _ (omega arith) a) λ ma.
      with_mask-IsDone _ _ (parse_field-Ends _ (omega arith) b) λ mb.
        with_mask-IsDone _ _ (parse_field-Ends _ (omega arith) c) λ mc.
          with_mask-IsDone _ _ (parse_field-Ends _ (omega arith) d)
            λ md. with_mask-IsDone _ _ (parse_field-Ends _ (omega arith) e) λ me. tt
parse_fields-IsDone (a ∷ b ∷ c ∷ d ∷ e ∷ x ∷ rest) = tt

-- The parsing of every expression ends: the fuel of its loops never runs out.
pub parse_cron_ends : (expr : Text) → parse_cron expr ≢ unfinished
unfolding parse_cron
parse_cron_ends expr h = subst IsDone h (parse_fields-IsDone (fields expr))

-- A time matches where each of its parts is set in its field; a Sunday where 0 or 7 is.
pub matches_lem :
    (s : Spec) (t : Time)
    → matches s t ≡ (
        s.minute t.minute
        && s.hour t.hour
        && s.dom t.day
        && s.month t.month
        && (if t.weekday == 0 then s.dow 0 || s.dow 7 else s.dow t.weekday))
unfolding matches
matches_lem s t = ground arith
