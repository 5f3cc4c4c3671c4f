-- ===== src/Schedule.antt =====
-- internal/platform/schedule/cron.go: cron expressions, and the table of jobs of schedule.go. The
-- mask of a field, a uint64, is the function from a bit to whether it is set.
pub mod Loop
pub mod Laws
mod Tests
use go_project_starter.Base.{
  ℕ, zero, suc, ◌+◌, ◌-◌, Bool, true, false, not, ◌&&◌, ◌||◌, Option, none, some, List, [], ◌∷◌,
  ltb, leb, ◌==◌, if◌then◌else◌, ℤ, pos, negsuc,
}
use go_project_starter.Base.Texts.{Text, codes, same, is_space, cut, contains, upper_text}
use go_project_starter.Base.Decimal.{max_int64, parse_int}
use go_project_starter.Base.Assoc.{lookup, put}

pub data FieldKind : Type 0 where
  minute hour day_of_month month day_of_week : FieldKind

abbrev pub Mask : Type 0
Mask = ℕ → Bool

-- A field but for its mask.
pub record FieldSpec : Type 0 where
  pub kind : FieldKind
  pub min : ℕ
  pub max : ℕ

-- `set`
unfoldable pub set : ℕ → Mask → Mask
set v m x = x == v || m x

-- The loop at the end of `parsePart`: a negative `v`, which an addition of int64 that wraps makes,
-- is at most `hi`, and a shift by it panics.
pub data Outcome : Type 0 where
  finished : Mask → Outcome
  invalid panicked out_of_fuel : Outcome

unfoldable pub fill : (fuel v hi step : ℕ) → Mask → Outcome
unfolding set
fill zero v hi step m = out_of_fuel
fill (suc fuel) v hi step m =
    let next = fill fuel (v + step) hi step (set v m) in
    if leb v hi then (if leb (v + step) max_int64 then next else panicked) else finished m

-- `monthNames` and `dowNames`
unfoldable pub month_names : List (Text × ℕ)
month_names =
    (codes "JAN", 1)
    ∷ (codes "FEB", 2)
    ∷ (codes "MAR", 3)
    ∷ (codes "APR", 4)
    ∷ (codes "MAY", 5)
    ∷ (codes "JUN", 6)
    ∷ (codes "JUL", 7)
    ∷ (codes "AUG", 8)
    ∷ (codes "SEP", 9)
    ∷ (codes "OCT", 10)
    ∷ (codes "NOV", 11)
    ∷ (codes "DEC", 12)
    ∷ []

unfoldable pub dow_names : List (Text × ℕ)
dow_names =
    (codes "SUN", 0)
    ∷ (codes "MON", 1)
    ∷ (codes "TUE", 2)
    ∷ (codes "WED", 3)
    ∷ (codes "THU", 4)
    ∷ (codes "FRI", 5)
    ∷ (codes "SAT", 6)
    ∷ []

unfoldable pub named : FieldKind → Text → Option ℕ
unfolding month_names dow_names lookup
named month name = lookup name month_names
named day_of_week name = lookup name dow_names
named minute name = none
named hour name = none
named day_of_month name = none

-- `resolve`: a number, or a name whatever its letters' case.
unfoldable pub resolve : FieldKind → Text → Option ℤ
resolve kind token = elim (parse_int token) [
  | some n ↦ some n
  | none ↦ elim (named kind (upper_text token)) [ none ↦ none | some n ↦ some (pos n) ]
]

-- The check of the bounds, after which they are not negative.
unfoldable pub in_bounds : FieldSpec → (lo hi : ℤ) → Option (ℕ × ℕ)
in_bounds f (pos lo) (pos hi) =
    if ltb lo f.min || ltb f.max hi || ltb hi lo then none else some (lo, hi)
in_bounds f (pos lo) (negsuc hi) = none
in_bounds f (negsuc lo) hi = none

unfoldable pub both : Option ℤ → Option ℤ → Option (ℤ × ℤ)
both none hi = none
both (some lo) none = none
both (some lo) (some hi) = some (lo, hi)

-- `lo` and `hi` of a list item without its step.
unfoldable pub range_of : FieldSpec → Text → Option (ℤ × ℤ)
range_of f part =
    if same part (codes "*") then some (pos f.min, pos f.max) else elim (cut b'-' part) [
      | some (first, second) ↦ both (resolve f.kind first) (resolve f.kind second)
      | none ↦ both (resolve f.kind part) (resolve f.kind part)
    ]

-- The step of a list item, where it is positive, and the rest of the item.
unfoldable pub positive_step : Option ℤ → Option ℕ
positive_step none = none
positive_step (some (negsuc n)) = none
positive_step (some (pos zero)) = none
positive_step (some (pos (suc n))) = some (suc n)

unfoldable pub stepped : Option ℕ → Text → Option (ℕ × Text)
stepped none rest = none
stepped (some step) rest = some (step, rest)

unfoldable pub cut_step : Text → Option (Text × Text) → Option (ℕ × Text)
unfolding stepped positive_step
cut_step part none = some (1, part)
cut_step part (some (before, after)) = stepped (positive_step (parse_int after)) before

unfoldable pub step_of : Text → Option (ℕ × Text)
unfolding cut_step
step_of part = cut_step part (cut b'/' part)

-- The fuel is enough: `v` grows at every turn, and the last one has `hi < v`.
unfoldable pub fill_range : (step : ℕ) → Option (ℕ × ℕ) → Mask → Outcome
unfolding fill
fill_range step none m = invalid
fill_range step (some (lo, hi)) m = fill (suc (suc hi)) lo hi step m

unfoldable pub bounds_of : FieldSpec → Option (ℤ × ℤ) → Option (ℕ × ℕ)
unfolding in_bounds
bounds_of f none = none
bounds_of f (some (lo, hi)) = in_bounds f lo hi

unfoldable pub run_part : FieldSpec → Option (ℕ × Text) → Mask → Outcome
unfolding fill_range bounds_of range_of
run_part f none m = invalid
run_part f (some (step, rest)) m = fill_range step (bounds_of f (range_of f rest)) m

-- `parsePart`
unfoldable pub parse_part : FieldSpec → Text → Mask → Outcome
unfolding run_part step_of
parse_part f part m = run_part f (step_of part) m

abbrev consed : ℕ → List Text → List Text
consed d [] = (d ∷ []) ∷ []
consed d (t ∷ ts) = (d ∷ t) ∷ ts

-- strings.Split at an ASCII character.
unfoldable pub split : ℕ → Text → List Text
split c [] = [] ∷ []
split c (d ∷ s) = let rest = split c s in if d == c then [] ∷ rest else consed d rest

unfoldable pub after_part : Outcome → (Mask → Outcome) → Outcome
after_part (finished m) k = k m
after_part invalid k = invalid
after_part panicked k = panicked
after_part out_of_fuel k = out_of_fuel

-- The items of a list, one after another.
unfoldable pub parse_parts : FieldSpec → List Text → Mask → Outcome
unfolding parse_part after_part
parse_parts f [] m = finished m
parse_parts f (part ∷ parts) m = after_part (parse_part f part m) (parse_parts f parts)

-- `parse`
unfoldable pub parse_field : FieldSpec → Text → Outcome
parse_field f token =
    parse_parts f (split b',' (if same token (codes "?") then codes "*" else token)) (λ x. false)

pub record Spec : Type 0 where
  pub minute : Mask
  pub hour : Mask
  pub dom : Mask
  pub month : Mask
  pub dow : Mask

pub data Parsed : Type 0 where
  compiled : Spec → Parsed
  rejected crashed unfinished : Parsed

-- A field, and the rest of `Parse`.
unfoldable pub with_mask : Outcome → (Mask → Parsed) → Parsed
with_mask (finished m) k = k m
with_mask invalid k = rejected
with_mask panicked k = crashed
with_mask out_of_fuel k = unfinished

-- A text begins with a character that is no space.
abbrev in_word : Text → Bool
in_word [] = false
in_word (c ∷ s) = not (is_space c)

-- strings.Fields
unfoldable pub fields : Text → List Text
fields [] = []
fields (c ∷ s) =
    let rest = fields s in
    if is_space c then rest else if in_word s then consed c rest else (c ∷ []) ∷ rest

abbrev pub field : FieldKind → ℕ → ℕ → FieldSpec
field kind min max = record { kind = kind; min = min; max = max }

unfoldable pub parse_fields : List Text → Parsed
unfolding with_mask parse_field
parse_fields (a ∷ b ∷ c ∷ d ∷ e ∷ []) =
    with_mask (parse_field (field FieldKind.minute 0 59) a) λ ma.
      with_mask (parse_field (field FieldKind.hour 0 23) b) λ mb.
        with_mask (parse_field (field day_of_month 1 31) c) λ mc.
          with_mask (parse_field (field FieldKind.month 1 12) d) λ md.
            with_mask (parse_field (field day_of_week 0 7) e)
              λ me. compiled (record { minute = ma; hour = mb; dom = mc; month = md; dow = me })
parse_fields _ = rejected

-- `Parse`
unfoldable pub parse_cron : Text → Parsed
unfolding fields parse_fields
parse_cron expr = parse_fields (fields expr)

-- What `Match` reads of a time; a weekday of 0 is Sunday.
pub record Time : Type 0 where
  pub minute : ℕ
  pub hour : ℕ
  pub day : ℕ
  pub month : ℕ
  pub weekday : ℕ

-- `Match`
unfoldable pub matches : Spec → Time → Bool
matches s t =
    let dow = if t.weekday == 0 && s.dow 7 then 7 else t.weekday in
    s.minute t.minute && s.hour t.hour && s.dom t.day && s.month t.month && s.dow dow

-- The jobs of a `cronWorker` by name, each with its expression compiled; the handlers are not run
-- here, and `none` is a run of `Register` that panics.
abbrev pub Jobs : Type 0
Jobs = List (Text × Spec)

unfoldable pub registered : Text → Parsed → Jobs → Option Jobs
registered name (compiled s) jobs = some (put name s jobs)
registered name rejected jobs = some jobs
registered name crashed jobs = none
registered name unfinished jobs = none

-- `Register`
unfoldable pub register : (name cron : Text) → Jobs → Option Jobs
unfolding parse_cron registered
register name cron jobs = registered name (parse_cron cron) jobs
