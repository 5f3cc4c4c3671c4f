-- ===== src/Schedule/Tests.antt =====
-- Runs of the parser of cron expressions, and the theorems at them.
use go_project_starter.Base.{
  ◌+◌, ◌≡◌, ◌≢◌, refl, Bool, true, false, ◌&&◌, ◌||◌, some, leb, ◌==◌, if◌then◌else◌, arith,
}
use go_project_starter.Base.Texts.{codes, same, is_space, cut, upper, upper_text}
use go_project_starter.Base.Decimal.{max_int64, parse_int, parse_magnitude, from_digits}
use go_project_starter.Base.Assoc.{lookup}
use go_project_starter.Schedule.{
  finished, panicked, fill, fill_range, set, named, month_names, dow_names, resolve, in_bounds,
  both, range_of, positive_step, stepped, cut_step, step_of, bounds_of, run_part, parse_part, split,
  after_part, parse_parts, parse_field, Parsed, compiled, rejected, crashed, unfinished, with_mask,
  fields, parse_fields, parse_cron, Spec, Time, matches,
}
use go_project_starter.Schedule.Loop.{with_steps, fill_range_lem}
use go_project_starter.Schedule.Laws.{parse_cron_ends, matches_lem}

abbrev weekdays_spec : Spec
weekdays_spec = record {
  minute = set 0 (λ x. false);
  hour = set 9 (λ x. false);
  dom = λ x. leb 1 x && leb x 31;
  month = λ x. leb 1 x && leb x 12;
  dow = set 7 (λ x. false);
}

-- 9:00 on the 5th of July, a Sunday.
abbrev sunday : Time
sunday = record { minute = 0; hour = 9; day = 5; month = 7; weekday = 0 }

-- Every third hour from 8 to 18.
fill_range_lem_example :
    fill_range 3 (some (8, 18)) (λ x. false)
    ≡ (if leb (8 + 3) max_int64 then finished (with_steps 8 18 3 (λ x. false)) else panicked)
fill_range_lem_example =
    fill_range_lem 8 18 3 (λ x. false) (omega arith) (omega arith) (omega arith)

parse_cron_ends_example : parse_cron (codes "*/15 9-17 * JAN,jul mon-5") ≢ unfinished
parse_cron_ends_example = parse_cron_ends (codes "*/15 9-17 * JAN,jul mon-5")

matches_lem_example : matches weekdays_spec sunday ≡ (
    weekdays_spec.minute 0
    && weekdays_spec.hour 9
    && weekdays_spec.dom 5
    && weekdays_spec.month 7
    && (if 0 == 0 then weekdays_spec.dow 0 || weekdays_spec.dow 7 else weekdays_spec.dow 0))
matches_lem_example = matches_lem weekdays_spec sunday

abbrev is_crash : Parsed → Bool
is_crash crashed = true
is_crash (compiled s) = false
is_crash rejected = false
is_crash unfinished = false

abbrev fires : Parsed → Time → Bool
fires (compiled s) t = matches s t
fires rejected t = false
fires crashed t = false
fires unfinished t = false

-- A step of the largest int64 is accepted, and panics on a field that does not begin at 0.
huge_step_crashes : is_crash (parse_cron (codes "0 0 */9223372036854775807 * *")) ≡ true
unfolding fill fill_range set named month_names dow_names resolve in_bounds both range_of
    positive_step stepped cut_step step_of bounds_of run_part parse_part split after_part
    parse_parts parse_field with_mask fields parse_fields parse_cron matches same is_space cut upper
    upper_text parse_int parse_magnitude from_digits lookup
huge_step_crashes = refl

seven_is_sunday : fires (parse_cron (codes "0 9 * * 7")) sunday ≡ true
unfolding fill fill_range set named month_names dow_names resolve in_bounds both range_of
    positive_step stepped cut_step step_of bounds_of run_part parse_part split after_part
    parse_parts parse_field with_mask fields parse_fields parse_cron matches same is_space cut upper
    upper_text parse_int parse_magnitude from_digits lookup
seven_is_sunday = refl
