-- ===== src/Queue/Turn.antt =====
-- What one turn of a worker does to the table.
use go_project_starter.Base.{
  ℕ, suc, ◌+◌, ◌≡◌, refl, Bool, true, false, Option, none, some, List, [], ◌∷◌, leb, if◌then◌else◌,
  arith, Bool-cases, Option-cases, inl, inr, ap,
}
use go_project_starter.Base.Texts.{Text}
use go_project_starter.Base.Assoc.{lookup}
use go_project_starter.Queue.{
  Row, Outcome, succeeded, permanent, failed, Handlers, Faults, job_of, first_claimable, reserved,
  released, update_row, delete_row, backoff, finish, release, settle, settle_outcome, settle_with,
  proceed, process_one,
}
use go_project_starter.Queue.Claims.{claim-none, claim-some}

-- Two statements on one row are one.
update_row-update_row :
    (id : Text) (f g : Row → Row) (rows : List Row)
    → ((r : Row) → (f r).id ≡ r.id)
    → update_row id g (update_row id f rows) ≡ update_row id (λ r. g (f r)) rows
unfolding update_row
update_row-update_row id f g [] keeps = refl
update_row-update_row id f g (r ∷ rows) keeps =
    ground (arith, update_row-update_row id f g rows keeps, keeps r)

delete_row-update_row :
    (id : Text) (f : Row → Row) (rows : List Row)
    → ((r : Row) → (f r).id ≡ r.id)
    → delete_row id (update_row id f rows) ≡ delete_row id rows
unfolding update_row delete_row
delete_row-update_row id f [] keeps = refl
delete_row-update_row id f (r ∷ rows) keeps =
    ground (arith, delete_row-update_row id f rows keeps, keeps r)

-- What one turn is to do with the row of a claimed job.
pub data Verdict : Type 0 where
  drop_row : Verdict
  retry_at : ℕ → Verdict

-- Dropped on success, on a permanent error, without a handler, and after the last attempt.
abbrev pub verdict_of : Option Outcome → (attempt max_attempts later : ℕ) → Verdict
verdict_of none attempt most later = drop_row
verdict_of (some succeeded) attempt most later = drop_row
verdict_of (some permanent) attempt most later = drop_row
verdict_of (some failed) attempt most later =
    if leb most attempt then drop_row else retry_at (later + backoff attempt)

abbrev pub outcome_with : Option (Text → Outcome) → Text → Option Outcome
outcome_with none payload = none
outcome_with (some h) payload = some (h payload)

abbrev pub outcome_of : Handlers → Row → Option Outcome
outcome_of handlers r = outcome_with (lookup r.queue handlers) r.payload

abbrev pub retried : ℕ → Row → Row
retried at_time r = record r {
  attempts = suc r.attempts;
  reserved_at = none;
  available_at = at_time;
}

abbrev pub carried_out : Verdict → Text → List Row → List Row
carried_out drop_row id rows = delete_row id rows
carried_out (retry_at t) id rows = update_row id (retried t) rows

abbrev pub no_faults : Faults
no_faults = record { finish = false; release = false }

module _ (handlers : Handlers) (now later : ℕ) (rows : List Row) where
  settle_outcome_lem :
      (r : Row) (o : Outcome)
      → settle_outcome no_faults o (job_of r) later (update_row r.id (reserved now) rows)
        ≡ carried_out (verdict_of (some o) (suc r.attempts) r.max_attempts later) r.id rows
  unfolding settle_outcome finish release
  settle_outcome_lem r succeeded = delete_row-update_row r.id (reserved now) rows (λ q. refl)
  settle_outcome_lem r permanent = delete_row-update_row r.id (reserved now) rows (λ q. refl)
  settle_outcome_lem r failed = elim (Bool-cases (leb r.max_attempts (suc r.attempts))) [
    | inl h ↦ rw h (delete_row-update_row r.id (reserved now) rows (λ q. refl))
    | inr h ↦ rw h (
        update_row-update_row r.id (reserved now) (released (suc r.attempts) later) rows
          (λ q. refl))
  ]

  settle_lem :
      (r : Row)
      → settle no_faults handlers (job_of r) later (update_row r.id (reserved now) rows)
        ≡ carried_out
            (verdict_of (outcome_of handlers r) (suc r.attempts) r.max_attempts later)
            r.id
            rows
  unfolding settle settle_with finish
  settle_lem r = elim (Option-cases (lookup r.queue handlers)) [
    | inl e ↦ rw e (delete_row-update_row r.id (reserved now) rows (λ q. refl))
    | inr (h, e) ↦ rw e (settle_outcome_lem r (h r.payload))
  ]

  -- A turn that is served.
  abbrev pub turn : Option Row → Bool × List Row
  turn none = (false, rows)
  turn (some r) = (
    true,
    carried_out (verdict_of (outcome_of handlers r) (suc r.attempts) r.max_attempts later) r.id
        rows,
  )

  -- Where no statement fails, a turn of a worker takes the first claimable row and drops it or
  -- schedules it again, with the attempt counted, by the outcome of its handler and the attempts
  -- made, and leaves every other row; where no row is claimable it does nothing.
  pub process_one_lem :
      process_one no_faults false handlers now later rows ≡ turn (first_claimable now rows)
  unfolding process_one proceed
  process_one_lem = elim (Option-cases (first_claimable now rows)) [
    | inl e ↦ rw (claim-none now rows e) (rw e refl)
    | inr (r, e) ↦ rw (claim-some now rows r e) (rw e (ap (λ x. (true, x)) (settle_lem r)))
  ]
