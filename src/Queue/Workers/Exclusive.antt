-- ===== src/Queue/Workers/Exclusive.antt =====
-- Which jobs several workers of database.go run at a time.
use go_project_starter.Base.{
  ℕ, ◌+◌, ◌≤◌, ◌≡◌, refl, Bool, true, false, some, List, [], ◌∷◌, arith, All, All-map, Option-cases,
  inl, inr,
}
use go_project_starter.Base.Texts.{same, same_sym}
use go_project_starter.Queue.{
  Row, Job, Handlers, Faults, job_of, job_timeout, finalize_timeout, first_claimable, reserved,
  update_row, claim, settle,
}
use go_project_starter.Queue.Workers.{
  Running, System, taken_on, Step, enqueues, claims, settles, crashes, ticks, Reach, here, next,
  IsExclusive,
}
use go_project_starter.Queue.Workers.Held.{
  IsHeld, Picked-All, Picked-IsExclusive, settle-IsHeld, enqueue-IsHeld, claimable-apart,
  claimed-IsHeld, update_row-IsHeld,
}
use go_project_starter.Queue.Claims.{claim-none, claim-some}

abbrev IsTimely : ℕ → Running → Type 0
IsTimely now q = now ≤ q.since + job_timeout + finalize_timeout

record IsSound (s : System) : Type 0 where
  exclusive : IsExclusive s.running
  held : All (IsHeld s.rows) s.running
  timely : All (IsTimely s.now) s.running

-- A claim that finds a row.
module _ (s : System) (h : IsSound s) (r : Row) (e : first_claimable s.now s.rows ≡ some r) where
  abbrev new_job : Running
  new_job = record { job = job_of r; since = s.now }

  abbrev claimed_rows : List Row
  claimed_rows = update_row r.id (reserved s.now) s.rows

  apart_from :
      (rs : List Running)
      → All (IsHeld s.rows) rs
      → All (IsTimely s.now) rs
      → All (λ q. same q.job.id r.id ≡ false) rs
  apart_from [] held timely = tt
  apart_from (q ∷ rs) held timely = (
    same_sym r.id q.job.id (claimable-apart s.now s.rows r q e held.0 timely.0),
    apart_from rs held.1 timely.1,
  )

  others-IsHeld :
      (rs : List Running)
      → All (IsHeld s.rows) rs
      → All (IsTimely s.now) rs
      → All (IsHeld claimed_rows) rs
  others-IsHeld [] held timely = tt
  others-IsHeld (q ∷ rs) held timely = (
    update_row-IsHeld r.id q (claimable-apart s.now s.rows r q e held.0 timely.0) (reserved s.now)
        s.rows (λ x. refl) held.0,
    others-IsHeld rs held.1 timely.1,
  )

  claimed-IsSound : IsSound (record s { rows = claimed_rows; running = new_job ∷ s.running })
  claimed-IsSound = record {
    exclusive = (apart_from s.running h.held h.timely, h.exclusive);
    held = (claimed-IsHeld s.now s.rows r e, others-IsHeld s.running h.held h.timely);
    timely = (omega arith, h.timely);
  }

settle-All-IsHeld :
    (handlers : Handlers) (faults : Faults) (j : Job) (now : ℕ) (rows : List Row)
    (rs : List Running)
    → All (λ q. same j.id q.job.id ≡ false) rs
    → All (IsHeld rows) rs
    → All (IsHeld (settle faults handlers j now rows)) rs
settle-All-IsHeld handlers faults j now rows [] apart held = tt
settle-All-IsHeld handlers faults j now rows (q ∷ rs) apart held = (
  settle-IsHeld q faults j apart.0 handlers now rows held.0,
  settle-All-IsHeld handlers faults j now rows rs apart.1 held.1,
)

claim-IsSound :
    (s : System) (fails : Bool)
    → IsSound s
    → IsSound (record s {
      rows = (claim fails s.now s.rows).1;
      running = taken_on (claim fails s.now s.rows).0 s.now s.running;
    })
unfolding claim
claim-IsSound s true h = h
claim-IsSound s false h = elim (Option-cases (first_claimable s.now s.rows)) [
  | inl e ↦ rw (claim-none s.now s.rows e) h
  | inr (r, e) ↦ rw (claim-some s.now s.rows r e) (claimed-IsSound s h r e)
]

Step-IsSound : (handlers : Handlers) {s t : System} → Step handlers s t → IsSound s → IsSound t
Step-IsSound handlers (enqueues s fails id t) h = record {
  exclusive = h.exclusive;
  held =
      All-map (IsHeld s.rows) _ (λ q k. enqueue-IsHeld fails id s.now t s.rows q k) s.running
        h.held;
  timely = h.timely;
}
Step-IsSound handlers (claims s fails) h = claim-IsSound s fails h
Step-IsSound handlers (settles s r rest faults p) h =
    let (apart, exclusive) = Picked-IsExclusive p h.exclusive in
    record {
      exclusive = exclusive;
      held =
          settle-All-IsHeld handlers faults r.job s.now s.rows rest apart
            (Picked-All (IsHeld s.rows) p h.held).1;
      timely = (Picked-All (IsTimely s.now) p h.timely).1;
    }
Step-IsSound handlers (crashes s r rest p) h = record {
  exclusive = (Picked-IsExclusive p h.exclusive).1;
  held = (Picked-All (IsHeld s.rows) p h.held).1;
  timely = (Picked-All (IsTimely s.now) p h.timely).1;
}
Step-IsSound handlers (ticks s n later timely) h = record {
  exclusive = h.exclusive;
  held = h.held;
  timely = timely;
}

Reach-IsSound : (handlers : Handlers) {s t : System} → IsSound s → Reach handlers s t → IsSound t
Reach-IsSound handlers h here = h
Reach-IsSound handlers h (next r st) = Step-IsSound handlers st (Reach-IsSound handlers h r)

-- From any table and no running job, over any sequence of enqueues, claims, settlements, crashes
-- and waits in which no worker runs longer than its timeouts allow, and with any calls failing, no
-- job is run by two workers at once.
pub Reach-IsExclusive :
    (handlers : Handlers) (now : ℕ) (rows : List Row) {s : System}
    → Reach handlers (record { now = now; rows = rows; running = [] }) s
    → IsExclusive s.running
Reach-IsExclusive handlers now rows r =
    (Reach-IsSound handlers (record { exclusive = tt; held = tt; timely = tt }) r).exclusive
