-- ===== src/Queue/Workers.antt =====
-- Several workers on one table: their claims and settlements in any order, crashes included.
pub mod Held
pub mod Exclusive
use go_project_starter.Base.{
  ℕ, zero, suc, ◌+◌, ◌≤◌, ◌≡◌, refl, sym, ◌∙◌, subst, Bool, true, false, not, ◌&&◌, ◌||◌, Option,
  none, some, List, [], ◌∷◌, ◌++◌, ltb, leb, if◌then◌else◌, arith, any, All, All-map, Bool-cases,
  Option-cases, inl, inr,
}
use go_project_starter.Base.Texts.{Text, same, same_refl, same_iff}
use go_project_starter.Queue
use go_project_starter.Queue.{
  Task, Row, Job, Handlers, Faults, Claim, claim_failed, no_job, claimed, job_of, job_timeout,
  finalize_timeout, is_claimable, first_claimable, reserved, update_row, delete_row, claim, enqueue,
  finish, release, released, settle, settle_with, settle_outcome, Outcome, succeeded, permanent,
  failed,
}
use go_project_starter.Queue.Claims.{
  first_claimable-All, first_claimable-IsClaimable, first_claimable-any, claim-none, claim-some,
}

-- A job that a worker is running, and when it was claimed.
pub record Running : Type 0 where
  pub job : Job
  pub since : ℕ

pub record System : Type 0 where
  pub now : ℕ
  pub rows : List Row
  pub running : List Running

-- A running job, and the others.
pub data Picked (q : Running) : List Running → List Running → Type 0 where
  this : {rs : List Running} → Picked q (q ∷ rs) rs
  after : {r : Running} {rs qs : List Running} → Picked q rs qs → Picked q (r ∷ rs) (r ∷ qs)

abbrev pub taken_on : Claim → ℕ → List Running → List Running
taken_on claim_failed now rs = rs
taken_on no_job now rs = rs
taken_on (claimed j) now rs = record { job = j; since = now } ∷ rs

-- A job is settled or its worker has crashed before it has run for `job_timeout`, which bounds the
-- context of its handler, and `finalize_timeout`, which bounds the statement after it.
pub data Step (handlers : Handlers) : System → System → Type 0 where
  enqueues :
      (s : System) (fails : Bool) (id : Text) (t : Task)
      → Step handlers s (record s { rows = (enqueue fails id s.now t s.rows).1 })
  claims :
      (s : System) (fails : Bool)
      → Step handlers s (record s {
        rows = (claim fails s.now s.rows).1;
        running = taken_on (claim fails s.now s.rows).0 s.now s.running;
      })
  settles :
      (s : System) (r : Running) (rest : List Running) (faults : Faults)
      → Picked r s.running rest
      → Step handlers s
          (record s { rows = settle faults handlers r.job s.now s.rows; running = rest })
  crashes :
      (s : System) (r : Running) (rest : List Running)
      → Picked r s.running rest
      → Step handlers s (record s { running = rest })
  ticks :
      (s : System) (n : ℕ)
      → s.now ≤ n
      → All (λ r. n ≤ r.since + job_timeout + finalize_timeout) s.running
      → Step handlers s (record s { now = n })

pub data Reach (handlers : Handlers) (s : System) : System → Type 0 where
  here : Reach handlers s s
  next : {t u : System} → Reach handlers s t → Step handlers t u → Reach handlers s u

-- No two running jobs are of one row.
abbrev pub IsExclusive : List Running → Type 0
IsExclusive [] = Unit
IsExclusive (r ∷ rs) = All (λ q. same q.job.id r.job.id ≡ false) rs × IsExclusive rs
