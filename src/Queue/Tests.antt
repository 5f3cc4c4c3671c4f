-- ===== src/Queue/Tests.antt =====
-- Runs of the job queue, and the properties at concrete inputs.
use go_project_starter.Base.{suc, arith, ◌≤◌, ◌≡◌, refl, false, none, List, [], ◌∷◌, pos}
use go_project_starter.Base.Texts.{codes, same}
use go_project_starter.Base.Assoc.{lookup}
use go_project_starter.Queue.{
  Task, Row, new_row, failed, Handlers, claim, enqueue, backoff, proceed, settle_with, update_row,
  delete_row, process_one, settle, job_of, first_claimable,
}
use go_project_starter.Queue.Turn.{process_one_lem, turn, no_faults}
use go_project_starter.Queue.Backoff.{backoff_lem, backoff-bounds}
use go_project_starter.Queue.Drain.{horizon, horizon-due, run_turns, queue_drains}
use go_project_starter.Queue.Claims.{ClaimIsFirst, claim-IsFirst}
use go_project_starter.Queue.Workers.{taken_on, System, claims, here, next, IsExclusive}
use go_project_starter.Queue.Workers.Exclusive.{Reach-IsExclusive}

running : Unit {0}
unfolding enqueue claim process_one settle backoff proceed first_claimable settle_with lookup same
    update_row delete_row
running = tt

abbrev mail : Task
mail = record { task_type = codes "mail"; payload = codes "hi"; max_retry = pos 1 }

abbrev handlers : Handlers
handlers = (codes "mail", λ payload. failed) ∷ []

abbrev one_row : List Row
one_row = (enqueue false (codes "a") 100 mail []).1

abbrev after_first : List Row
after_first = (process_one (no_faults) false handlers 100 101 one_row).1

-- A failing job of two attempts is scheduled 5 seconds later, and dropped after the second run.
retried_once :
    after_first
    ≡ record {
      id = codes "a";
      queue = codes "mail";
      payload = codes "hi";
      max_attempts = 2;
      attempts = 1;
      reserved_at = none;
      available_at = 106;
      created_at = 100;
    }
      ∷ []
unfolding running
retried_once = refl

dropped_after_two : (process_one (no_faults) false handlers 106 107 after_first).1 ≡ []
unfolding running
dropped_after_two = refl

backoff_lem_example : backoff 7 ≡ 300
backoff_lem_example = backoff_lem 6

backoff-bounds_example : (5 ≤ backoff 3) × (backoff 3 ≤ 300) × (backoff 3 ≤ backoff 4)
backoff-bounds_example = backoff-bounds 3

claim-IsFirst_example : ClaimIsFirst 100 one_row (claim false 100 one_row)
claim-IsFirst_example = claim-IsFirst 100 one_row

process_one_lem_example :
    process_one no_faults false handlers 100 101 one_row
    ≡ turn handlers 100 101 one_row (first_claimable 100 one_row)
process_one_lem_example = process_one_lem handlers 100 101 one_row

abbrev start : System
start = record { now = 100; rows = (enqueue false (codes "b") 100 mail one_row).1; running = [] }

abbrev after_claim : System → System
after_claim s = record s {
  rows = (claim false s.now s.rows).1;
  running = taken_on (claim false s.now s.rows).0 s.now s.running;
}

-- Two workers claim, and run different jobs.
two_running :
    (after_claim (after_claim start)).running
    ≡ record { job = job_of (new_row (codes "b") 100 mail); since = 100 }
      ∷ record { job = job_of (new_row (codes "a") 100 mail); since = 100 }
      ∷ []
unfolding running
two_running = refl

Reach-IsExclusive_example : IsExclusive (after_claim (after_claim start)).running
Reach-IsExclusive_example =
    Reach-IsExclusive handlers 100 start.rows
      (next (next here (claims start false)) (claims (after_claim start) false))

-- A job that always fails is gone after three turns.
queue_drains_example :
    run_turns (λ k rs. handlers) (λ k rs. horizon rs) (λ k rs. suc (horizon rs)) 3 one_row ≡ []
unfolding running
queue_drains_example =
    queue_drains (λ k rs. handlers) (λ k rs. horizon rs) (λ k rs. suc (horizon rs)) 3 one_row
      (λ k rs. horizon-due rs) (omega arith)
