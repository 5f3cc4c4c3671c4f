-- ===== src/Queue.antt =====
-- internal/platform/queue/database.go: the job queue in the table queue_jobs, in whole seconds. A
-- statement either fails and does nothing, or is done at once (`Faults`); ties in the order of a
-- claim are settled by the order of the rows. A handler is a parameter, as its outcome.
pub mod Backoff
pub mod Claims
pub mod Turn
pub mod Workers
pub mod Drain
pub mod Tests
use go_project_starter.Base.{
  ℕ, zero, suc, ◌+◌, ◌*◌, ◌/◌, Bool, true, false, ◌&&◌, ◌||◌, Option, none, some, List, [], ◌∷◌,
  ◌++◌, ltb, leb, ◌==◌, if◌then◌else◌, ℤ, positive, any,
}
use go_project_starter.Base.Texts.{Text, same}
use go_project_starter.Base.Assoc.{lookup, put}

pub record Task : Type 0 where
  pub task_type : Text
  pub payload : Text
  pub max_retry : ℤ

-- A row of queue_jobs.
pub record Row : Type 0 where
  pub id : Text
  pub queue : Text
  pub payload : Text
  pub max_attempts : ℕ
  pub attempts : ℕ
  pub reserved_at : Option ℕ
  pub available_at : ℕ
  pub created_at : ℕ

-- A claimed row, as it was read: `attempts` is the number before the claim.
pub record Job : Type 0 where
  pub id : Text
  pub queue : Text
  pub payload : Text
  pub attempts : ℕ
  pub max_attempts : ℕ

abbrev pub lease : ℕ
lease = 360

abbrev pub job_timeout : ℕ
job_timeout = 300

abbrev pub finalize_timeout : ℕ
finalize_timeout = 5

abbrev pub backoff_base : ℕ
backoff_base = 5

abbrev pub backoff_max : ℕ
backoff_max = 300

unfoldable pub max_attempts_of : ℤ → ℕ
max_attempts_of max_retry = elim (positive max_retry) [ none ↦ 1 | some n ↦ n + 1 ]

unfoldable pub new_row : Text → ℕ → Task → Row
unfolding max_attempts_of
new_row id now t = record {
  id = id;
  queue = t.task_type;
  payload = t.payload;
  max_attempts = max_attempts_of t.max_retry;
  attempts = 0;
  reserved_at = none;
  available_at = now;
  created_at = now;
}

-- The error is `false`: the statement failed, or the primary key was taken.
unfoldable pub enqueue : (fails : Bool) (id : Text) (now : ℕ) → Task → List Row → Bool × List Row
unfolding new_row
enqueue fails id now t rows =
    if fails || any (λ r. same r.id id) rows
    then (false, rows)
    else (true, rows ++ new_row id now t ∷ [])

-- What a handler answers: nil, `ErrPermanent`, or another error, which a panic is too.
pub data Outcome : Type 0 where
  succeeded permanent failed : Outcome

abbrev pub Handlers : Type 0
Handlers = List (Text × (Text → Outcome))

-- The last registration of a type wins.
unfoldable pub register : Text → (Text → Outcome) → Handlers → Handlers
register task_type h handlers = put task_type h handlers

-- WHERE available_at <= ? AND (reserved_at IS NULL OR reserved_at < ?)
unfoldable pub is_claimable : ℕ → Row → Bool
is_claimable now r =
    leb r.available_at now && elim r.reserved_at [ none ↦ true | some t ↦ ltb (t + lease) now ]

-- ORDER BY available_at, created_at
unfoldable pub comes_before : Row → Row → Bool
comes_before a b =
    ltb a.available_at b.available_at
    || (a.available_at == b.available_at && ltb a.created_at b.created_at)

abbrev pub earlier : Row → Option Row → Row
earlier r none = r
earlier r (some s) = if comes_before s r then s else r

-- The claimable row that comes first.
unfoldable pub first_claimable : ℕ → List Row → Option Row
unfolding is_claimable comes_before
first_claimable now [] = none
first_claimable now (r ∷ rs) =
    let rest = first_claimable now rs in if is_claimable now r then some (earlier r rest) else rest

abbrev pub reserved : ℕ → Row → Row
reserved now r = record r { reserved_at = some now; attempts = suc r.attempts }

-- UPDATE queue_jobs SET … WHERE id = ?
unfoldable pub update_row : Text → (Row → Row) → List Row → List Row
update_row id f [] = []
update_row id f (r ∷ rs) = (if same r.id id then f r else r) ∷ update_row id f rs

-- DELETE FROM queue_jobs WHERE id = ?
unfoldable pub delete_row : Text → List Row → List Row
delete_row id [] = []
delete_row id (r ∷ rs) = let rest = delete_row id rs in if same r.id id then rest else r ∷ rest

pub data Claim : Type 0 where
  claim_failed no_job : Claim
  claimed : Job → Claim

abbrev pub job_of : Row → Job
job_of r = record {
  id = r.id;
  queue = r.queue;
  payload = r.payload;
  attempts = r.attempts;
  max_attempts = r.max_attempts;
}

-- `claim`: one transaction, which is rolled back where a statement of it fails.
unfoldable pub claim : (fails : Bool) → ℕ → List Row → Claim × List Row
claim true now rows = (claim_failed, rows)
claim false now rows = elim (first_claimable now rows) [
  | none ↦ (no_job, rows)
  | some r ↦ (claimed (job_of r), update_row r.id (reserved now) rows)
]

-- The loop of `backoff`, over the steps that are left.
unfoldable pub doubled : ℕ → ℕ → ℕ
doubled zero delay = delay
doubled (suc n) delay =
    let rest = doubled n (delay * 2) in if leb (backoff_max / 2) delay then backoff_max else rest

unfoldable pub backoff : ℕ → ℕ
unfolding doubled
backoff zero = backoff_base
backoff (suc n) = doubled n backoff_base

-- The calls that may fail once a job has been run.
pub record Faults : Type 0 where
  pub finish : Bool
  pub release : Bool

abbrev pub released : ℕ → ℕ → Row → Row
released attempts now r = record r { reserved_at = none; available_at = now + backoff attempts }

module _ (faults : Faults) where
  unfoldable pub finish : Text → List Row → List Row
  finish id rows = if faults.finish then rows else delete_row id rows

  unfoldable pub release : Text → ℕ → ℕ → List Row → List Row
  release id attempts now rows =
      if faults.release then rows else update_row id (released attempts now) rows

  -- What follows the run of a handler.
  unfoldable pub settle_outcome : Outcome → Job → ℕ → List Row → List Row
  unfolding finish release
  settle_outcome succeeded j now rows = finish j.id rows
  settle_outcome permanent j now rows = finish j.id rows
  settle_outcome failed j now rows =
      let attempt = suc j.attempts in
      if leb j.max_attempts attempt then finish j.id rows else release j.id attempt now rows

  -- `processOne` from the claimed job on; a job whose type has no handler is dropped.
  unfoldable pub settle_with : Option (Text → Outcome) → Job → ℕ → List Row → List Row
  unfolding settle_outcome
  settle_with none j now rows = finish j.id rows
  settle_with (some h) j now rows = settle_outcome (h j.payload) j now rows

  unfoldable pub settle : Handlers → Job → ℕ → List Row → List Row
  settle handlers j now rows = settle_with (lookup j.queue handlers) j now rows

  unfoldable pub proceed : Handlers → ℕ → Claim × List Row → Bool × List Row
  proceed handlers later (claim_failed, rows) = (false, rows)
  proceed handlers later (no_job, rows) = (false, rows)
  proceed handlers later (claimed j, rows) = (true, settle handlers j later rows)

  -- `processOne`: claimed at one time, settled at a later one, with nothing in between.
  unfoldable pub process_one :
      (claim_fails : Bool) → Handlers → (now later : ℕ) → List Row → Bool × List Row
  process_one claim_fails handlers now later rows =
      proceed handlers later (claim claim_fails now rows)
