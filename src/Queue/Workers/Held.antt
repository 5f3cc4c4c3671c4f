-- ===== src/Queue/Workers/Held.antt =====
-- What the statements of one worker do to the rows of the jobs that others are running.
use go_project_starter.Base.{
  ℕ, suc, ◌+◌, ◌≤◌, ◌≡◌, refl, sym, ◌∙◌, subst, Bool, true, false, ◌||◌, Option, none, some, List,
  [], ◌∷◌, ◌++◌, leb, if◌then◌else◌, arith, any, All, All-map, All-append, Bool-cases, inl, inr,
}
use go_project_starter.Base.Texts.{Text, same, same_iff, same_sym}
use go_project_starter.Queue.{
  Task, Row, Job, Handlers, Faults, job_of, job_timeout, finalize_timeout, is_claimable,
  first_claimable, reserved, update_row, delete_row, enqueue, finish, release, released, settle,
  settle_with, settle_outcome, Outcome, succeeded, permanent, failed,
}
use go_project_starter.Queue.Workers.{Running, Picked, this, after, IsExclusive}
use go_project_starter.Base.Assoc.{lookup}
use go_project_starter.Queue.Claims.{
  first_claimable-All, first_claimable-IsClaimable, first_claimable-any,
}

-- Every row of a running job is reserved since it was claimed, and there is one.
abbrev pub IsReservedFor : Running → Row → Type 0
IsReservedFor q r = same r.id q.job.id ≡ true → r.reserved_at ≡ some q.since

abbrev pub IsHeld : List Row → Running → Type 0
IsHeld rows q = All (IsReservedFor q) rows × (any (λ r. same r.id q.job.id) rows ≡ true)

pub Picked-All {ℓ} :
    (P : Running → Type ℓ) {q : Running} {rs qs : List Running}
    → Picked q rs qs
    → All P rs
    → P q × All P qs
Picked-All P this h = h
Picked-All P (after p) h = let (hq, hqs) = Picked-All P p h.1 in (hq, (h.0, hqs))

-- The others are of other rows than the one that is picked.
pub Picked-IsExclusive :
    {q : Running} {rs qs : List Running}
    → Picked q rs qs
    → IsExclusive rs
    → All (λ r. same q.job.id r.job.id ≡ false) qs × IsExclusive qs
Picked-IsExclusive {q} this h = (
  All-map (λ r. same r.job.id q.job.id ≡ false) _ (λ r e. same_sym r.job.id q.job.id e) _ h.0,
  h.1,
)
Picked-IsExclusive {q} (after {r} p) h =
    let (others, rest) = Picked-IsExclusive p h.1 in
    let (apart, aparts) = Picked-All (λ x. same x.job.id r.job.id ≡ false) p h.0 in
    ((apart, others), (aparts, rest))

either_way {ℓ κ} :
    {A : Type ℓ} (P : A → Type κ) (b : Bool) {x y : A} → P x → P y → P (if b then x else y)
either_way P true hx hy = hx
either_way P false hx hy = hy

any-update_row :
    (k id : Text) (f : Row → Row) (rows : List Row)
    → ((x : Row) → (f x).id ≡ x.id)
    → any (λ r. same r.id k) (update_row id f rows) ≡ any (λ r. same r.id k) rows
unfolding update_row
any-update_row k id f [] keeps = refl
any-update_row k id f (r ∷ rows) keeps = ground (arith, any-update_row k id f rows keeps, keeps r)

module _ (id : Text) (q : Running) (other : same id q.job.id ≡ false) where
  untouched :
      (f : Row → Row) (r : Row)
      → ((x : Row) → (f x).id ≡ x.id)
      → IsReservedFor q r
      → IsReservedFor q (if same r.id id then f r else r)
  untouched f r keeps h = elim (Bool-cases (same r.id id)) [
    | inl hit ↦ λ e. absurd (ground (arith, keeps r, same_iff r.id id, e, hit, other))
    | inr miss ↦ rw miss h
  ]

  all_untouched :
      (f : Row → Row) (rows : List Row)
      → ((x : Row) → (f x).id ≡ x.id)
      → All (IsReservedFor q) rows
      → All (IsReservedFor q) (update_row id f rows)
  unfolding update_row
  all_untouched f [] keeps h = h
  all_untouched f (r ∷ rows) keeps h = (untouched f r keeps h.0, all_untouched f rows keeps h.1)

  -- A statement on another row leaves the rows of a running job.
  pub update_row-IsHeld :
      (f : Row → Row) (rows : List Row)
      → ((x : Row) → (f x).id ≡ x.id)
      → IsHeld rows q
      → IsHeld (update_row id f rows) q
  update_row-IsHeld f rows keeps h =
      (all_untouched f rows keeps h.0, any-update_row q.job.id id f rows keeps ∙ h.1)

  delete_row-All :
      (rows : List Row) → All (IsReservedFor q) rows → All (IsReservedFor q) (delete_row id rows)
  unfolding delete_row
  delete_row-All [] h = h
  delete_row-All (r ∷ rows) h = elim (Bool-cases (same r.id id)) [
    | inl hit ↦ rw hit (delete_row-All rows h.1)
    | inr miss ↦ rw miss (h.0, delete_row-All rows h.1)
  ]

  delete_row-any :
      (rows : List Row)
      → any (λ r. same r.id q.job.id) (delete_row id rows) ≡ any (λ r. same r.id q.job.id) rows
  unfolding delete_row
  delete_row-any [] = refl
  delete_row-any (r ∷ rows) = ground (arith, delete_row-any rows, same_iff r.id id, other)

  delete_row-IsHeld : (rows : List Row) → IsHeld rows q → IsHeld (delete_row id rows) q
  delete_row-IsHeld rows h = (delete_row-All rows h.0, delete_row-any rows ∙ h.1)

  finish-IsHeld :
      (faults : Faults) (rows : List Row) → IsHeld rows q → IsHeld (finish faults id rows) q
  unfolding finish
  finish-IsHeld faults rows h =
      either_way (λ x. IsHeld x q) faults.finish h (delete_row-IsHeld rows h)

  release-IsHeld :
      (faults : Faults) (attempts now : ℕ) (rows : List Row)
      → IsHeld rows q
      → IsHeld (release faults id attempts now rows) q
  unfolding release
  release-IsHeld faults attempts now rows h =
      either_way (λ x. IsHeld x q) faults.release h
        (update_row-IsHeld (released attempts now) rows (λ x. refl) h)

module _ (q : Running) (faults : Faults) (j : Job) (other : same j.id q.job.id ≡ false) where
  settle_outcome-IsHeld :
      (o : Outcome) (now : ℕ) (rows : List Row)
      → IsHeld rows q
      → IsHeld (settle_outcome faults o j now rows) q
  unfolding settle_outcome
  settle_outcome-IsHeld succeeded now rows h = finish-IsHeld j.id q other faults rows h
  settle_outcome-IsHeld permanent now rows h = finish-IsHeld j.id q other faults rows h
  settle_outcome-IsHeld failed now rows h =
      either_way (λ x. IsHeld x q) (leb j.max_attempts (suc j.attempts))
        (finish-IsHeld j.id q other faults rows h)
        (release-IsHeld j.id q other faults (suc j.attempts) now rows h)

  settle_with-IsHeld :
      (o : Option (Text → Outcome)) (now : ℕ) (rows : List Row)
      → IsHeld rows q
      → IsHeld (settle_with faults o j now rows) q
  unfolding settle_with
  settle_with-IsHeld none now rows h = finish-IsHeld j.id q other faults rows h
  settle_with-IsHeld (some o) now rows h = settle_outcome-IsHeld (o j.payload) now rows h

  -- Settling a job leaves the rows of another one.
  pub settle-IsHeld :
      (handlers : Handlers) (now : ℕ) (rows : List Row)
      → IsHeld rows q
      → IsHeld (settle faults handlers j now rows) q
  unfolding settle
  settle-IsHeld handlers now rows h = settle_with-IsHeld (lookup j.queue handlers) now rows h

any-append :
    (p : Row → Bool) (rows : List Row) (r : Row) → any p rows ≡ true → any p (rows ++ r ∷ []) ≡ true
any-append p [] r h = ground arith
any-append p (x ∷ rows) r h = ground (arith, any-append p rows r)

taken_apart :
    (id : Text) (rows : List Row) (q : Running)
    → IsHeld rows q
    → any (λ r. same r.id id) rows ≡ false
    → same id q.job.id ≡ false
taken_apart id rows q h free = elim (Bool-cases (same id q.job.id)) [
  | inr apart ↦ apart
  | inl hit ↦
      let found =
        subst (λ k. any (λ r. same r.id k) rows ≡ true) (sym ((same_iff id q.job.id).0 hit)) h.1 in
      ground (arith, found, free)
]

appended-IsHeld :
    (rows : List Row) (r : Row) (q : Running)
    → IsHeld rows q
    → same r.id q.job.id ≡ false
    → IsHeld (rows ++ r ∷ []) q
appended-IsHeld rows r q h apart = (
  All-append (IsReservedFor q) rows (r ∷ []) h.0 ((λ e. ground (arith, e, apart)), tt),
  any-append (λ x. same x.id q.job.id) rows r h.1,
)

-- A row is put in under an identifier that no row has, and so of no running job.
pub enqueue-IsHeld :
    (fails : Bool) (id : Text) (now : ℕ) (t : Task) (rows : List Row) (q : Running)
    → IsHeld rows q
    → IsHeld (enqueue fails id now t rows).1 q
unfolding enqueue
enqueue-IsHeld fails id now t rows q h = elim (Bool-cases (fails || any (λ r. same r.id id) rows)) [
  | inl refused ↦ rw refused h
  | inr free ↦ rw free (appended-IsHeld rows _ q h (taken_apart id rows q h (ground (arith, free))))
]

-- While a job runs its row cannot be claimed.
pub claimable-apart :
    (now : ℕ) (rows : List Row) (r : Row) (q : Running)
    → first_claimable now rows ≡ some r
    → IsHeld rows q
    → now ≤ q.since + job_timeout + finalize_timeout
    → same r.id q.job.id ≡ false
unfolding is_claimable
claimable-apart now rows r q e h timely =
    let held_row = first_claimable-All (IsReservedFor q) now rows h.0 e in
    let free = first_claimable-IsClaimable now rows e in
    elim (Bool-cases (same r.id q.job.id)) [
      | inr apart ↦ apart
      | inl hit ↦ let since = held_row hit in ground arith
    ]

reserved_rows :
    (now : ℕ) (id : Text) (rows : List Row)
    → All (λ r. same r.id id ≡ true → r.reserved_at ≡ some now) (update_row id (reserved now) rows)
unfolding update_row
reserved_rows now id [] = tt
reserved_rows now id (r ∷ rows) = ((λ e. ground arith), reserved_rows now id rows)

-- The row that is claimed is reserved from then on, for the job that is taken on.
pub claimed-IsHeld :
    (now : ℕ) (rows : List Row) (r : Row)
    → first_claimable now rows ≡ some r
    → IsHeld (update_row r.id (reserved now) rows) (record { job = job_of r; since = now })
claimed-IsHeld now rows r e = (
  reserved_rows now r.id rows,
  any-update_row r.id r.id (reserved now) rows (λ x. refl) ∙ first_claimable-any now rows e,
)
