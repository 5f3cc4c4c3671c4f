-- ===== src/Queue/Drain.antt =====
-- That the queue empties: every turn that is served uses up an attempt, or drops a row.
use go_project_starter.Base.{
  ℕ, zero, suc, ◌+◌, ◌-◌, ◌≤◌, ◌<◌, ◌≡◌, refl, sym, subst, true, false, Option, none, some, List,
  [], ◌∷◌, leb, arith, any, Bool-cases, Option-cases, inl, inr, All, All-map, if◌then◌else◌,
}
use go_project_starter.Base.Texts.{Text, same, same_refl}
use go_project_starter.Queue.{
  Row, Outcome, succeeded, permanent, failed, Handlers, is_claimable, first_claimable, lease,
  update_row, delete_row, process_one,
}
use go_project_starter.Queue.Claims.{
  chosen, alone, ahead, in_rest, first_claimable-any, first_claimable-none,
}
use go_project_starter.Queue.Turn.{
  verdict_of, outcome_of, retried, carried_out, no_faults, process_one_lem,
}

-- The turns that a row may still take.
abbrev pub turns_left : Row → ℕ
turns_left r = suc (r.max_attempts - r.attempts)

abbrev pub work : List Row → ℕ
work [] = 0
work (r ∷ rs) = turns_left r + work rs

work-delete_row-le : (id : Text) (rows : List Row) → work (delete_row id rows) ≤ work rows
unfolding delete_row
work-delete_row-le id [] = omega arith
work-delete_row-le id (r ∷ rows) = ground (arith, work-delete_row-le id rows)

work-delete_row :
    (id : Text) (rows : List Row)
    → any (λ r. same r.id id) rows ≡ true
    → work (delete_row id rows) < work rows
unfolding delete_row
work-delete_row id [] h = absurd (ground arith)
work-delete_row id (r ∷ rows) h =
    ground (arith, work-delete_row id rows, work-delete_row-le id rows)

work-retried-le :
    (id : Text) (t : ℕ) (rows : List Row) → work (update_row id (retried t) rows) ≤ work rows
unfolding update_row
work-retried-le id t [] = omega arith
work-retried-le id t (r ∷ rows) = ground (arith, work-retried-le id t rows)

work-retried_head :
    (t : ℕ) (x : Row) (rows : List Row)
    → suc x.attempts < x.max_attempts
    → work (update_row x.id (retried t) (x ∷ rows)) < work (x ∷ rows)
unfolding update_row
work-retried_head t x rows h = ground (arith, work-retried-le x.id t rows, same_refl x.id)

retried_first :
    (t : ℕ) (x r : Row) (rows : List Row)
    → r ≡ x
    → suc r.attempts < r.max_attempts
    → work (update_row r.id (retried t) (x ∷ rows)) < work (x ∷ rows)
retried_first t x r rows e h =
    subst (λ (q : Row). work (update_row q.id (retried t) (x ∷ rows)) < work (x ∷ rows)) (sym e)
      (work-retried_head t x rows (subst (λ (q : Row). suc q.attempts < q.max_attempts) e h))

work-retried :
    (now t : ℕ) (rows : List Row) {r : Row}
    → first_claimable now rows ≡ some r
    → suc r.attempts < r.max_attempts
    → work (update_row r.id (retried t) rows) < work rows
unfolding update_row first_claimable
work-retried now t [] e h = cc
work-retried now t (x ∷ rows) {r} e h = elim (chosen now x rows r e) [
  | alone same_row hit empty ↦ retried_first t x r rows same_row h
  | ahead s same_row hit found ge ↦ retried_first t x r rows same_row h
  | in_rest found lt ↦ ground (arith, work-retried now t rows found h)
]

carried_out-less :
    (now : ℕ) (rows : List Row) (r : Row) (o : Option Outcome) (later : ℕ)
    → first_claimable now rows ≡ some r
    → work (carried_out (verdict_of o (suc r.attempts) r.max_attempts later) r.id rows) < work rows
carried_out-less now rows r none later e =
    work-delete_row r.id rows (first_claimable-any now rows e)
carried_out-less now rows r (some succeeded) later e =
    work-delete_row r.id rows (first_claimable-any now rows e)
carried_out-less now rows r (some permanent) later e =
    work-delete_row r.id rows (first_claimable-any now rows e)
carried_out-less now rows r (some failed) later e =
    elim (Bool-cases (leb r.max_attempts (suc r.attempts))) [
      | inl last ↦ rw last (work-delete_row r.id rows (first_claimable-any now rows e))
      | inr more ↦ rw more (work-retried now _ rows e (ground arith))
    ]

-- The larger of two.
abbrev max : ℕ → ℕ → ℕ
max a b = if leb a b then b else a

-- When a row can be claimed.
abbrev pub due : Row → ℕ
due r = elim r.reserved_at [ none ↦ r.available_at | some t ↦ max r.available_at (suc (t + lease)) ]

abbrev pub AllDue : ℕ → List Row → Type 0
AllDue now rows = All (λ r. due r ≤ now) rows

-- The time at which the last row comes due.
abbrev pub horizon : List Row → ℕ
horizon [] = 0
horizon (r ∷ rs) = max (due r) (horizon rs)

pub horizon-due : (rows : List Row) → AllDue (horizon rows) rows
horizon-due [] = tt
horizon-due (r ∷ rs) =
    (ground arith, All-map (λ q. due q ≤ horizon rs) _ (λ q h. ground arith) rs (horizon-due rs))

claimable_when_due : (now : ℕ) (r : Row) → due r ≤ now → is_claimable now r ≡ true
unfolding is_claimable
claimable_when_due now r h = elim (Option-cases r.reserved_at) [
  | inl free ↦ ground arith
  | inr (t, since) ↦ ground arith
]

-- Turns of a worker of which no statement fails. What the handlers answer, and the times, may be
-- others at every turn, and may depend on the table.
unfoldable pub run_turns :
    (handlers : ℕ → List Row → Handlers) (now later : ℕ → List Row → ℕ) → ℕ → List Row → List Row
run_turns handlers now later zero rows = rows
run_turns handlers now later (suc n) rows =
    run_turns handlers now later n
      (process_one no_faults false (handlers n rows) (now n rows) (later n rows) rows).1

turn-less :
    (handlers : Handlers) (now later : ℕ) (r : Row) (rs : List Row)
    → due r ≤ now
    → work (process_one no_faults false handlers now later (r ∷ rs)).1 < work (r ∷ rs)
turn-less handlers now later r rs h =
    rw (process_one_lem handlers now later (r ∷ rs))
      (elim (Option-cases (first_claimable now (r ∷ rs))) [
        | inl e ↦
            absurd
              (ground (arith, claimable_when_due now r h, (first_claimable-none now (r ∷ rs) e).0))
        | inr (q, e) ↦ rw e (carried_out-less now (r ∷ rs) q (outcome_of handlers q) later e)
      ])

empty_stays :
    (handlers : Handlers) (now later : ℕ)
    → (process_one no_faults false handlers now later []).1 ≡ []
empty_stays handlers now later =
    rw (process_one_lem handlers now later []) (unfold first_claimable in refl)

-- The queue empties, whatever its handlers answer, at each turn anew: where every turn of a worker
-- comes when each row of the table is due, and none of its statements fails, as many turns as the
-- rows have attempts left, and one for each row, leave no row.
pub queue_drains :
    (handlers : ℕ → List Row → Handlers) (now later : ℕ → List Row → ℕ) (n : ℕ) (rows : List Row)
    → ((k : ℕ) (rs : List Row) → AllDue (now k rs) rs)
    → work rows ≤ n
    → run_turns handlers now later n rows ≡ []
unfolding run_turns
queue_drains handlers now later zero [] timely enough = refl
queue_drains handlers now later zero (r ∷ rs) timely enough = absurd (omega arith)
queue_drains handlers now later (suc n) [] timely enough =
    rw (empty_stays (handlers n []) (now n []) (later n []))
      (queue_drains handlers now later n [] timely (omega arith))
queue_drains handlers now later (suc n) (r ∷ rs) timely enough =
    queue_drains handlers now later n _ timely (
      omega (
        arith,
        turn-less (handlers n (r ∷ rs)) (now n (r ∷ rs)) (later n (r ∷ rs)) r rs
            ((timely n (r ∷ rs)).0),
        enough,
      ))
