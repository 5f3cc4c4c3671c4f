-- ===== src/Queue/Claims.antt =====
-- Which row a claim takes.
use go_project_starter.Base.{
  ℕ, ◌≡◌, refl, sym, ap, subst, ◌++◌, true, false, ◌&&◌, none, some, List, [], ◌∷◌, arith, any, All,
  All-map, Bool-cases, Option-cases, inl, inr,
}
use go_project_starter.Base.Texts.{same, same_refl}
use go_project_starter.Queue
use go_project_starter.Queue.{
  Row, Job, Outcome, succeeded, permanent, failed, Handlers, Faults, Claim, no_job, claimed, job_of,
  is_claimable, comes_before, earlier, first_claimable, reserved, update_row, delete_row, claim,
  backoff, finish, release, settle, settle_outcome, process_one,
}

-- No row of the list is claimable and comes before `r`.
abbrev pub IsFirst : ℕ → Row → List Row → Type 0
IsFirst now r rows = All (λ q. (is_claimable now q && comes_before q r) ≡ false) rows

abbrev pub NoneClaimable : ℕ → List Row → Type 0
NoneClaimable now rows = All (λ q. is_claimable now q ≡ false) rows

before_irrefl : (r : Row) → comes_before r r ≡ false
unfolding comes_before
before_irrefl r = ground arith

before_trans :
    (a b c : Row) → comes_before a b ≡ true → comes_before b c ≡ true → comes_before a c ≡ true
unfolding comes_before
before_trans a b c h k = ground arith

before_negtrans :
    (a b c : Row) → comes_before a b ≡ false → comes_before b c ≡ false → comes_before a c ≡ false
unfolding comes_before
before_negtrans a b c h k = ground arith

before_asym : (a b : Row) → comes_before b a ≡ true → comes_before a b ≡ false
unfolding comes_before
before_asym a b h = ground arith

-- What is found in a list is its head, or what is found in the rest.
pub data Chosen (now : ℕ) (x : Row) (xs : List Row) (r : Row) : Type 0 where
  alone : r ≡ x → is_claimable now x ≡ true → first_claimable now xs ≡ none → Chosen now x xs r
  ahead :
      (s : Row)
      → r ≡ x
      → is_claimable now x ≡ true
      → first_claimable now xs ≡ some s
      → comes_before s x ≡ false
      → Chosen now x xs r
  in_rest :
      first_claimable now xs ≡ some r
      → (is_claimable now x && comes_before x r) ≡ false
      → Chosen now x xs r

pub chosen :
    (now : ℕ) (x : Row) (xs : List Row) (r : Row)
    → first_claimable now (x ∷ xs) ≡ some r
    → Chosen now x xs r
unfolding first_claimable
chosen now x xs r e = elim (Bool-cases (is_claimable now x)) [
  | inr miss ↦ in_rest (ground arith) (ground arith)
  | inl hit ↦ elim (Option-cases (first_claimable now xs)) [
    | inl empty ↦ alone (ground arith) hit empty
    | inr (s, found) ↦ elim (Bool-cases (comes_before s x)) [
      | inl lt ↦ in_rest (ground arith) (ground (arith, before_asym x s lt))
      | inr ge ↦ ahead s (ground arith) hit found ge
    ]
  ]
]

pub first_claimable-All {ℓ} :
    (P : Row → Type ℓ) (now : ℕ) (rows : List Row) {r : Row}
    → All P rows
    → first_claimable now rows ≡ some r
    → P r
unfolding first_claimable
first_claimable-All P now [] h e = cc
first_claimable-All P now (x ∷ xs) {r} h e = elim (chosen now x xs r e) [
  | alone same_row hit empty ↦ subst P (sym same_row) h.0
  | ahead s same_row hit found ge ↦ subst P (sym same_row) h.0
  | in_rest found lt ↦ first_claimable-All P now xs h.1 found
]

pub first_claimable-none :
    (now : ℕ) (rows : List Row) → first_claimable now rows ≡ none → NoneClaimable now rows
unfolding first_claimable
first_claimable-none now [] e = tt
first_claimable-none now (x ∷ xs) e = elim (Bool-cases (is_claimable now x)) [
  | inl hit ↦ ground arith
  | inr miss ↦ (miss, first_claimable-none now xs (ground arith))
]

pub first_claimable-IsFirst :
    (now : ℕ) (rows : List Row) {r : Row} → first_claimable now rows ≡ some r → IsFirst now r rows
unfolding first_claimable
first_claimable-IsFirst now [] e = cc
first_claimable-IsFirst now (x ∷ xs) {r} e = elim (chosen now x xs r e) [
  | alone same_row hit empty ↦ (
    ground (arith, before_irrefl x, same_row),
    All-map (λ q. is_claimable now q ≡ false) _ (λ q miss. ground arith) xs
        (first_claimable-none now xs empty),
  )
  | ahead s same_row hit found ge ↦ (
    ground (arith, before_irrefl x, same_row),
    All-map (λ q. (is_claimable now q && comes_before q s) ≡ false) _
        (λ q low. ground (arith, before_negtrans q s x, same_row)) xs
        (first_claimable-IsFirst now xs found),
  )
  | in_rest found lt ↦ (lt, first_claimable-IsFirst now xs found)
]

pub first_claimable-IsClaimable :
    (now : ℕ) (rows : List Row) {r : Row}
    → first_claimable now rows ≡ some r
    → is_claimable now r ≡ true
unfolding first_claimable
first_claimable-IsClaimable now [] e = cc
first_claimable-IsClaimable now (x ∷ xs) {r} e = elim (chosen now x xs r e) [
  | alone same_row hit empty ↦ ground (arith, same_row)
  | ahead s same_row hit found ge ↦ ground (arith, same_row)
  | in_rest found lt ↦ first_claimable-IsClaimable now xs found
]

-- The claimed row is one of the table.
pub first_claimable-any :
    (now : ℕ) (rows : List Row) {r : Row}
    → first_claimable now rows ≡ some r
    → any (λ q. same q.id r.id) rows ≡ true
unfolding first_claimable
first_claimable-any now [] e = cc
first_claimable-any now (x ∷ xs) {r} e = elim (chosen now x xs r e) [
  | alone same_row hit empty ↦ ground (arith, same_refl x.id, same_row)
  | ahead s same_row hit found ge ↦ ground (arith, same_refl x.id, same_row)
  | in_rest found lt ↦ ground (arith, first_claimable-any now xs found)
]

-- The row is one of the list.
abbrev pub IsRowOf : Row → List Row → Type 0
IsRowOf r rows = (front : List Row) × (back : List Row) × (rows ≡ front ++ r ∷ back)

IsRowOf-cons : (x r : Row) (xs : List Row) → IsRowOf r xs → IsRowOf r (x ∷ xs)
IsRowOf-cons x r xs (front, back, e) = (x ∷ front, back, ap (λ rs. x ∷ rs) e)

IsRowOf-head : (x r : Row) (xs : List Row) → r ≡ x → IsRowOf r (x ∷ xs)
IsRowOf-head x r xs e = ([], xs, ap (λ q. q ∷ xs) (sym e))

first_claimable-IsRowOf :
    (now : ℕ) (rows : List Row) {r : Row} → first_claimable now rows ≡ some r → IsRowOf r rows
unfolding first_claimable
first_claimable-IsRowOf now [] e = cc
first_claimable-IsRowOf now (x ∷ xs) {r} e = elim (chosen now x xs r e) [
  | alone same_row hit empty ↦ IsRowOf-head x r xs same_row
  | ahead s same_row hit found ge ↦ IsRowOf-head x r xs same_row
  | in_rest found lt ↦ IsRowOf-cons x r xs (first_claimable-IsRowOf now xs found)
]

-- What a claim of a table answers and leaves.
abbrev pub ClaimIsFirst : ℕ → List Row → Claim × List Row → Type 0
ClaimIsFirst now rows (Queue.claim_failed, after) = ⊥
ClaimIsFirst now rows (no_job, after) = NoneClaimable now rows × (after ≡ rows)
ClaimIsFirst now rows (claimed j, after) =
    (r : Row) × IsRowOf r rows
    × (j ≡ job_of r)
    × (is_claimable now r ≡ true)
    × IsFirst now r rows
    × (after ≡ update_row r.id (reserved now) rows)

pub claim-none :
    (now : ℕ) (rows : List Row)
    → first_claimable now rows ≡ none
    → claim false now rows ≡ (no_job, rows)
unfolding claim
claim-none now rows e = ground arith

pub claim-some :
    (now : ℕ) (rows : List Row) (r : Row)
    → first_claimable now rows ≡ some r
    → claim false now rows ≡ (claimed (job_of r), update_row r.id (reserved now) rows)
unfolding claim
claim-some now rows r e = ground arith

-- A claim whose statements do not fail finds no job only where no row is claimable, and then the
-- table is as it was; else it takes a claimable row of the table before which no claimable row
-- comes, and leaves that row reserved at the time, with one attempt more.
pub claim-IsFirst : (now : ℕ) (rows : List Row) → ClaimIsFirst now rows (claim false now rows)
claim-IsFirst now rows = elim (Option-cases (first_claimable now rows)) [
  | inl e ↦ rw (claim-none now rows e) (first_claimable-none now rows e, refl)
  | inr (r, e) ↦ rw (claim-some now rows r e) (
    r,
    first_claimable-IsRowOf now rows e,
    refl,
    first_claimable-IsClaimable now rows e,
    first_claimable-IsFirst now rows e,
    refl,
  )
]
