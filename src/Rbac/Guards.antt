-- ===== src/Rbac/Guards.antt =====
-- Who may give and take the role super_admin: what the primary keys of the tables say of the rows
-- that a use case finds, and runs of which only the last step writes.
pub mod Links
pub mod Revoke
pub mod Assign
use go_project_starter.Base.{
  ◌≡◌, refl, subst, sym, Bool, true, false, not, ◌&&◌, ◌||◌, Option, none, some, List, [], ◌∷◌,
  arith, any, find, if◌then◌else◌, Bool-cases, inl, inr,
}
use go_project_starter.Base.Texts.{Text, same, same_iff, same_refl, same_sym}
use go_project_starter.Base.Exec.{
  Result, ok, err, Exec, followed_by, ◌>>=◌, ◌>>◌, Keeps, Keeps-bind,
}
use go_project_starter.Rbac.Tables.{Role, Link, Tables, linked, role_by_code}
use go_project_starter.Audit.{Entry}
use go_project_starter.Rbac.World.{Env, World, M, read, write, record_best_effort}
use go_project_starter.Rbac.Cache.{bump, bump_checked}
use go_project_starter.Rbac.Repository.Roles.{has_role_id, find_by_code}

-- PRIMARY KEY (id)
abbrev pub IsKeyedRoles : List Role → Type 0
IsKeyedRoles [] = Unit
IsKeyedRoles (r ∷ rs) = (any (has_role_id r.id) rs ≡ false) × IsKeyedRoles rs

-- PRIMARY KEY (user_id, role_id)
abbrev pub IsKeyedLinks : List Link → Type 0
IsKeyedLinks [] = Unit
IsKeyedLinks (l ∷ ls) = (linked l.left l.right ls ≡ false) × IsKeyedLinks ls

pub some_injective : {x y : Role} → some x ≡ some y → x ≡ y
some_injective h = cc

-- A role that was found has the code, and its identifier is in the table.
pub role_by_code-eq-some :
    (c : Text) (rs : List Role) {r : Role}
    → role_by_code c rs ≡ some r
    → (r.code ≡ c) × (any (has_role_id r.id) rs ≡ true)
unfolding role_by_code
role_by_code-eq-some c [] e = absurd cc
role_by_code-eq-some c (q ∷ qs) {r} e = elim (Bool-cases (same q.code c)) [
  | inl hit ↦
      let found : q ≡ r = some_injective (rw hit at e) in
      subst (λ (x : Role). (x.code ≡ c) × (any (has_role_id x.id) (q ∷ qs) ≡ true)) found
        ((same_iff q.code c).0 hit, rw (same_refl q.id) refl)
  | inr miss ↦
      let (code, there) = role_by_code-eq-some c qs (rw miss at e) in
      (code, rw there (ground arith))
]

not_among :
    (a b : Text) (rs : List Role)
    → any (has_role_id a) rs ≡ false
    → any (has_role_id b) rs ≡ true
    → same a b ≡ false
not_among a b rs without within = elim (Bool-cases (same a b)) [
  | inl hit ↦ absurd (ground (arith, rw ((same_iff a b).0 hit) at without, within))
  | inr miss ↦ miss
]

-- Roles of different codes have different identifiers.
pub apart_ids :
    (b c : Text) (rs : List Role) {q r : Role}
    → IsKeyedRoles rs
    → role_by_code b rs ≡ some q
    → role_by_code c rs ≡ some r
    → same q.code r.code ≡ false
    → same q.id r.id ≡ false
unfolding role_by_code
apart_ids b c [] keyed eq er apart = absurd cc
apart_ids b c (x ∷ xs) {q} {r} keyed eq er apart = elim (Bool-cases (same x.code b)) [
  | inl hit ↦
      let first : x ≡ q = some_injective (rw hit at eq) in
      elim (Bool-cases (same x.code c)) [
        | inl hit' ↦
            let second : x ≡ r = some_injective (rw hit' at er) in
            absurd (ground (arith, rw (← first, ← second) at apart, same_refl x.code))
        | inr miss' ↦
            subst (λ (y : Role). same y.id r.id ≡ false) first
              (not_among x.id r.id xs keyed.0 (role_by_code-eq-some c xs (rw miss' at er)).1)
      ]
  | inr miss ↦ elim (Bool-cases (same x.code c)) [
    | inl hit' ↦
        let second : x ≡ r = some_injective (rw hit' at er) in
        subst (λ (y : Role). same q.id y.id ≡ false) second
          (same_sym x.id q.id
            (not_among x.id q.id xs keyed.0 (role_by_code-eq-some b xs (rw miss at eq)).1))
    | inr miss' ↦ apart_ids b c xs keyed.1 (rw miss at eq) (rw miss' at er) apart
  ]
]

-- A role that was found, where no role with its code passes a test of identifiers.
pub found_unheld :
    (c : Text) (p : Text → Bool) (rs : List Role) {r : Role}
    → role_by_code c rs ≡ some r
    → any (λ (x : Role). p x.id && same c x.code) rs ≡ false
    → p r.id ≡ false
unfolding role_by_code
found_unheld c p [] e h = absurd cc
found_unheld c p (x ∷ xs) {r} e h = elim (Bool-cases (same x.code c)) [
  | inl hit ↦
      subst (λ (y : Role). p y.id ≡ false) (some_injective (rw hit at e))
        (ground (arith, same_iff x.code c, same_refl c))
  | inr miss ↦ found_unheld c p xs (rw miss at e) (ground arith)
]

-- What a use case has of a role that it looked up.
abbrev pub IsFound : World → Option Role → Type 0
IsFound w none = Unit
IsFound w (some q) = role_by_code q.code w.tables.roles ≡ some q

looked_up-IsFound :
    (w : World) (c : Text) (o : Option Role) → role_by_code c w.tables.roles ≡ o → IsFound w o
looked_up-IsFound w c none e = tt
looked_up-IsFound w c (some q) e =
    subst (λ code. role_by_code code w.tables.roles ≡ some q)
      (sym (role_by_code-eq-some c w.tables.roles e).0) e

pub find_by_code-IsFound :
    (env : Env) (c : Text) (w : World) {o : Option Role}
    → (find_by_code env c w).0 ≡ ok o
    → IsFound w o
unfolding find_by_code read
find_by_code-IsFound env c w {o} e = looked_up-IsFound w c o (ground arith)

module _ {A B : Type 0} (Q : World → Type 0) where
  followed_by-ends :
      (k : A → M B) (w : World) (r : Result A)
      → Q w
      → ((a : A) → r ≡ ok a → Q (k a w).1)
      → Q (followed_by k w r).1
  followed_by-ends k w (ok a) stays goes = goes a refl
  followed_by-ends k w (err e) stays goes = stays

  -- After a step that leaves the world, and what follows where the step returns.
  pub bind-ends :
      (m : M A) (k : A → M B) (w : World)
      → (m w).1 ≡ w
      → Q w
      → ((a : A) → (m w).0 ≡ ok a → Q (k a w).1)
      → Q ((m >>= k) w).1
  unfolding ◌>>=◌
  bind-ends m k w left stays goes =
      subst (λ v. Q (followed_by k v (m w).0).1) (sym left)
        (followed_by-ends k w (m w).0 stays goes)

  -- After a step that writes, and what keeps what it wrote.
  pub write-ends :
      (m : M A) (k : A → M B) (w : World)
      → Q (m w).1
      → ((a : A) → Keeps Q (k a))
      → Q ((m >>= k) w).1
  unfolding ◌>>=◌
  write-ends m k w wrote kept =
      followed_by-ends k (m w).1 (m w).0 wrote (λ a _. (kept a).at (m w).1 wrote)

-- A bump and an entry of the audit trail leave the tables.
pub noted-Keeps :
    (env : Env) (P : Tables → Type 0) (e : Entry)
    → Keeps (λ (w : World). P w.tables) (bump_checked env >> record_best_effort env e)
unfolding bump_checked bump write record_best_effort
noted-Keeps env P e =
    Keeps-bind (bump_checked env) (λ _. record_best_effort env e)
      (record { at = λ w h. subst P (sym (bumped w)) h })
      (λ _. record { at = λ w h. subst P (sym (recorded w)) h })
  where
    bumped : (w : World) → (bump_checked env w).1.tables ≡ w.tables
    bumped w = ground arith

    recorded : (w : World) → (record_best_effort env e w).1.tables ≡ w.tables
    recorded w = ground arith
