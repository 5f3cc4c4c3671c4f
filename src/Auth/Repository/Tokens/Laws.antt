-- ===== src/Auth/Repository/Tokens/Laws.antt =====
-- How the rows of refresh_tokens may change, and what the revoking statements leave.
use go_project_starter.Base.{
  ℕ, Bool, true, false, not, ◌&&◌, some, List, [], ◌∷◌, ◌++◌, if◌then◌else◌, ◌≡◌, refl, ◌∙◌, ap,
  subst, arith, Bool-cases, inl, inr, All,
}
use go_project_starter.Base.Texts.{Text, same}
use go_project_starter.Auth.Domain.RefreshToken.{RefreshToken, is_revoked, revoke}
use go_project_starter.Auth.Repository.Tokens.{token_by_hash, revoke_where, of_family}

-- A row keeps its identity, and once revoked it keeps the time at which that was done.
pub record Follows (old new : RefreshToken) : Type 0 where
  pub id : new.id ≡ old.id
  pub user_id : new.user_id ≡ old.user_id
  pub family_id : new.family_id ≡ old.family_id
  pub jti : new.jti ≡ old.jti
  pub token_hash : new.token_hash ≡ old.token_hash
  pub expires_at : new.expires_at ≡ old.expires_at
  pub created_at : new.created_at ≡ old.created_at
  pub revoked : is_revoked old ≡ true → new.revoked_at ≡ old.revoked_at

-- Rows are changed in place or added behind, and never removed.
abbrev pub Grows : List RefreshToken → List RefreshToken → Type 0
Grows [] new = Unit
Grows (t ∷ ts) [] = ⊥
Grows (t ∷ ts) (u ∷ us) = Follows t u × Grows ts us

Follows-refl : (t : RefreshToken) → Follows t t
Follows-refl t = record {
  id = refl;
  user_id = refl;
  family_id = refl;
  jti = refl;
  token_hash = refl;
  expires_at = refl;
  created_at = refl;
  revoked = λ h. refl;
}

pub is_revoked-Follows :
    (t u : RefreshToken) → Follows t u → is_revoked t ≡ true → is_revoked u ≡ true
unfolding is_revoked
is_revoked-Follows t u f h = ground (arith, f.revoked h)

Follows-trans : (t u v : RefreshToken) → Follows t u → Follows u v → Follows t v
Follows-trans t u v f g = record {
  id = g.id ∙ f.id;
  user_id = g.user_id ∙ f.user_id;
  family_id = g.family_id ∙ f.family_id;
  jti = g.jti ∙ f.jti;
  token_hash = g.token_hash ∙ f.token_hash;
  expires_at = g.expires_at ∙ f.expires_at;
  created_at = g.created_at ∙ f.created_at;
  revoked = λ h. g.revoked (is_revoked-Follows t u f h) ∙ f.revoked h;
}

pub Grows-refl : (ts : List RefreshToken) → Grows ts ts
Grows-refl [] = tt
Grows-refl (t ∷ ts) = (Follows-refl t, Grows-refl ts)

pub Grows-trans : (ts us vs : List RefreshToken) → Grows ts us → Grows us vs → Grows ts vs
Grows-trans [] us vs g h = tt
Grows-trans (t ∷ ts) (u ∷ us) [] g h = h
Grows-trans (t ∷ ts) (u ∷ us) (v ∷ vs) g h =
    (Follows-trans t u v g.0 h.0, Grows-trans ts us vs g.1 h.1)
Grows-trans (t ∷ ts) [] vs g h = absurd g

pub Grows-append : (ts us vs : List RefreshToken) → Grows ts us → Grows ts (us ++ vs)
Grows-append [] us vs g = tt
Grows-append (t ∷ ts) [] vs g = absurd g
Grows-append (t ∷ ts) (u ∷ us) vs g = (g.0, Grows-append ts us vs g.1)

abbrev pub revoke_row : (RefreshToken → Bool) → ℕ → RefreshToken → RefreshToken
revoke_row p now t = if p t && not (is_revoked t) then revoke now t else t

Follows-revoke_row :
    (p : RefreshToken → Bool) (now : ℕ) (t : RefreshToken) → Follows t (revoke_row p now t)
unfolding revoke is_revoked
Follows-revoke_row p now t = record {
  id = ground arith;
  user_id = ground arith;
  family_id = ground arith;
  jti = ground arith;
  token_hash = ground arith;
  expires_at = ground arith;
  created_at = ground arith;
  revoked = λ h. ground arith;
}

pub Grows-revoke_where :
    (p : RefreshToken → Bool) (now : ℕ) (ts : List RefreshToken) → Grows ts (revoke_where p now ts)
unfolding revoke_where
Grows-revoke_where p now [] = tt
Grows-revoke_where p now (t ∷ ts) = (Follows-revoke_row p now t, Grows-revoke_where p now ts)

-- A token that is found by its hash is found again when the rows have grown, as its successor.
pub token_by_hash-Grows :
    (hash : Text) (ts us : List RefreshToken) (t : RefreshToken)
    → Grows ts us
    → token_by_hash hash ts ≡ some t
    → (u : RefreshToken) × (token_by_hash hash us ≡ some u) × Follows t u
unfolding token_by_hash
token_by_hash-Grows hash [] us t g h = cc
token_by_hash-Grows hash (t' ∷ ts) [] t g h = absurd g
token_by_hash-Grows hash (t' ∷ ts) (u' ∷ us) t g h = elim (Bool-cases (same t'.token_hash hash)) [
  | inl hit ↦
      let e : t' ≡ t = ground arith in
      (u', rw (g.0.token_hash, hit), subst (λ x. Follows x u') e g.0)
  | inr miss ↦
      let (u, found, f) = token_by_hash-Grows hash ts us t g.1 (ground arith) in
      (u, rw (g.0.token_hash, miss) found, f)
]

pub token_by_hash-revoke_where :
    (hash : Text) (p : RefreshToken → Bool) (now : ℕ) (ts : List RefreshToken) (t : RefreshToken)
    → token_by_hash hash ts ≡ some t
    → token_by_hash hash (revoke_where p now ts) ≡ some (revoke_row p now t)
unfolding token_by_hash revoke_where
token_by_hash-revoke_where hash p now [] t h = cc
token_by_hash-revoke_where hash p now (t' ∷ ts) t h =
    let same_hash = (Follows-revoke_row p now t').token_hash in
    elim (Bool-cases (same t'.token_hash hash)) [
      | inl hit ↦
          let e : t' ≡ t = ground arith in
          rw (same_hash, hit) (ap (λ x. some (revoke_row p now x)) e)
      | inr miss ↦ rw (same_hash, miss) (token_by_hash-revoke_where hash p now ts t (ground arith))
    ]

-- Every row that the statement selects is revoked afterwards.
pub revoke_where_revokes :
    (p : RefreshToken → Bool) (now : ℕ) (t : RefreshToken)
    → p t ≡ true
    → is_revoked (revoke_row p now t) ≡ true
unfolding is_revoked revoke
revoke_where_revokes p now t h = ground arith

-- No row of a family is unrevoked.
abbrev pub IsEnded : Text → List RefreshToken → Type 0
IsEnded family_id ts = All (λ t. (same t.family_id family_id && not (is_revoked t)) ≡ false) ts

revoke_row-IsEnded :
    (family_id : Text) (now : ℕ) (t : RefreshToken)
    → (same (revoke_row (of_family family_id) now t).family_id family_id
        && not (is_revoked (revoke_row (of_family family_id) now t)))
      ≡ false
unfolding is_revoked revoke
revoke_row-IsEnded family_id now t = ground arith

pub revoke_where-IsEnded :
    (family_id : Text) (now : ℕ) (ts : List RefreshToken)
    → IsEnded family_id (revoke_where (of_family family_id) now ts)
unfolding revoke_where
revoke_where-IsEnded family_id now [] = tt
revoke_where-IsEnded family_id now (t ∷ ts) =
    (revoke_row-IsEnded family_id now t, revoke_where-IsEnded family_id now ts)
