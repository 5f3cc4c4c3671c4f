-- ===== src/Auth/Session/Owned.antt =====
-- SessionRevoke of session_revoke.go and ListActiveFamilies: only a session in which the user has an
-- active token is theirs to revoke.
use go_project_starter.Base.{
  ℕ, Bool, true, false, not, ◌&&◌, ◌||◌, List, [], ◌∷◌, if◌then◌else◌, any, is_some, ltb, select,
  ◌≡◌, refl, ◌∙◌, sym, arith, Bool-cases, inl, inr,
}
use go_project_starter.Base.Texts.{Text, same, is_empty}
use go_project_starter.Base.Exec.{err, raise, ◌>>=◌}
use go_project_starter.Apierr.{invalid, backend, not_found}
use go_project_starter.Auth.Domain.RefreshToken.{RefreshToken, RefreshFamily, is_revoked}
use go_project_starter.Auth.World
use go_project_starter.Auth.World.{Env, World, query}
use go_project_starter.Auth.Repository.Families.{
  is_active_of, group_keys, insert_by, sort_by, aggregate, aggregates, newest, active_family_ids,
  active_families,
}
use go_project_starter.Auth.Repository.Tokens.{list_active_families}
use go_project_starter.Auth.Command.SignOut.{session_revoke}

-- The user has a token in the session that is not revoked and does not expire yet, by the rows of
-- the table.
abbrev pub owns : (user_id family_id : Text) → ℕ → List RefreshToken → Bool
owns user_id family_id now ts =
    any
      (λ (t : RefreshToken).
        (same t.user_id user_id && not (is_some t.revoked_at) && ltb now t.expires_at)
        && same t.family_id family_id)
      ts

any-insert_by :
    (p : Text → Bool) (key : Text → ℕ) (g : Text) (gs : List Text)
    → any p (insert_by key g gs) ≡ (p g || any p gs)
unfolding insert_by
any-insert_by p key g [] = ground arith
any-insert_by p key g (h ∷ gs) = ground (arith, any-insert_by p key g gs)

any-sort_by :
    (p : Text → Bool) (key : Text → ℕ) (gs : List Text) → any p (sort_by key gs) ≡ any p gs
unfolding sort_by
any-sort_by p key [] = refl
any-sort_by p key (g ∷ gs) =
    ground (arith, any-insert_by p key g (sort_by key gs), any-sort_by p key gs)

any-select {ℓ} :
    {A : Type ℓ} (p q : A → Bool) (xs : List A) → any p (select q xs) ≡ any (λ x. q x && p x) xs
any-select p q [] = refl
any-select p q (x ∷ xs) = ground (arith, any-select p q xs)

-- A text that is one of the selected is one of all.
any-both {ℓ} :
    {A : Type ℓ} (p q : A → Bool) (xs : List A) → any (λ x. q x && p x) xs ≡ true → any p xs ≡ true
any-both p q (x ∷ xs) h = ground (arith, any-both p q xs)
any-both p q [] h = h

any-group_keys :
    (f : Text) (ts : List RefreshToken)
    → any (λ g. same g f) (group_keys ts) ≡ true
    → any (λ (t : RefreshToken). same t.family_id f) ts ≡ true
unfolding group_keys
any-group_keys f [] h = h
any-group_keys f (t ∷ ts) h = elim (Bool-cases (same t.family_id f)) [
  | inl hit ↦ ground arith
  | inr miss ↦
      let other = λ (g : Text). not (same g t.family_id) in
      let rest : any (λ g. same g f) (select other (group_keys ts)) ≡ true = rw miss at h in
      let later = any-group_keys f ts (
        any-both (λ g. same g f) other (group_keys ts)
          (sym (any-select (λ g. same g f) other (group_keys ts)) ∙ rest)) in
      ground (arith, later)
]

any-aggregates :
    (f : Text) (rows : List RefreshToken) (fs : List Text)
    → any (λ (x : RefreshFamily). same x.id f) (aggregates rows fs) ≡ any (λ g. same g f) fs
unfolding aggregate
any-aggregates f rows [] = refl
any-aggregates f rows (g ∷ fs) = ground (arith, any-aggregates f rows fs)

-- A session that is listed for a user is one in which the user has an active token.
listed-owns :
    (user_id family_id : Text) (now : ℕ) (ts : List RefreshToken)
    → owns user_id family_id now ts ≡ false
    → any (λ (x : RefreshFamily). same x.id family_id) (active_families user_id now ts) ≡ false
unfolding active_families active_family_ids is_active_of is_revoked
listed-owns user_id family_id now ts h =
    elim (Bool-cases (any listed (active_families user_id now ts))) [
      | inr absent ↦ absent
      | inl present ↦
          let ids = group_keys rows in
          let grouped : any (λ g. same g family_id) ids ≡ true =
            sym (any-sort_by (λ g. same g family_id) (newest rows) ids)
            ∙ (sym (any-aggregates family_id rows (sort_by (newest rows) ids)) ∙ present) in
          let owned =
            sym (any-select (λ (t : RefreshToken). same t.family_id family_id) active ts)
            ∙ any-group_keys family_id rows grouped in
          absurd (ground (arith, owned))
    ]
  where
    listed : RefreshFamily → Bool
    listed x = same x.id family_id

    active : RefreshToken → Bool
    active = is_active_of user_id now

    rows : List RefreshToken
    rows = select active ts

module _ (env : Env) where
  -- Revoking a session in which the user has no active token changes nothing, whatever calls fail:
  -- it is answered by invalid where a name is empty, by an error where the sessions cannot be read,
  -- and else by not found.
  pub session_revoke_of_other :
      (user_id family_id : Text) (w : World)
      → owns user_id family_id w.now w.tokens ≡ false
      → session_revoke env user_id family_id w ≡ (
        err (
            if is_empty user_id || is_empty family_id
            then invalid
            else if env.fails World.list_families
            then backend
            else not_found),
        w,
      )
  unfolding session_revoke list_active_families query raise ◌>>=◌
  session_revoke_of_other user_id family_id w h =
      let absent = listed-owns user_id family_id w.now w.tokens h in ground (arith, absent)
