-- ===== src/Rbac/Query/Codes.antt =====
-- Which codes the lists of a user hold, whatever their order: membership in what the statements
-- sort, pass once, or put together.
use go_project_starter.Base.{
  ◌≡◌, refl, sym, Bool, true, ◌&&◌, ◌||◌, List, [], ◌∷◌, ◌++◌, any, arith,
}
use go_project_starter.Base.Texts.{Text, same, same_iff}
use go_project_starter.Rbac.Tables.{
  Role, Permission, Tables, linked, inherits, insert_text, sort_texts, distinct, role_codes,
  permission_codes, roles_of, direct_of, inherited_of,
}
use go_project_starter.Rbac.Query.{unseen, union}

any-insert_text :
    (p : Text → Bool) (s : Text) (ts : List Text) → any p (insert_text s ts) ≡ (p s || any p ts)
unfolding insert_text
any-insert_text p s [] = refl
any-insert_text p s (t ∷ ts) = ground (arith, any-insert_text p s ts)

any-sort_texts : (p : Text → Bool) (ts : List Text) → any p (sort_texts ts) ≡ any p ts
unfolding sort_texts
any-sort_texts p [] = refl
any-sort_texts p (t ∷ ts) = ground (arith, any-insert_text p t (sort_texts ts), any-sort_texts p ts)

any-append : (p : Text → Bool) (ss ts : List Text) → any p (ss ++ ts) ≡ (any p ss || any p ts)
any-append p [] ts = refl
any-append p (s ∷ ss) ts = ground (arith, any-append p ss ts)

-- A text that is the same as a member is a member.
any_of_same : (c s : Text) (ts : List Text) → same c s ≡ true → any (same s) ts ≡ any (same c) ts
any_of_same c s ts e = rw ((same_iff c s).0 e) refl

any-distinct : (c : Text) (ts : List Text) → any (same c) (distinct ts) ≡ any (same c) ts
unfolding distinct
any-distinct c [] = refl
any-distinct c (t ∷ ts) =
    ground (arith, any-distinct c ts, any-distinct t ts, any_of_same c t (distinct ts))

any-unseen :
    (c : Text) (seen ts : List Text)
    → (any (same c) (unseen seen ts) || any (same c) seen) ≡ (any (same c) ts || any (same c) seen)
unfolding unseen
any-unseen c seen [] = refl
any-unseen c seen (t ∷ ts) =
    ground (arith, any-unseen c seen ts, any-unseen c (t ∷ seen) ts, any_of_same c t seen)

any-union :
    (c : Text) (ss ts : List Text)
    → any (same c) (union ss ts) ≡ (any (same c) ss || any (same c) ts)
unfolding union
any-union c ss ts = ground (arith, any-unseen c [] (ss ++ ts), any-append (same c) ss ts)

any-role_codes :
    (c : Text) (p : Text → Bool) (rs : List Role)
    → any (same c) (role_codes p rs) ≡ any (λ (r : Role). p r.id && same c r.code) rs
unfolding role_codes
any-role_codes c p [] = refl
any-role_codes c p (r ∷ rs) = ground (arith, any-role_codes c p rs)

any-permission_codes :
    (c : Text) (p : Text → Bool) (qs : List Permission)
    → any (same c) (permission_codes p qs) ≡ any (λ (q : Permission). p q.id && same c q.code) qs
unfolding permission_codes
any-permission_codes c p [] = refl
any-permission_codes c p (q ∷ qs) = ground (arith, any-permission_codes c p qs)

any_either :
    (p q h : Permission → Bool) (xs : List Permission)
    → any (λ x. (p x || q x) && h x) xs ≡ (any (λ x. p x && h x) xs || any (λ x. q x && h x) xs)
any_either p q h [] = refl
any_either p q h (x ∷ xs) = ground (arith, any_either p q h xs)

-- The user is linked to a role with the code.
abbrev pub holds_role : (user_id code : Text) → Tables → Bool
holds_role user_id code t =
    any (λ (r : Role). linked user_id r.id t.user_roles && same code r.code) t.roles

-- The user, or a role of the user, is linked to a permission with the code.
abbrev pub holds_permission : (user_id code : Text) → Tables → Bool
holds_permission user_id code t =
    any
      (λ (p : Permission).
        (linked user_id p.id t.user_permissions || inherits user_id p.id t) && same code p.code)
      t.permissions

pub any-roles_of : (u c : Text) (t : Tables) → any (same c) (roles_of u t) ≡ holds_role u c t
unfolding roles_of
any-roles_of u c t =
    rw (any-sort_texts (same c) (role_codes (λ id. linked u id t.user_roles) t.roles))
      (any-role_codes c (λ id. linked u id t.user_roles) t.roles)

any-direct_of :
    (u c : Text) (t : Tables)
    → any (same c) (direct_of u t)
      ≡ any (λ (p : Permission). linked u p.id t.user_permissions && same c p.code) t.permissions
unfolding direct_of
any-direct_of u c t =
    rw
      (any-sort_texts (same c)
        (permission_codes (λ id. linked u id t.user_permissions) t.permissions))
      (any-permission_codes c (λ id. linked u id t.user_permissions) t.permissions)

any-inherited_of :
    (u c : Text) (t : Tables)
    → any (same c) (inherited_of u t)
      ≡ any (λ (p : Permission). inherits u p.id t && same c p.code) t.permissions
unfolding inherited_of
any-inherited_of u c t =
    rw
      (
        any-sort_texts (same c) (distinct (permission_codes (λ id. inherits u id t) t.permissions)),
        any-distinct c (permission_codes (λ id. inherits u id t) t.permissions),
      )
      (any-permission_codes c (λ id. inherits u id t) t.permissions)

pub any-union_of :
    (u c : Text) (t : Tables)
    → any (same c) (union (direct_of u t) (inherited_of u t)) ≡ holds_permission u c t
any-union_of u c t =
    rw (any-union c (direct_of u t) (inherited_of u t), any-direct_of u c t, any-inherited_of u c t)
      (sym (
        any_either (λ p. linked u p.id t.user_permissions) (λ p. inherits u p.id t)
          (λ p. same c p.code) t.permissions))
