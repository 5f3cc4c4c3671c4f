-- ===== src/Auth/Repository/Families.antt =====
-- `ListActiveFamilies`: the sessions of a user, grouped and in the order of the SQL statement.
use go_project_starter.Base.{ℕ, Bool, not, ◌&&◌, List, [], ◌∷◌, if◌then◌else◌, ltb, leb, select}
use go_project_starter.Base.Texts.{Text, same}
use go_project_starter.Auth.Domain.RefreshToken.{RefreshToken, RefreshFamily, is_revoked}

-- WHERE user_id = ? AND revoked_at IS NULL AND expires_at > ?
unfoldable pub is_active_of : Text → ℕ → RefreshToken → Bool
unfolding is_revoked
is_active_of user_id now t = same t.user_id user_id && not (is_revoked t) && ltb now t.expires_at

abbrev pub in_family : Text → RefreshToken → Bool
in_family f t = same t.family_id f

-- The values of GROUP BY family_id, in the order of the first row.
unfoldable pub group_keys : List RefreshToken → List Text
group_keys [] = []
group_keys (t ∷ ts) = t.family_id ∷ select (λ f. not (same f t.family_id)) (group_keys ts)

abbrev pub largest : (RefreshToken → ℕ) → List RefreshToken → ℕ
largest key [] = 0
largest key (t ∷ ts) = let rest = largest key ts in if ltb rest (key t) then key t else rest

abbrev pub least : (RefreshToken → ℕ) → List RefreshToken → ℕ
least key [] = 0
least key (t ∷ []) = key t
least key (t ∷ u ∷ ts) = let rest = least key (u ∷ ts) in if ltb (key t) rest then key t else rest

-- MAX(created_at) of a group.
abbrev pub newest : List RefreshToken → Text → ℕ
newest rows f = largest (λ t. t.created_at) (select (in_family f) rows)

-- ORDER BY MAX(created_at) ASC; rows that tie keep the order of their first row.
unfoldable pub insert_by : (Text → ℕ) → Text → List Text → List Text
insert_by key f [] = f ∷ []
insert_by key f (g ∷ gs) =
    let rest = insert_by key f gs in if leb (key f) (key g) then f ∷ g ∷ gs else g ∷ rest

unfoldable pub sort_by : (Text → ℕ) → List Text → List Text
unfolding insert_by
sort_by key [] = []
sort_by key (f ∷ fs) = insert_by key f (sort_by key fs)

unfoldable pub aggregate : List RefreshToken → Text → RefreshFamily
aggregate rows f =
    let group = select (in_family f) rows in
    record {
      id = f;
      created_at = least (λ t. t.created_at) group;
      last_used = largest (λ t. t.updated_at) group;
      expires_at = largest (λ t. t.expires_at) group;
    }

abbrev pub aggregates : List RefreshToken → List Text → List RefreshFamily
aggregates rows [] = []
aggregates rows (f ∷ fs) = aggregate rows f ∷ aggregates rows fs

-- The identifiers of the families that hold an active token, oldest first.
unfoldable pub active_family_ids : Text → ℕ → List RefreshToken → List Text
unfolding is_active_of group_keys sort_by
active_family_ids user_id now ts =
    let rows = select (is_active_of user_id now) ts in sort_by (newest rows) (group_keys rows)

unfoldable pub active_families : Text → ℕ → List RefreshToken → List RefreshFamily
unfolding active_family_ids aggregate
active_families user_id now ts =
    aggregates (select (is_active_of user_id now) ts) (active_family_ids user_id now ts)
