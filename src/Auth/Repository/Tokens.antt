-- ===== src/Auth/Repository/Tokens.antt =====
-- The statements of `RefreshTokenRepository` over refresh_tokens.
pub mod Laws
use go_project_starter.Base.{
  ℕ, Bool, true, false, not, ◌&&◌, ◌||◌, Option, none, some, List, [], ◌∷◌, ◌++◌, if◌then◌else◌,
  any, find,
}
use go_project_starter.Base.Texts.{Text, same}
use go_project_starter.Base.Exec.{Result, ok, err, Exec}
use go_project_starter.Apierr.{backend}
use go_project_starter.Auth.Domain.User.{User}
use go_project_starter.Auth.Domain.RefreshToken.{RefreshToken, RefreshFamily, is_revoked, revoke}
use go_project_starter.Auth.Repository.Families.{active_families}
use go_project_starter.Auth.World.{Env, World, M, query, exec}
use go_project_starter.Auth.World

-- SELECT … WHERE token_hash = ?
unfoldable pub token_by_hash : Text → List RefreshToken → Option RefreshToken
token_by_hash hash = find (λ t. same t.token_hash hash)

-- UPDATE … SET revoked_at = ?, updated_at = ? WHERE … AND revoked_at IS NULL
unfoldable pub revoke_where : (RefreshToken → Bool) → ℕ → List RefreshToken → List RefreshToken
revoke_where p now [] = []
revoke_where p now (t ∷ ts) =
    (if p t && not (is_revoked t) then revoke now t else t) ∷ revoke_where p now ts

-- RowsAffected() > 0 of that statement.
unfoldable pub revokes_any : (RefreshToken → Bool) → List RefreshToken → Bool
revokes_any p ts = any (λ t. p t && not (is_revoked t)) ts

-- SELECT jti … WHERE …
unfoldable pub jtis_where : (RefreshToken → Bool) → List RefreshToken → List Text
jtis_where p [] = []
jtis_where p (t ∷ ts) = let rest = jtis_where p ts in if p t then t.jti ∷ rest else rest

abbrev pub has_id : Text → RefreshToken → Bool
has_id id t = same t.id id

abbrev pub of_user : Text → RefreshToken → Bool
of_user user_id t = same t.user_id user_id

abbrev pub of_family : Text → RefreshToken → Bool
of_family family_id t = same t.family_id family_id

-- The keys of the table: the primary key, UNIQUE (token_hash), and the user that must be there.
unfoldable pub is_insertable : RefreshToken → List RefreshToken → List User → Bool
is_insertable t ts users =
    not (any (λ r. same r.id t.id || same r.token_hash t.token_hash) ts)
    && any (λ u. same u.id t.user_id) users

module _ (env : Env) where
  unfoldable pub save : RefreshToken → M (Unit {0})
  save t w =
      if env.fails World.save_token || not (is_insertable t w.tokens w.users)
      then (err backend, w)
      else (ok tt, record w { tokens = w.tokens ++ t ∷ [] })

  unfoldable pub find_by_hash : Text → M (Option RefreshToken)
  find_by_hash hash = query env World.find_by_hash (λ w. token_by_hash hash w.tokens)

  unfoldable pub revoke_by_id_if_active : Text → M Bool
  revoke_by_id_if_active id = exec env World.revoke_if_active λ w. (
    revokes_any (has_id id) w.tokens,
    record w { tokens = revoke_where (has_id id) w.now w.tokens },
  )

  unfoldable pub revoke_by_user_id : Text → M (Unit {0})
  revoke_by_user_id user_id =
      exec env (World.revoke_user user_id)
        λ w. (tt, record w { tokens = revoke_where (of_user user_id) w.now w.tokens })

  unfoldable pub revoke_family : Text → M (Unit {0})
  revoke_family family_id =
      exec env (World.revoke_family family_id)
        λ w. (tt, record w { tokens = revoke_where (of_family family_id) w.now w.tokens })

  unfoldable pub jtis_by_family : Text → M (List Text)
  jtis_by_family family_id =
      query env (World.jtis_by_family family_id) (λ w. jtis_where (of_family family_id) w.tokens)

  unfoldable pub jtis_by_user : Text → M (List Text)
  jtis_by_user user_id =
      query env (World.jtis_by_user user_id) (λ w. jtis_where (of_user user_id) w.tokens)

  unfoldable pub list_active_families : Text → M (List RefreshFamily)
  list_active_families user_id =
      query env World.list_families (λ w. active_families user_id w.now w.tokens)
