-- ===== src/Auth/Repository/Users.antt =====
-- The queries of `UserRepository`. A column that is NULL is no value, and equals none.
use go_project_starter.Base.{
  Bool, false, not, ◌&&◌, ◌||◌, Option, none, some, List, [], ◌∷◌, find, any, if◌then◌else◌,
}
use go_project_starter.Base.Exec.{ok, err}
use go_project_starter.Apierr.{backend}
use go_project_starter.Base.Texts.{Text, same}
use go_project_starter.Auth.Domain.User.{User}
use go_project_starter.Auth.World.{Env, M, query, find_user, update_user}

abbrev pub is_value : Text → Option Text → Bool
is_value v none = false
is_value v (some s) = same s v

unfoldable pub user_by_id : Text → List User → Option User
user_by_id id = find (λ u. same u.id id)

unfoldable pub user_by_email : Text → List User → Option User
user_by_email email = find (λ u. is_value email u.email)

unfoldable pub user_by_phone : Text → List User → Option User
user_by_phone phone = find (λ u. is_value phone u.phone)

module _ (env : Env) where
  unfoldable pub find_by_id : Text → M (Option User)
  find_by_id id = query env find_user (λ w. user_by_id id w.users)

  unfoldable pub find_by_email : Text → M (Option User)
  find_by_email email = query env find_user (λ w. user_by_email email w.users)

  unfoldable pub find_by_phone : Text → M (Option User)
  find_by_phone phone = query env find_user (λ w. user_by_phone phone w.users)

-- UNIQUE (email), UNIQUE (phone): another row has the address.
abbrev shares : Option Text → Option Text → Bool
shares none o = false
shares (some v) o = is_value v o

unfoldable pub is_taken : User → List User → Bool
is_taken u users =
    any (λ r. not (same r.id u.id) && (shares u.email r.email || shares u.phone r.phone)) users

-- Every column but the primary key and created_at.
unfoldable pub update_row : User → List User → List User
update_row u [] = []
update_row u (r ∷ rs) =
    (if same r.id u.id then record u { id = r.id; created_at = r.created_at } else r)
    ∷ update_row u rs

module _ (env : Env) where
  unfoldable pub update : User → M (Unit {0})
  update u w =
      if env.fails update_user || is_taken u w.users
      then (err backend, w)
      else (ok tt, record w { users = update_row u w.users })
