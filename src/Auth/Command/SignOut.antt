-- ===== src/Auth/Command/SignOut.antt =====
-- logout.go and session_revoke.go: a user ends a session of theirs.
use go_project_starter.Base.{not, ◌||◌, Option, none, some, [], ◌∷◌, if◌then◌else◌, any}
use go_project_starter.Base.Texts.{Text, codes, same, is_empty}
use go_project_starter.Base.Exec.{pure, raise, ◌>>=◌, ◌>>◌}
use go_project_starter.Apierr.{invalid, not_found}
use go_project_starter.Audit.{Entry, deleted}
use go_project_starter.Auth.Domain.RefreshToken.{RefreshToken, RefreshFamily}
use go_project_starter.Auth.World.{Env, M, record_best_effort}
use go_project_starter.Auth.Repository.Tokens.{find_by_hash, revoke_family, list_active_families}
use go_project_starter.Auth.Command.Denylist.{deny_family}

module _ (env : Env) where
  abbrev pub ended_entry : Text → Text → Text → Entry
  ended_entry subject_type subject_id user_id = record {
    subject_type = subject_type;
    subject_id = subject_id;
    action = deleted;
    old_values = (codes "user_id", user_id) ∷ [];
    new_values = [];
    actor = env.actor;
  }

  unfoldable pub end_session : Text → Entry → M (Unit {0})
  end_session family_id entry = do
    deny_family env family_id
    revoke_family env family_id
    record_best_effort env entry

  unfoldable pub logout_token : Text → Option RefreshToken → M (Unit {0})
  logout_token user_id none = pure tt
  logout_token user_id (some t) =
      if not (same t.user_id user_id)
      then pure tt
      else end_session t.family_id (ended_entry (codes "refresh_tokens") t.id t.user_id)

  -- `Logout.Execute`.
  unfoldable pub logout : (user_id refresh_token : Text) → M (Unit {0})
  logout user_id refresh_token =
      if is_empty refresh_token
      then pure tt
      else (do t ← find_by_hash env (env.hashes.hash_secret refresh_token); logout_token user_id t)

  -- `SessionRevoke.Execute`.
  unfoldable pub session_revoke : (user_id family_id : Text) → M (Unit {0})
  session_revoke user_id family_id =
      if is_empty user_id || is_empty family_id then raise invalid else (do
        families ← list_active_families env user_id
        if any (λ (f : RefreshFamily). same f.id family_id) families
            then end_session family_id (ended_entry (codes "sessions") family_id user_id)
            else raise not_found)
