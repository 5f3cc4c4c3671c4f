-- ===== src/Auth/Repository/Recovery.antt =====
-- `SaveAll` and `DeleteAll` of `RecoveryCodeRepository`; `Consume` stands beside the codes.
use go_project_starter.Base.{
  Bool, not, ◌&&◌, Option, none, some, List, [], ◌∷◌, ◌++◌, any, select, if◌then◌else◌,
}
use go_project_starter.Base.Texts.{Text, same}
use go_project_starter.Base.Exec.{Result, ok, err}
use go_project_starter.Apierr.{backend}
use go_project_starter.Auth.World.{
  Env, World, RecoveryCode, M, exec, save_recovery, delete_recovery,
}

abbrev is_code_of : Text → RecoveryCode → Bool
is_code_of user_id r = same r.user_id user_id

-- DELETE FROM user_recovery_codes WHERE user_id = ?
unfoldable pub without_codes : Text → List RecoveryCode → List RecoveryCode
without_codes user_id rs = select (λ r. not (is_code_of user_id r)) rs

-- The inserts, which stop at a hash that is there: PRIMARY KEY (user_id, code_hash).
unfoldable pub insert_codes : Text → List Text → List RecoveryCode → Option (List RecoveryCode)
insert_codes user_id [] rs = some rs
insert_codes user_id (hash ∷ hashes) rs =
    let rest =
      insert_codes user_id hashes
        (rs ++ record { user_id = user_id; code_hash = hash; used_at = none } ∷ []) in
    if any (λ (r : RecoveryCode). is_code_of user_id r && same r.code_hash hash) rs
    then none
    else rest

-- The end of the transaction.
unfoldable pub commit_codes : Option (List RecoveryCode) → World → Result (Unit {0}) × World
commit_codes none w = (err backend, w)
commit_codes (some rs) w = (ok tt, record w { recovery = rs })

module _ (env : Env) where
  unfoldable pub save_all : (user_id : Text) → (code_hashes : List Text) → M (Unit {0})
  save_all user_id code_hashes w =
      if env.fails save_recovery
      then (err backend, w)
      else commit_codes (insert_codes user_id code_hashes (without_codes user_id w.recovery)) w

  unfoldable pub delete_all : (user_id : Text) → M (Unit {0})
  delete_all user_id =
      exec env delete_recovery λ w. (tt, record w { recovery = without_codes user_id w.recovery })
