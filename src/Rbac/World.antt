-- ===== src/Rbac/World.antt =====
-- What the use cases of internal/modules/rbac work on: the tables, the cache and the audit trail
-- (`World`), and what they are given (`Env`). Every call of a driver may fail, as `fails` says, and
-- a call that fails has no effect; the read pool is the write pool.
use go_project_starter.Base.{ℕ, suc, Bool, Option, List, [], ◌∷◌, ◌++◌, if◌then◌else◌, ℤ}
use go_project_starter.Base.Texts.{Text}
use go_project_starter.Base.Exec.{ok, err, Exec}
use go_project_starter.Apierr.{backend}
use go_project_starter.Audit.{Actor, Entry}
use go_project_starter.Cache.{Memory}
use go_project_starter.Rbac.Tables.{Tables}

pub record World : Type 0 where
  pub now : ℕ
  pub drawn : ℕ
  -- the identifiers in the table users
  pub users : List Text
  pub tables : Tables
  pub cache : Memory
  pub trail : List Entry

-- The calls of a driver that may fail.
pub data Call : Type 0 where
  roles_find roles_list roles_all_codes roles_save roles_delete roles_update roles_set
        roles_permissions :
      Call
  permissions_find permissions_list permissions_save permissions_delete permissions_update : Call
  access_roles access_direct access_inherited access_count : Call
  access_assign access_revoke access_grant access_withdraw : Call
  -- the first and the second try of `bumpChecked`
  version_bump version_bump_again version_get entry_get entry_set audit_record : Call

-- What the cache keeps of a user, as JSON.
pub record UserEntry : Type 0 where
  pub version : ℤ
  pub roles : List Text
  pub permissions : List Text

pub record Env : Type 0 where
  pub fails : Call → Bool
  pub fresh_id : ℕ → Text
  -- `json.Marshal` and `json.Unmarshal` of a user's entry
  pub encode_entry : UserEntry → Text
  pub decode_entry : Text → Option UserEntry
  -- PostgreSQL, where a missing key is an error of an INSERT; MySQL's INSERT IGNORE passes it over
  pub postgres : Bool
  -- whether a cache and an auditor are wired
  pub has_cache : Bool
  pub has_auditor : Bool
  pub ttl : ℤ
  -- `IdentityFrom`: none for the program itself
  pub caller : Option Text
  pub actor : Actor

abbrev pub M : Type 0 → Type 0
M A = Exec World A

module _ (env : Env) where
  unfoldable pub read : {A : Type 0} → Call → (World → A) → M A
  read c f w = (if env.fails c then err backend else ok (f w), w)

  unfoldable pub write : {A : Type 0} → Call → (World → A × World) → M A
  write c f w = if env.fails c then (err backend, w) else (ok (f w).0, (f w).1)

  -- `newID()`
  unfoldable pub new_id : M Text
  new_id w = (ok (env.fresh_id w.drawn), record w { drawn = suc w.drawn })

  -- `audit.RecordBestEffort`, and nothing where no auditor is wired.
  unfoldable pub record_best_effort : Entry → M (Unit {0})
  record_best_effort e w = (
    ok tt,
    if env.has_auditor
        then (if env.fails audit_record then w else record w { trail = w.trail ++ e ∷ [] })
        else w,
  )
