-- ===== src/Audit.antt =====
-- internal/application/audit/audit.go: the entries of the audit trail.
use go_project_starter.Base.{List}
use go_project_starter.Base.Texts.{Text}

pub data Action : Type 0 where
  created updated deleted : Action

pub data ActorType : Type 0 where
  user system unset : ActorType

pub record Actor : Type 0 where
  pub kind : ActorType
  pub id : Text
  pub ip_address : Text
  pub user_agent : Text

pub record Entry : Type 0 where
  pub subject_type : Text
  pub subject_id : Text
  pub action : Action
  pub old_values : List (Text × Text)
  pub new_values : List (Text × Text)
  pub actor : Actor
