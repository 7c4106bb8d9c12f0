-- ===== src/Domain/Types/Agreement.antt =====
-- The entities that an agreement's life is about: types, audiences, documents, versions, customers
-- and the rollout state of a customer for a version.
use clickwrap.Prelude.{ℕ, String, Bool, Option, List}
use clickwrap.Domain.Types.Enums.{VersionStatus, AcceptanceMode, StateValue}

pub record DocumentTypeDef : Type 0 where
  pub id : String
  pub key : String
  pub name : String
  pub notification_template_id : Option String
  pub reminder_template_id : Option String
  pub acceptance_confirmation_template_id : Option String
  pub external : Option Bool

pub record Audience : Type 0 where
  pub id : String
  pub key : String
  pub name : String

pub record AgreementDocument : Type 0 where
  pub id : String
  pub type : String
  pub audience : String
  pub name : String

pub record AgreementVersion : Type 0 where
  pub id : String
  pub document_id : String
  pub version_label : String
  pub status : VersionStatus
  pub acceptance_mode : AcceptanceMode
  pub objection_period_days : Option ℕ
  pub objection_consequence : Option String
  pub grace_period_days : Option ℕ
  pub hard_deadline_at : Option ℕ
  pub change_summary : String
  pub consent_text : Option String
  pub storage_key : String
  pub file_name : String
  pub content_hash : String
  pub file_size : ℕ
  pub valid_from : ℕ
  pub published_at : Option ℕ
  pub published_by : Option String

pub record Customer : Type 0 where
  pub id : String
  pub external_ref : String
  pub first_name : String
  pub last_name : String
  pub company_name : Option String
  pub roles : List String
  pub contact_emails : List String
  pub source : Option String
  pub deleted_at : Option ℕ

pub record CustomerVersionState : Type 0 where
  pub id : String
  pub customer_id : String
  pub version_id : String
  pub state : StateValue
  pub notified_at : Option ℕ
  pub deadline_at : Option ℕ
  pub reminders_sent : ℕ
  pub carry_over_blocking : Option Bool
  pub notification_due_at : Option ℕ
