-- ===== src/Domain/Types/Evidence.antt =====
-- What is kept as evidence: acceptances, objections, deliveries, and the links that give access.
use clickwrap.Prelude.{ℕ, String, Bool, Option}
use clickwrap.Domain.Types.Enums.{
  AcceptanceMethod, AcceptanceChannel, ObjectionResolution, NotificationChannel, AcceptanceLinkKind,
}

pub record Actor : Type 0 where
  pub user_id : String
  pub name : Option String
  pub email : Option String
  pub portal_role : Option String

pub record CustomerContext : Type 0 where
  pub customer_id : String
  pub actor : Actor
  pub ip_address : Option String
  pub user_agent : Option String

pub record Acceptance : Type 0 where
  pub id : String
  pub customer_id : String
  pub version_id : String
  pub method : AcceptanceMethod
  pub channel : AcceptanceChannel
  pub accepted_at : ℕ
  pub actor : Actor
  pub is_effective : Bool
  pub superseded_by_acceptance_id : Option String
  pub consent_text : Option String
  pub consent_text_hash : Option String
  pub content_hash : Option String
  pub ip_address : Option String
  pub user_agent : Option String
  pub evidence_note : Option String

pub record Objection : Type 0 where
  pub id : String
  pub customer_id : String
  pub version_id : String
  pub objected_at : ℕ
  pub actor : Actor
  pub reason : Option String
  pub channel : AcceptanceChannel
  pub resolution : Option ObjectionResolution
  pub resolved_by : Option String
  pub resolved_at : Option ℕ

pub record NotificationEvent : Type 0 where
  pub id : String
  pub customer_version_state_id : String
  pub channel : NotificationChannel
  pub recipient : String
  pub occurred_at : ℕ
  pub provider_ref : Option String

pub record AcceptanceLink : Type 0 where
  pub id : String
  pub token_hash : String
  pub customer_id : String
  pub kind : AcceptanceLinkKind
  pub audience_key : Option String
  pub created_by : String
  pub created_at : ℕ
  pub expires_at : Option ℕ
  pub revoked_at : Option ℕ
  pub last_used_at : Option ℕ
