-- ===== src/Runtime/Shared.antt =====
-- The state that the services share (REPOSITORY_DRIVER=inmemory), and what they take from outside.
use clickwrap.Prelude.{ℕ, String, Bool, List, Option}
use clickwrap.Prelude.Dict.{Dict}
use clickwrap.Domain.Types.{
  AgreementVersion, Acceptance, DomainEvent, AdminAuditLog, EscalationEntry,
}
use clickwrap.Store.Documents.{Documents}
use clickwrap.Store.Versions.{Versions}
use clickwrap.Store.States.{States}
use clickwrap.Store.Acceptances.{Acceptances}
use clickwrap.Store.Objections.{Objections}
use clickwrap.Store.Notifications.{Notifications}
use clickwrap.Store.Customers.{Customers}
use clickwrap.Store.Entities.{Audiences, DocumentTypes}
use clickwrap.Store.Links.{Links}
use clickwrap.Store.Templates.{Templates}
use clickwrap.Store.SignedDocuments.{SignedDocuments}
use clickwrap.Store.Outbound.{OutboundEmails}

-- AcceptanceResponse and ObjectionResponse: the id that was created. Their `state` is a constant.
pub data Response : Type 0 where
  acceptance_response : (acceptance_id : String) → Response
  objection_response : (objection_id : String) → Response

-- An entry of the idempotency store: reserved, or with its response.
pub data Reply : Type 0 where
  in_progress : Reply
  stored : Response → Reply

-- AdminNotificationInput, without its title and body
pub record AdminNotice : Type 0 where
  pub customer_id : String
  pub customer_name : Option String
  pub version_id : String
  pub version_label : String
  pub reason : Option String
  pub occurred_at : ℕ

pub record World : Type 0 where
  pub documents : Documents
  pub versions : Versions
  pub customers : Customers
  pub audiences : Audiences
  pub document_types : DocumentTypes
  pub templates : Templates
  pub links : Links
  pub signed_documents : SignedDocuments
  pub outbound : OutboundEmails
  pub states : States
  pub acceptances : Acceptances
  pub objections : Objections
  pub notifications : Notifications
  pub replies : Dict String Reply
  pub events : Dict String DomainEvent
  pub audit : List AdminAuditLog
  pub escalations : List EscalationEntry
  -- the calls of `sendForAcceptance`, which never fails
  pub confirmations : List (AgreementVersion × Acceptance)
  -- the calls of `adminNotifications.notify`, which never fails
  pub notices : List AdminNotice
  -- how often the clock was read, and how many ids were made
  pub ticks : ℕ
  pub minted : ℕ

pub record Env : Type 0 where
  -- `clock.now()`, at each reading
  pub clock : ℕ → ℕ
  -- `randomUUID()`, at each call
  pub uuid : ℕ → String
  pub sha256_hex : String → String
  -- `process.env.SWEEPER_ENABLED !== 'false'`
  pub is_sweeper_enabled : Bool
  -- what the other requests do to the state during one pause of a request
  pub others : ℕ → World → World
