-- ===== src/Domain/Types/Log.antt =====
-- The append-only logs: domain events, the admin audit (agreements/audit.ts) and the escalation
-- notes (common/escalation/escalation-log.ts).
use clickwrap.Prelude.{ℕ, String, Bool, Option, none, some, List, ◌≡◌, ◌↔◌, true, arith, Eq, nat_eq}
use clickwrap.Domain.Types.Evidence.{Actor}

pub data EventCategory : Type 0 where
  communication access consent administration : EventCategory

abbrev category_rank : EventCategory → ℕ
category_rank communication = 0
category_rank access = 1
category_rank consent = 2
category_rank administration = 3

pub category_eq_iff :
    (a b : EventCategory) → (nat_eq (category_rank a) (category_rank b) ≡ true) ↔ (a ≡ b)
category_eq_iff a b = (λ h. ground arith, λ h. ground arith)

instance abbrev pub EventCategory_eq : Eq EventCategory
EventCategory_eq = record {
  beq = λ a b. nat_eq (category_rank a) (category_rank b);
  beq_iff = category_eq_iff;
}

pub data EventActorKind : Type 0 where
  admin customer system : EventActorKind

pub data EventType : Type 0 where
  email_sent email_delivered email_bounced page_accessed version_accepted objection_raised :
      EventType
  objection_reopened version_published version_activated version_retired : EventType
  deadline_extended deadline_expired block_suspended block_carried_over : EventType
  obligation_rolled_out reminder_triggered manual_acceptance : EventType
  acceptance_link_created customer_created customer_updated customer_deleted : EventType
  document_created version_draft_created version_updated version_draft_deleted : EventType
  signed_document_uploaded document_type_created document_type_updated : EventType
  document_type_deleted audience_created audience_updated audience_deleted : EventType
  email_template_created email_template_updated email_template_deleted : EventType

-- A value of `metadata`, a record of unknown values: what the services write there.
pub data MetaValue : Type 0 where
  text : String → MetaValue
  number : ℕ → MetaValue
  flag : Bool → MetaValue
  texts : List String → MetaValue
  undefined : MetaValue

abbrev pub Metadata : Type 0
Metadata = List (String × MetaValue)

-- A text that may be undefined.
abbrev pub text? : Option String → MetaValue
text? none = undefined
text? (some s) = text s

pub record DomainEvent : Type 0 where
  pub id : String
  pub type : EventType
  pub category : EventCategory
  pub occurred_at : ℕ
  pub actor_kind : EventActorKind
  pub actor_label : String
  pub customer_id : Option String
  pub customer_name : Option String
  pub version_id : Option String
  pub document_type : Option String
  pub audience : Option String
  pub version_label : Option String
  pub channel : Option String
  pub recipient : Option String
  pub summary : String
  pub metadata : Option Metadata

pub data AdminAuditAction : Type 0 where
  publish manual_acceptance customer_version_state_patch remind audience_create : AdminAuditAction
  audience_update audience_delete document_type_create document_type_update : AdminAuditAction
  document_type_delete customer_create customer_update acceptance_link_create : AdminAuditAction
  email_template_create email_template_update email_template_delete : AdminAuditAction
  signed_document_upload : AdminAuditAction

pub record AdminAuditLog : Type 0 where
  pub id : String
  pub action : AdminAuditAction
  pub actor : String
  pub target_type : String
  pub target_id : String
  pub reason : Option String
  pub metadata : Option Metadata
  pub created_at : ℕ

pub data EscalationKind : Type 0 where
  objection_after_period email_bounce : EscalationKind

pub record EscalationEntry : Type 0 where
  pub id : String
  pub kind : EscalationKind
  pub customer_id : Option String
  pub version_id : Option String
  pub occurred_at : ℕ
  pub actor : Option Actor
  pub reason : Option String
  pub note : Option String
  pub recipient : Option String
  pub inactivated_email : Option Bool
