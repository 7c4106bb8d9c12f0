-- ===== src/Domain/Types/Mail.antt =====
-- Templates of mails, the mails that were sent (plugins/email/core/outbound-email.ts), and documents
-- that were signed elsewhere.
use clickwrap.Prelude.{ℕ, ◌≡◌, ◌↔◌, true, String, Option, arith, Eq, nat_eq}

pub data EmailTemplateKind : Type 0 where
  version_notification reminder acceptance_confirmation : EmailTemplateKind

abbrev template_kind_rank : EmailTemplateKind → ℕ
template_kind_rank version_notification = 0
template_kind_rank reminder = 1
template_kind_rank acceptance_confirmation = 2

pub template_kind_eq_iff :
    (a b : EmailTemplateKind)
    → (nat_eq (template_kind_rank a) (template_kind_rank b) ≡ true) ↔ (a ≡ b)
template_kind_eq_iff a b = (λ h. ground arith, λ h. ground arith)

instance abbrev pub EmailTemplateKind_eq : Eq EmailTemplateKind
EmailTemplateKind_eq = record {
  beq = λ a b. nat_eq (template_kind_rank a) (template_kind_rank b);
  beq_iff = template_kind_eq_iff;
}

pub record EmailTemplate : Type 0 where
  pub id : String
  pub name : String
  pub kind : EmailTemplateKind
  pub subject : String
  pub design : String
  pub html : String
  pub created_at : ℕ
  pub updated_at : ℕ

pub record SignedDocument : Type 0 where
  pub id : String
  pub customer_id : String
  pub document_type_key : String
  pub audience : Option String
  pub file_name : String
  pub storage_key : String
  pub content_hash : String
  pub file_size : ℕ
  pub signed_at : ℕ
  pub signer_name : Option String
  pub reference : Option String
  pub note : Option String
  pub uploaded_by : String
  pub uploaded_at : ℕ

pub record OutboundEmail : Type 0 where
  pub provider_ref : String
  pub customer_id : String
  pub version_id : String
  pub recipient : String
  pub sent_at : ℕ
  pub delivered_at : Option ℕ
