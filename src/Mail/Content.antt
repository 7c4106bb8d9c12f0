-- ===== src/Mail/Content.antt =====
-- plugins/email/core/email-content.service.ts: which template a mail is made from, and the values of its
-- placeholders. The texts of dates are arguments.
pub mod Resolution
use clickwrap.Prelude.{
  ℕ, String, Bool, true, false, Option, none, some, List, [], ◌∷◌, ◌<>◌, ◌==◌, String_eq, or_else,
  codes, map, if◌then◌else◌,
}
use clickwrap.Prelude.Scan.{Units}
use clickwrap.Domain.Types.{
  EmailTemplate, EmailTemplateKind, version_notification, reminder, acceptance_confirmation,
  AgreementDocument, AgreementVersion, Audience, Customer, DocumentTypeDef,
}
use clickwrap.Domain.Customers.{customer_display_name}
use clickwrap.Domain.EmailTemplate.{TemplateVars, default_template_id_for_kind}
use clickwrap.Domain.Links.{strip_trailing_slashes}
use clickwrap.Store.Documents
use clickwrap.Store.Entities
use clickwrap.Store.Templates
use clickwrap.Runtime.{World, Env}
use clickwrap.Runtime.Exec.{Exec, pure, ◌>>=◌}
use clickwrap.Mail.PermanentLinks.{ensure_for_customer, url_for}

-- A template that is stored, or the one that the code has for the kind.
pub data Resolved : Type 0 where
  stored : EmailTemplate → Resolved
  built_in : EmailTemplateKind → Resolved

document_type_of : World → Option AgreementDocument → Option DocumentTypeDef
document_type_of w none = none
document_type_of w (some document) = Entities.find_document_type w.document_types document.type

-- The assignment of the document's type; the last one serves every other kind.
assignment : EmailTemplateKind → Option DocumentTypeDef → Option String
assignment kind none = none
assignment version_notification (some t) = t.notification_template_id
assignment _ (some t) = t.reminder_template_id

unfoldable pub assigned_template_id : World → EmailTemplateKind → AgreementVersion → Option String
unfolding assignment document_type_of
assigned_template_id w kind version =
    assignment kind (document_type_of w (Documents.find_by_id w.documents version.document_id))

abbrev pub find_template : World → Option String → Option EmailTemplate
find_template w none = none
find_template w (some id) = Templates.find_by_id w.templates id

-- The first that is there: the assigned one, the stored default, the built-in one.
abbrev pub first_of : Option EmailTemplate → Option EmailTemplate → EmailTemplateKind → Resolved
first_of (some assigned) fallback kind = stored assigned
first_of none (some row) kind = stored row
first_of none none kind = built_in kind

unfoldable pub resolve_template : World → EmailTemplateKind → AgreementVersion → Resolved
unfolding assigned_template_id
resolve_template w kind version =
    first_of (find_template w (assigned_template_id w kind version))
      (Templates.find_by_id w.templates (default_template_id_for_kind kind)) kind

-- NotificationConfig, without the HMAC's secret
pub record NotificationConfig : Type 0 where
  pub app_name : String
  pub public_base_url : String

-- `date.toISOString().slice(0, 10)` and `date.toISOString()`
pub record DateTexts : Type 0 where
  pub iso_date : ℕ → String
  pub iso_time : ℕ → String

abbrev text_of : (ℕ → String) → Option ℕ → String
text_of write none = ""
text_of write (some at) = write at

abbrev document_name : Option AgreementDocument → String
document_name none = ""
document_name (some document) = document.name

-- `documentType?.name ?? document?.type ?? ''`
abbrev type_name : Option DocumentTypeDef → Option AgreementDocument → String
type_name (some t) document = t.name
type_name none (some document) = document.type
type_name none none = ""

-- `audience?.name ?? document?.audience ?? ''`
abbrev audience_name : Option Audience → Option AgreementDocument → String
audience_name (some a) document = a.name
audience_name none (some document) = document.audience
audience_name none none = ""

audience_for : World → Option AgreementDocument → Option Audience
audience_for w none = none
audience_for w (some document) = Entities.find_audience w.audiences document.audience

unfoldable pub resolve_document_pdf_url : NotificationConfig → Option AgreementDocument → String
unfolding strip_trailing_slashes
resolve_document_pdf_url config none = ""
resolve_document_pdf_url config (some document) =
    let base = strip_trailing_slashes config.public_base_url in
    if base == ""
    then ""
    else base <> "/documents/" <> document.type <> "/" <> document.audience <> "/latest.pdf"

-- A placeholder's name and its value.
abbrev binding : String → String → Units × Units
binding name value = (codes name, codes value)

unfoldable pub vars_of :
    DateTexts
    → NotificationConfig
    → World
    → Customer
    → AgreementVersion
    → (deadline_at accepted_at : Option ℕ) → (acceptance_link : String) → TemplateVars
unfolding document_type_of audience_for resolve_document_pdf_url
vars_of dates config w customer version deadline_at accepted_at acceptance_link =
    let document = Documents.find_by_id w.documents version.document_id in
    binding "customerName" (customer_display_name customer)
    ∷ binding "firstName" customer.first_name
    ∷ binding "lastName" customer.last_name
    ∷ binding "companyName" (or_else customer.company_name "")
    ∷ binding "documentName" (document_name document)
    ∷ binding "documentType" (type_name (document_type_of w document) document)
    ∷ binding "audience" (audience_name (audience_for w document) document)
    ∷ binding "versionLabel" version.version_label
    ∷ binding "changeSummary" version.change_summary
    ∷ binding "validFrom" (dates.iso_date version.valid_from)
    ∷ binding "deadlineAt" (text_of dates.iso_date deadline_at)
    ∷ binding "acceptedAt" (text_of dates.iso_time accepted_at)
    ∷ binding "acceptanceLink" acceptance_link
    ∷ binding "documentPdfUrl" (resolve_document_pdf_url config document)
    ∷ binding "appName" config.app_name
    ∷ []

module _ (env : Env) (token_for : String → String) where
  -- The URL of the customer's link, which is made if it is not there; '' without a base URL.
  unfoldable pub resolve_acceptance_link : NotificationConfig → String → Exec String
  resolve_acceptance_link config customer_id w =
      let url = url_for env token_for config.public_base_url customer_id in
      if url == ""
      then pure "" w
      else (do link ← ensure_for_customer env token_for customer_id; pure url) w

  unfoldable pub build_vars :
      DateTexts
      → NotificationConfig
      → Customer
      → AgreementVersion
      → (deadline_at accepted_at : Option ℕ) → Exec TemplateVars
  unfolding resolve_acceptance_link vars_of
  build_vars dates config customer version deadline_at accepted_at = do
    link ← resolve_acceptance_link config customer.id
    λ w. pure (vars_of dates config w customer version deadline_at accepted_at link) w
