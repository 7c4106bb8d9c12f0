-- ===== src/Services/PendingAgreements.antt =====
-- compliance/pending-agreements.service.ts: what the portal offers to a customer.
pub mod Offers
use clickwrap.Prelude.{
  ℕ, String, Bool, true, false, ◌&&◌, not, Option, none, some, List, [], ◌∷◌, ◌++◌, ◌==◌, String_eq,
  if◌then◌else◌, includes,
}
use clickwrap.Domain.Errors.{customer_not_found}
use clickwrap.Domain.Types.{
  AcceptanceMode, AcceptanceMode_eq, passive, StateValue, StateValue_eq, pending_notification,
  notified, expired_blocking, AgreementDocument, AgreementVersion, Customer, CustomerVersionState,
}
use clickwrap.Domain.Lifecycle.{is_blocking}
use clickwrap.Domain.Compliance.{relevant_audiences}
use clickwrap.Store.Documents
use clickwrap.Store.Versions
use clickwrap.Store.Customers
use clickwrap.Store.States
use clickwrap.Runtime.{World, Env}
use clickwrap.Runtime.Exec.{Exec, fetch, gets, query, ◌>>=◌, now}
use clickwrap.Services.Compliance.{resolve_audience_key}

abbrev pub open_states : List StateValue
open_states = pending_notification ∷ notified ∷ expired_blocking ∷ []

pub record PendingAgreementItem : Type 0 where
  pub version_id : String
  pub document_type : String
  pub document_name : String
  pub audience : String
  pub version_label : String
  pub change_summary : String
  pub pdf_url : String
  pub mode : AcceptanceMode
  pub consent_text : Option String
  pub deadline_at : Option ℕ
  pub blocking : Bool
  pub upcoming : Bool
  pub valid_from : ℕ
  pub can_object : Bool
  pub objection_consequence : Option String

-- `getPresignedUrl` of the storage
module _ (presigned_url : String → String) where
  unfoldable pub item_of :
      AgreementDocument → AgreementVersion → Bool → CustomerVersionState → PendingAgreementItem
  item_of document version is_upcoming state = record {
    version_id = version.id;
    document_type = document.type;
    document_name = document.name;
    audience = document.audience;
    version_label = version.version_label;
    change_summary = version.change_summary;
    pdf_url = presigned_url version.storage_key;
    mode = version.acceptance_mode;
    consent_text = version.consent_text;
    deadline_at = state.deadline_at;
    blocking = is_blocking state;
    upcoming = is_upcoming;
    valid_from = version.valid_from;
    can_object = version.acceptance_mode == passive && not is_upcoming;
    objection_consequence = version.objection_consequence;
  }

  -- The item of one version, if the customer's row for it is open.
  unfoldable pub open_item :
      AgreementDocument
      → AgreementVersion
      → Bool
      → Option CustomerVersionState
      → List PendingAgreementItem
  open_item document version is_upcoming none = []
  open_item document version is_upcoming (some state) =
      if includes open_states state.state
      then item_of document version is_upcoming state ∷ []
      else []

  unfoldable pub current_items :
      World → String → AgreementDocument → Option AgreementVersion → List PendingAgreementItem
  current_items w customer_id document none = []
  current_items w customer_id document (some version) =
      open_item document version false
        (States.find_by_customer_and_version w.states customer_id version.id)

  unfoldable pub upcoming_items :
      World → String → AgreementDocument → List AgreementVersion → List PendingAgreementItem
  upcoming_items w customer_id document [] = []
  upcoming_items w customer_id document (version ∷ rest) =
      open_item document version true
        (States.find_by_customer_and_version w.states customer_id version.id)
      ++ upcoming_items w customer_id document rest

  unfoldable pub document_items : World → String → ℕ → AgreementDocument → List PendingAgreementItem
  document_items w customer_id t document =
      current_items w customer_id document
        (Versions.find_current_published w.documents w.versions document.type document.audience t)
      ++ upcoming_items w customer_id document (
          Versions.find_upcoming_published_list w.documents w.versions document.type
            document.audience t)

  unfoldable pub all_items :
      World → String → ℕ → List String → List AgreementDocument → List PendingAgreementItem
  all_items w customer_id t audiences [] = []
  all_items w customer_id t audiences (document ∷ rest) =
      let others = all_items w customer_id t audiences rest in
      if includes audiences document.audience
      then document_items w customer_id t document ++ others
      else others

  unfoldable pub get_pending_agreements :
      Env → String → Option String → Exec (List PendingAgreementItem)
  get_pending_agreements env customer_id audience = do
    audience_key ← query (λ w. resolve_audience_key w audience)
    customer ← fetch (λ w. Customers.find_by_id w.customers customer_id) customer_not_found
    t ← now env
    gets (λ w.
        all_items w customer_id t (relevant_audiences customer audience_key)
          (Documents.find_all w.documents))
