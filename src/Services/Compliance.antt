-- ===== src/Services/Compliance.antt =====
-- compliance/compliance.service.ts and compliance/audience.ts: what the gate is asked about, and its
-- answer with the latest consent to each document.
pub mod Answer
use clickwrap.Prelude.{
  ℕ, String, Bool, Option, none, some, List, [], ◌∷◌, ◌==◌, String_eq, Codes_eq, find,
}
use clickwrap.Prelude.Sort.{sort}
use clickwrap.Prelude.Dict.{Dict, set}
use clickwrap.Domain.Errors.{Result, ok, err, unknown_audience, customer_not_found}
use clickwrap.Domain.Types.{
  StateValue, AcceptanceMode, AcceptanceMethod, AgreementDocument, AgreementVersion, Customer,
  Acceptance, CustomerVersionState,
}
use clickwrap.Domain.Keys.{detail_key}
use clickwrap.Domain.Compliance.{
  CurrentVersionEntry, ComplianceDetail, ComplianceResult, compute_compliance,
}
use clickwrap.Store.Documents
use clickwrap.Store.Versions
use clickwrap.Store.Versions.{newest_first}
use clickwrap.Store.Customers
use clickwrap.Store.States
use clickwrap.Store.Acceptances
use clickwrap.Store.Entities.{find_audience}
use clickwrap.Runtime.{World, Env}
use clickwrap.Runtime.Exec.{Exec, pure, throw, fetch, gets, query, ◌>>=◌, now}

pub record ComplianceDetailResponse : Type 0 where
  pub required_version_id : String
  pub required_version_label : String
  pub accepted_version_id : Option String
  pub state : Option StateValue
  pub method : Option AcceptanceMethod
  pub deadline_at : Option ℕ
  pub pending_mode : Option AcceptanceMode

pub record ComplianceResponse : Type 0 where
  pub customer_id : String
  pub audience : Option String
  pub roles : List String
  pub compliant : Bool
  pub details : Dict (List ℕ) ComplianceDetailResponse

-- `resolveAudienceKey`
unfoldable pub resolve_audience_key : World → Option String → Result (Option String)
resolve_audience_key w none = ok none
resolve_audience_key w (some key) = elim (find_audience w.audiences key) [
  | none ↦ err unknown_audience
  | some audience ↦ ok (some key)
]

-- `if (!version) continue; entries.push({ document, version })`
abbrev pub with_current :
    AgreementDocument
    → Option AgreementVersion
    → List CurrentVersionEntry
    → List CurrentVersionEntry
with_current document none entries = entries
with_current document (some version) entries =
    record { document = document; version = version } ∷ entries

-- The versions that are current at `t`, one for each document that has one.
unfoldable pub current_entries :
    Documents.Documents → Versions.Versions → ℕ → List AgreementDocument → List CurrentVersionEntry
current_entries documents versions t [] = []
current_entries documents versions t (document ∷ rest) =
    with_current document
      (Versions.find_current_published documents versions document.type document.audience t)
      (current_entries documents versions t rest)

-- The newest version with an effective consent of the customer.
unfoldable pub latest_consent : World → String → List AgreementVersion → Option Acceptance
latest_consent w customer_id [] = none
latest_consent w customer_id (version ∷ rest) =
    elim (Acceptances.find_effective w.acceptances customer_id version.id) [
      | some acceptance ↦ some acceptance
      | none ↦ latest_consent w customer_id rest
    ]

base_of : ComplianceDetail → ComplianceDetailResponse
base_of detail = record {
  required_version_id = detail.required_version_id;
  required_version_label = detail.required_version_label;
  accepted_version_id = none;
  state = detail.state;
  method = none;
  deadline_at = detail.deadline_at;
  pending_mode = detail.pending_mode;
}

with_consent : ComplianceDetailResponse → Option Acceptance → ComplianceDetailResponse
with_consent base none = base
with_consent base (some acceptance) = record base {
  accepted_version_id = some acceptance.version_id;
  method = some acceptance.method;
}

unfoldable pub enrich_detail :
    World → String → List CurrentVersionEntry → List ℕ → ComplianceDetail → ComplianceDetailResponse
unfolding base_of with_consent
enrich_detail w customer_id entries key detail =
    elim (find (λ e. detail_key e.document.type e.document.audience == key) entries) [
      | none ↦ base_of detail
      | some entry ↦ with_consent (base_of detail) (
          latest_consent w customer_id
            (sort newest_first (Versions.find_by_document w.versions entry.document.id)))
    ]

unfoldable pub enrich_all :
    World
    → String
    → List CurrentVersionEntry
    → Dict (List ℕ) ComplianceDetail
    → Dict (List ℕ) ComplianceDetailResponse
    → Dict (List ℕ) ComplianceDetailResponse
enrich_all w customer_id entries [] details = details
enrich_all w customer_id entries ((key, detail) ∷ rest) details =
    enrich_all w customer_id entries rest
      (set details key (enrich_detail w customer_id entries key detail))

unfoldable pub response_of :
    World → String → List CurrentVersionEntry → ComplianceResult → ComplianceResponse
response_of w customer_id entries result = record {
  customer_id = result.customer_id;
  audience = result.audience;
  roles = result.roles;
  compliant = result.compliant;
  details = enrich_all w customer_id entries result.details [];
}

module _ (env : Env) where
  unfoldable pub load_current_versions : Exec (List CurrentVersionEntry)
  load_current_versions = do
    t ← now env
    gets (λ w. current_entries w.documents w.versions t (Documents.find_all w.documents))

  unfoldable pub get_compliance : String → Option String → Exec ComplianceResponse
  get_compliance customer_id audience = do
    audience_key ← query (λ w. resolve_audience_key w audience)
    customer ← fetch (λ w. Customers.find_by_id w.customers customer_id) customer_not_found
    entries ← load_current_versions
    states ← gets (λ w. States.find_by_customer w.states customer_id)
    gets (λ w.
        response_of w customer_id entries (compute_compliance customer entries states audience_key))
