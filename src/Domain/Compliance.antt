-- ===== src/Domain/Compliance.antt =====
-- domain/compliance.ts: the tool gate, "may the customer enter?", as a pure computation.
pub mod Gate
use clickwrap.Prelude.{
  ℕ, String, Bool, true, false, ◌&&◌, not, Option, none, some, List, [], ◌∷◌, is_some, is_truthy,
  or_else, ◌==◌, String_eq, Codes_eq, if◌then◌else◌, includes, find, keep,
}
use clickwrap.Prelude.Dict.{Dict, set}
use clickwrap.Domain.Types.{
  AcceptanceMode, StateValue, StateValue_eq, notified, expired_blocking, AgreementDocument,
  AgreementVersion, Customer, CustomerVersionState,
}
use clickwrap.Domain.Keys.{detail_key}
use clickwrap.Domain.Lifecycle.{is_blocking}

pub record CurrentVersionEntry : Type 0 where
  pub document : AgreementDocument
  pub version : AgreementVersion

pub record ComplianceDetail : Type 0 where
  pub required_version_id : String
  pub required_version_label : String
  pub state : Option StateValue
  pub compliant : Bool
  pub pending_mode : Option AcceptanceMode
  pub deadline_at : Option ℕ

pub record ComplianceResult : Type 0 where
  pub customer_id : String
  pub audience : Option String
  pub roles : List String
  pub compliant : Bool
  pub details : Dict (List ℕ) ComplianceDetail

abbrev open_states : List StateValue
open_states = notified ∷ expired_blocking ∷ []

-- `audience ? customer.roles.filter(...) : customer.roles`
unfoldable pub relevant_audiences : Customer → Option String → List String
relevant_audiences customer audience =
    if is_truthy audience
    then keep (λ role. role == or_else audience "") customer.roles
    else customer.roles

unfoldable pub state_for :
    Customer → List CustomerVersionState → AgreementVersion → Option CustomerVersionState
state_for customer states version =
    find (λ s. s.customer_id == customer.id && s.version_id == version.id) states

unfoldable pub allows : Option CustomerVersionState → Bool
allows none = true
allows (some state) = not (is_blocking state)

detail_of : AgreementVersion → Option CustomerVersionState → ComplianceDetail
unfolding allows
detail_of version none = record {
  required_version_id = version.id;
  required_version_label = version.version_label;
  state = none;
  compliant = true;
  pending_mode = none;
  deadline_at = none;
}
detail_of version (some state) =
    let is_open = includes open_states state.state in
    record {
      required_version_id = version.id;
      required_version_label = version.version_label;
      state = some state.state;
      compliant = allows (some state);
      pending_mode = if is_open then some version.acceptance_mode else none;
      deadline_at = if is_open then state.deadline_at else none;
    }

abbrev pub Tally : Type 0
Tally = Dict (List ℕ) ComplianceDetail × Bool

-- One round of the loop over the current versions.
visit : Customer → List CustomerVersionState → List String → Tally → CurrentVersionEntry → Tally
unfolding state_for detail_of
visit customer states audiences (details, compliant) entry =
    if includes audiences entry.document.audience
    then (let state = state_for customer states entry.version in
        (
          set details (detail_key entry.document.type entry.document.audience)
              (detail_of entry.version state),
          compliant && allows state,
        ))
    else (details, compliant)

pub visit_all :
    Customer → List CustomerVersionState → List String → List CurrentVersionEntry → Tally → Tally
unfolding visit
visit_all customer states audiences [] tally = tally
visit_all customer states audiences (entry ∷ entries) tally =
    visit_all customer states audiences entries (visit customer states audiences tally entry)

unfoldable pub compute_compliance :
    Customer
    → List CurrentVersionEntry
    → List CustomerVersionState
    → Option String
    → ComplianceResult
unfolding relevant_audiences visit_all
compute_compliance customer current_versions states audience =
    if is_some customer.deleted_at
    then record {
      customer_id = customer.id;
      audience = audience;
      roles = customer.roles;
      compliant = true;
      details = [];
    }
    else (let (details, compliant) =
          visit_all customer states (relevant_audiences customer audience) current_versions
            ([], true) in
        record {
          customer_id = customer.id;
          audience = audience;
          roles = customer.roles;
          compliant = compliant;
          details = details;
        })
