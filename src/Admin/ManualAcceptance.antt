-- ===== src/Admin/ManualAcceptance.antt =====
-- admin/manual-acceptance.service.ts: consent that was given by letter, or imported.
pub mod Outcome
pub mod Row
use clickwrap.Prelude.{
  ℕ, String, true, not, Option, none, some, [], ◌∷◌, ◌++◌, ◌<>◌, ◌==◌, String_eq, trim,
}
use clickwrap.Domain.Errors
use clickwrap.Domain.Errors.{
  ErrorCode, Result, ok, customer_not_found, version_not_found, invalid_state,
}
use clickwrap.Domain.Types.{
  StateValue, pending_notification, AcceptanceMethod, active_consent, imported, Actor,
  AcceptanceChannel, AgreementVersion, CustomerVersionState, Acceptance, consent, admin, text,
  manual_acceptance, Metadata,
}
use clickwrap.Domain.Consent.{
  require, assert_method_channel_allowed, assert_customer_has_role, consent_text_hash_for,
}
use clickwrap.Domain.Customers.{customer_display_name}
use clickwrap.Domain.Lifecycle
use clickwrap.Store.Versions
use clickwrap.Store.Documents
use clickwrap.Store.Customers
use clickwrap.Store.States
use clickwrap.Runtime.{World, Env}
use clickwrap.Runtime.Exec.{Exec, pure, lift, gets, modify, query, ◌>>=◌, ◌>>◌, now, new_id}
use clickwrap.Runtime.Recorder.{EventInput, event_input, record_event}
use clickwrap.Runtime.Audit.{audit_now}
use clickwrap.Runtime.Files.{PdfUpload, is_empty_upload, StoredPdf, PdfStorage}
use clickwrap.Services.Acceptance.{apply_transition, append_acceptance}
use clickwrap.Services.Acceptance.Checks.{Checked, required}

-- `'ACTIVE_CONSENT' | 'IMPORT'`
pub data ManualMethod : Type 0 where
  by_consent by_import : ManualMethod

abbrev pub as_method : ManualMethod → AcceptanceMethod
as_method by_consent = active_consent
as_method by_import = imported

abbrev pub method_text : ManualMethod → String
method_text by_consent = "ACTIVE_CONSENT"
method_text by_import = "IMPORT"

pub record ManualAcceptanceInput : Type 0 where
  pub version_id : String
  pub method : ManualMethod
  pub reason : String
  pub evidence_document : PdfUpload

pub record ManualAcceptanceResult : Type 0 where
  pub acceptance_id : String
  pub state : StateValue

-- The guards, in the order of the source.
unfoldable pub manual_checks : World → String → ManualAcceptanceInput → Result Checked
manual_checks w customer_id input =
    Errors.◌>>◌ (require (not (trim input.reason == "")) invalid_state) (
      Errors.◌>>◌ (require (not (is_empty_upload input.evidence_document)) invalid_state) (
        Errors.◌>>◌ (assert_method_channel_allowed (as_method input.method) AcceptanceChannel.admin)
          (Errors.◌>>=◌ (required (Customers.find_by_id w.customers customer_id) customer_not_found)
            (λ customer.
              Errors.◌>>=◌
                (required (Versions.find_by_id w.versions input.version_id) version_not_found)
                (λ version.
                  Errors.◌>>=◌
                    (required (Documents.find_by_id w.documents version.document_id) invalid_state)
                    (λ document. Errors.◌>>◌ (assert_customer_has_role customer document.audience) (
                      ok (record {
                        version = version;
                        document = document;
                        customer = customer;
                      }))))))))

-- The row of a customer who has none yet.
abbrev pub letter_row : String → String → String → CustomerVersionState
letter_row customer_id version_id id = record {
  id = id;
  customer_id = customer_id;
  version_id = version_id;
  state = pending_notification;
  notified_at = none;
  deadline_at = none;
  reminders_sent = 0;
  carry_over_blocking = none;
  notification_due_at = none;
}

abbrev pub manual_metadata : String → ManualAcceptanceInput → Checked → StoredPdf → Metadata
manual_metadata customer_id input c file =
    ("customerId", text customer_id)
    ∷ ("versionId", text c.version.id)
    ∷ ("method", text (method_text input.method))
    ∷ ("evidenceStorageKey", text file.storage_key)
    ∷ []

module _ (env : Env) where
  create_row : String → String → Exec CustomerVersionState
  create_row customer_id version_id = do
    id ← new_id env "cvs"
    let row = letter_row customer_id version_id id
    modify (λ w. record w { states = States.save w.states row })
    pure row

  unfoldable pub ensure_row :
      String → String → Option CustomerVersionState → Exec CustomerVersionState
  unfolding create_row
  ensure_row customer_id version_id none = create_row customer_id version_id
  ensure_row customer_id version_id (some row) = pure row

  -- The hash of the text, for a consent to a version that has one.
  unfoldable pub manual_hash : ManualMethod → AgreementVersion → Result (Option String)
  manual_hash by_import version = ok none
  manual_hash by_consent version = elim version.consent_text [
    | none ↦ ok none
    | some t ↦ Errors.◌>>=◌ (consent_text_hash_for env.sha256_hex version) (λ hash. ok (some hash))
  ]

  abbrev pub manual_evidence :
      String
      → ManualAcceptanceInput
      → Actor
      → AgreementVersion
      → String
      → ℕ
      → Option String
      → Acceptance
  manual_evidence customer_id input actor version id at hash = record {
    id = id;
    customer_id = customer_id;
    version_id = version.id;
    method = as_method input.method;
    channel = AcceptanceChannel.admin;
    accepted_at = at;
    actor = actor;
    is_effective = true;
    superseded_by_acceptance_id = none;
    consent_text = elim input.method [ by_consent ↦ version.consent_text | by_import ↦ none ];
    consent_text_hash = hash;
    content_hash = some version.content_hash;
    ip_address = none;
    user_agent = none;
    evidence_note = none;
  }

  manual_event : String → ManualAcceptanceInput → Actor → Checked → EventInput
  manual_event customer_id input actor c =
      record (event_input manual_acceptance consent admin actor.user_id (
        "Manual acceptance recorded for version " <> c.version.version_label <> " — "
        <> input.reason)) {
          customer_id = some customer_id;
          customer_name = some (customer_display_name c.customer);
          version_id = some c.version.id;
          document_type = some c.document.type;
          audience = some c.document.audience;
          version_label = some c.version.version_label;
          channel = some "ADMIN";
          metadata =
              some
                (("method", text (method_text input.method)) ∷ ("reason", text input.reason) ∷ []);
        }

  audit_manual :
      String → ManualAcceptanceInput → Actor → Checked → StoredPdf → String → Exec (Unit {0})
  audit_manual customer_id input actor c file id =
      audit_now env manual_acceptance actor.user_id "Acceptance" id (some input.reason)
        (some (manual_metadata customer_id input c file))

  -- What is written once the transition has gone through; the acceptance is returned.
  unfoldable pub record_manual :
      String → ManualAcceptanceInput → Actor → Checked → StoredPdf → Exec Acceptance
  unfolding manual_event audit_manual
  record_manual customer_id input actor c file = do
    id ← new_id env "a"
    at ← now env
    hash ← lift (manual_hash input.method c.version)
    let acceptance = manual_evidence customer_id input actor c.version id at hash
    append_acceptance acceptance
    audit_manual customer_id input actor c file id
    record_event env (manual_event customer_id input actor c)
    modify (λ w. record w { confirmations = w.confirmations ++ (c.version, acceptance) ∷ [] })
    pure acceptance

  -- The conditional transition of a row, on the state that was read.
  unfoldable pub move_row : CustomerVersionState → StateValue → Exec (Unit {0})
  move_row row value w =
      apply_transition row.id
        (States.transition w.states row.id row.state
          (record { state = value; reminders_sent = none }))
        w

  unfoldable pub accept_manually :
      PdfStorage → String → ManualAcceptanceInput → Actor → Checked → Exec ManualAcceptanceResult
  accept_manually pdf customer_id input actor c = do
    let file = pdf.store input.evidence_document
    found ← gets (λ w. States.find_by_customer_and_version w.states customer_id c.version.id)
    row ← ensure_row customer_id c.version.id found
    next ← lift (Lifecycle.accept row (as_method input.method))
    move_row row next.state
    acceptance ← record_manual customer_id input actor c file
    pure (record { acceptance_id = acceptance.id; state = next.state })

  -- `record`
  unfoldable pub record_acceptance :
      PdfStorage → String → ManualAcceptanceInput → Actor → Exec ManualAcceptanceResult
  record_acceptance pdf customer_id input actor = do
    c ← query (λ w. manual_checks w customer_id input)
    accept_manually pdf customer_id input actor c
