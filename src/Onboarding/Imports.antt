-- ===== src/Onboarding/Imports.antt =====
-- customers/customer-admin.service.ts: versions that a customer has accepted elsewhere, `validateImports` and
-- `importAcceptance`. The dates of a request are valid ones.
use clickwrap.Prelude.{
  ℕ, true, not, ◌||◌, String, String_eq, ◌==◌, ◌<>◌, ◌++◌, Option, none, some, List, [], ◌∷◌,
  includes, map, if◌then◌else◌,
}
use clickwrap.Domain.Errors
use clickwrap.Domain.Errors.{Result, ok, err, invalid_state, version_not_found, role_mismatch}
use clickwrap.Domain.Types.{
  VersionStatus_eq, published, retired, AgreementVersion, CustomerVersionState, accepted,
  Acceptance, AcceptanceChannel, imported, Actor, Metadata, text, version_accepted, consent, system,
}
use clickwrap.Domain.Consent.{require}
use clickwrap.Store.Documents
use clickwrap.Store.States
use clickwrap.Store.Versions
use clickwrap.Runtime.{World, Env}
use clickwrap.Runtime.Exec.{Exec, pure, modify, query, ◌>>=◌, ◌>>◌, now, new_id}
use clickwrap.Runtime.Recorder.{EventInput, event_input, record_event}
use clickwrap.Services.Acceptance.{append_acceptance}
use clickwrap.Services.Acceptance.Checks.{required}

pub record AcceptedVersionImport : Type 0 where
  pub version_id : String
  pub accepted_at : Option ℕ
  pub reference : Option String

pub record ValidatedImport : Type 0 where
  pub version : AgreementVersion
  pub accepted_at : ℕ
  pub reference : Option String

pub record ImportedAcceptance : Type 0 where
  pub version_id : String
  pub acceptance_id : String

-- The guards of one entry, after the version ids that were seen before it.
unfoldable pub import_checks :
    World → (roles seen : List String) → AcceptedVersionImport → Result AgreementVersion
import_checks w roles seen entry =
    Errors.◌>>◌ (require (not (includes seen entry.version_id)) invalid_state) (
      Errors.◌>>=◌ (required (Versions.find_by_id w.versions entry.version_id) version_not_found)
        (λ version.
          Errors.◌>>◌
            (require (version.status == published || version.status == retired) invalid_state)
            (Errors.◌>>=◌
              (required (Documents.find_by_id w.documents version.document_id) invalid_state)
              (λ document.
                Errors.◌>>◌ (require (includes roles document.audience) role_mismatch)
                  (ok version)))))

abbrev pub version_ids : List ValidatedImport → List String
version_ids items = map (λ (i : ValidatedImport). i.version.id) items

-- The imports, and those of the signed documents whose version is not among them.
unfoldable pub merge_imports : List ValidatedImport → List ValidatedImport → List ValidatedImport
merge_imports validated [] = validated
merge_imports validated (item ∷ rest) =
    merge_imports
      (if includes (version_ids validated) item.version.id
        then validated
        else validated ++ item ∷ [])
      rest

abbrev pub imported_row : String → ValidatedImport → String → CustomerVersionState
imported_row customer_id item id = record {
  id = id;
  customer_id = customer_id;
  version_id = item.version.id;
  state = accepted;
  notified_at = none;
  deadline_at = none;
  reminders_sent = 0;
  carry_over_blocking = none;
  notification_due_at = none;
}

abbrev pub imported_acceptance : String → ValidatedImport → Actor → String → Acceptance
imported_acceptance customer_id item actor id = record {
  id = id;
  customer_id = customer_id;
  version_id = item.version.id;
  method = imported;
  channel = AcceptanceChannel.admin;
  accepted_at = item.accepted_at;
  actor = actor;
  is_effective = true;
  superseded_by_acceptance_id = none;
  consent_text = none;
  consent_text_hash = none;
  content_hash = some item.version.content_hash;
  ip_address = none;
  user_agent = none;
  evidence_note = item.reference;
}

abbrev note_of : Option String → Metadata
note_of none = []
note_of (some reference) = ("evidenceNote", text reference) ∷ []

imported_event : String → ValidatedImport → Actor → EventInput
imported_event customer_id item actor =
    record (event_input version_accepted consent system actor.user_id
      ("Version " <> item.version.version_label <> " accepted (IMPORT, ADMIN)")) {
        customer_id = some customer_id;
        version_id = some item.version.id;
        version_label = some item.version.version_label;
        channel = some "ADMIN";
        metadata = some (("method", text "IMPORT") ∷ note_of item.reference);
      }

module _ (env : Env) where
  -- The clock is read for an entry without a date.
  import_time : Option ℕ → Exec ℕ
  import_time none = now env
  import_time (some at) = pure at

  unfoldable pub validate_imports :
      (roles seen : List String) → List AcceptedVersionImport → Exec (List ValidatedImport)
  unfolding import_time import_checks
  validate_imports roles seen [] = pure []
  validate_imports roles seen (entry ∷ rest) = do
    version ← query (λ w. import_checks w roles seen entry)
    at ← import_time entry.accepted_at
    items ← validate_imports roles (entry.version_id ∷ seen) rest
    pure (record { version = version; accepted_at = at; reference = entry.reference } ∷ items)

  unfoldable pub import_acceptance : String → ValidatedImport → Actor → Exec ImportedAcceptance
  unfolding imported_event
  import_acceptance customer_id item actor = do
    row_id ← new_id env "cvs"
    modify (λ w. record w { states = States.save w.states (imported_row customer_id item row_id) })
    id ← new_id env "a"
    append_acceptance (imported_acceptance customer_id item actor id)
    record_event env (imported_event customer_id item actor)
    pure (record { version_id = item.version.id; acceptance_id = id })

  unfoldable pub import_all : String → List ValidatedImport → Actor → Exec (List ImportedAcceptance)
  unfolding import_acceptance
  import_all customer_id [] actor = pure []
  import_all customer_id (item ∷ rest) actor = do
    first ← import_acceptance customer_id item actor
    others ← import_all customer_id rest actor
    pure (first ∷ others)
