-- ===== src/Services/Drafts.antt =====
-- agreements/version.service.ts: drafts are made, changed and deleted; published versions are not.
pub mod Immutable
use clickwrap.Prelude.{
  ℕ, String, Bool, true, false, Option, none, some, List, [], ◌∷◌, ◌<>◌, length, or_else,
}
use clickwrap.Domain.Errors.{version_not_found, invalid_state}
use clickwrap.Domain.Types.{
  draft, AcceptanceMode, AgreementDocument, AgreementVersion, administration, admin,
  version_draft_created, version_updated, version_draft_deleted,
}
use clickwrap.Domain.Consent.{assert_draft_mutable}
use clickwrap.Store.Versions
use clickwrap.Store.Documents
use clickwrap.Store.Customers
use clickwrap.Runtime.{World, Env}
use clickwrap.Runtime.Exec.{Exec, pure, lift, gets, modify, fetch, query, ◌>>=◌, ◌>>◌, new_id}
use clickwrap.Runtime.Recorder.{EventInput, event_input, record_event}
use clickwrap.Runtime.Files.{PdfUpload, StoredPdf, PdfStorage}

pub record CreateDraftInput : Type 0 where
  pub document_id : String
  pub version_label : String
  pub change_summary : String
  pub acceptance_mode : AcceptanceMode
  pub consent_text : Option String
  pub objection_period_days : Option ℕ
  pub objection_consequence : Option String
  pub grace_period_days : Option ℕ
  pub hard_deadline_at : Option ℕ
  pub valid_from : ℕ
  pub file : PdfUpload

-- `{ ...version, ...patch }`: a field that the patch has is written, and an optional one may be written
-- as undefined, which the inner `Option` says.
pub record PatchDraftInput : Type 0 where
  pub version_label : Option String
  pub change_summary : Option String
  pub acceptance_mode : Option AcceptanceMode
  pub consent_text : Option (Option String)
  pub objection_period_days : Option (Option ℕ)
  pub objection_consequence : Option (Option String)
  pub grace_period_days : Option (Option ℕ)
  pub hard_deadline_at : Option (Option ℕ)
  pub valid_from : Option ℕ

abbrev pub spread : AgreementVersion → PatchDraftInput → AgreementVersion
spread version patch = record version {
  version_label = or_else patch.version_label version.version_label;
  change_summary = or_else patch.change_summary version.change_summary;
  acceptance_mode = or_else patch.acceptance_mode version.acceptance_mode;
  consent_text = or_else patch.consent_text version.consent_text;
  objection_period_days = or_else patch.objection_period_days version.objection_period_days;
  objection_consequence = or_else patch.objection_consequence version.objection_consequence;
  grace_period_days = or_else patch.grace_period_days version.grace_period_days;
  hard_deadline_at = or_else patch.hard_deadline_at version.hard_deadline_at;
  valid_from = or_else patch.valid_from version.valid_from;
}

abbrev pub with_file : AgreementVersion → StoredPdf → AgreementVersion
with_file version file = record version {
  storage_key = file.storage_key;
  file_name = file.file_name;
  content_hash = file.content_hash;
  file_size = file.file_size;
}

unfoldable pub with_upload : PdfStorage → Option PdfUpload → AgreementVersion → AgreementVersion
with_upload pdf none version = version
with_upload pdf (some upload) version = with_file version (pdf.store upload)

unfoldable pub save_version : AgreementVersion → Exec (Unit {0})
save_version version = do
  versions ← query (λ w. Versions.save w.documents w.versions version)
  modify (λ w. record w { versions = versions })

unfoldable pub get_version : String → Exec AgreementVersion
get_version id = fetch (λ w. Versions.find_by_id w.versions id) version_not_found

abbrev pub draft_of : CreateDraftInput → StoredPdf → String → AgreementVersion
draft_of input file id = record {
  id = id;
  document_id = input.document_id;
  version_label = input.version_label;
  status = draft;
  acceptance_mode = input.acceptance_mode;
  objection_period_days = input.objection_period_days;
  objection_consequence = input.objection_consequence;
  grace_period_days = input.grace_period_days;
  hard_deadline_at = input.hard_deadline_at;
  change_summary = input.change_summary;
  consent_text = input.consent_text;
  storage_key = file.storage_key;
  file_name = file.file_name;
  content_hash = file.content_hash;
  file_size = file.file_size;
  valid_from = input.valid_from;
  published_at = none;
  published_by = none;
}

-- How many customers a publication would roll out to.
unfoldable pub get_affected_customer_count : String → Exec (String × ℕ)
unfolding get_version
get_affected_customer_count version_id = do
  version ← get_version version_id
  document ← fetch (λ w. Documents.find_by_id w.documents version.document_id) invalid_state
  targets ← gets (λ w. Customers.find_by_role w.customers document.audience)
  pure (document.audience, length targets)

unfoldable pub list_by_document : World → String → List AgreementVersion
list_by_document w document_id = Versions.find_by_document w.versions document_id

-- The type and the audience of a document that may be gone.
abbrev type_of : Option AgreementDocument → Option String
type_of none = none
type_of (some document) = some document.type

abbrev audience_of : Option AgreementDocument → Option String
audience_of none = none
audience_of (some document) = some document.audience

module _ (env : Env) where
  created_event : AgreementDocument → AgreementVersion → String → EventInput
  created_event document saved admin_user_id =
      record (event_input version_draft_created administration admin admin_user_id
        ("Draft version " <> saved.version_label <> " created")) {
          version_id = some saved.id;
          document_type = some document.type;
          audience = some document.audience;
          version_label = some saved.version_label;
        }

  updated_event : AgreementVersion → String → EventInput
  updated_event saved admin_user_id =
      record (event_input version_updated administration admin admin_user_id
        ("Draft version " <> saved.version_label <> " updated")) {
          version_id = some saved.id;
          version_label = some saved.version_label;
        }

  deleted_event : AgreementVersion → Option AgreementDocument → String → String → EventInput
  deleted_event version document version_id admin_user_id =
      record (event_input version_draft_deleted administration admin admin_user_id
        ("Draft version " <> version.version_label <> " deleted")) {
          version_id = some version_id;
          document_type = type_of document;
          audience = audience_of document;
          version_label = some version.version_label;
        }

  unfoldable pub create_draft : PdfStorage → CreateDraftInput → String → Exec AgreementVersion
  unfolding created_event save_version
  create_draft pdf input admin_user_id = do
    document ← fetch (λ w. Documents.find_by_id w.documents input.document_id) invalid_state
    id ← new_id env "v"
    let saved = draft_of input (pdf.store input.file) id
    save_version saved
    record_event env (created_event document saved admin_user_id)
    pure saved

  unfoldable pub patch_draft :
      PdfStorage → String → PatchDraftInput → Option PdfUpload → String → Exec AgreementVersion
  unfolding updated_event with_upload save_version get_version
  patch_draft pdf version_id patch file admin_user_id = do
    version ← get_version version_id
    lift (assert_draft_mutable version)
    let updated = with_upload pdf file (spread version patch)
    save_version updated
    record_event env (updated_event updated admin_user_id)
    pure updated

  unfoldable pub delete_draft : String → String → Exec (Unit {0})
  unfolding deleted_event get_version
  delete_draft version_id admin_user_id = do
    version ← get_version version_id
    lift (assert_draft_mutable version)
    document ← gets (λ w. Documents.find_by_id w.documents version.document_id)
    versions ← query (λ w. Versions.remove w.versions version_id)
    modify (λ w. record w { versions = versions })
    record_event env (deleted_event version document version_id admin_user_id)
