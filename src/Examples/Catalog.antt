-- ===== src/Examples/Catalog.antt =====
-- Document types, drafts and documents at concrete inputs.
use clickwrap.Prelude.{
  arith, ℕ, ◌≡◌, ◌≢◌, refl, String, true, false, Option, none, some, [], ◌∷◌, List, String_eq,
  is_true, inl, inr, In, any, ◌||◌,
}
use clickwrap.Prelude.Dict.{get, values}
use clickwrap.Prelude.Dict.Distinct.{IsById}
use clickwrap.Domain.Errors.{ok}
use clickwrap.Domain.Types.{
  draft, AgreementVersion, AgreementDocument, DocumentTypeDef, EmailTemplate, version_notification,
}
use clickwrap.Store.Entities.{DocumentTypes}
use clickwrap.Store.Templates.{Templates, is_assigned, delete_if_unused}
use clickwrap.Store.Documents.Unique.{IsUnique}
use clickwrap.Runtime.{World}
use clickwrap.Services.Acceptance.Checks.{Checked}
use clickwrap.Admin.Body
use clickwrap.Admin.Body.{absent}
use clickwrap.Admin.DocumentTypes.{UpdateBody, update}
use clickwrap.Admin.DocumentTypes.Assignments.{IsWired, update-IsWired}
use clickwrap.Services.Drafts.{PatchDraftInput, patch_draft, delete_draft}
use clickwrap.Services.Drafts.Immutable.{drafts_keep}
use clickwrap.Services.DocumentCreation.{CreateDocumentInput, create}
use clickwrap.Services.DocumentCreation.Unique.{IsCreatable, IsCreated, create-ok}
use clickwrap.Examples.Admins.{demo_pdf}
use clickwrap.Examples.{demo_env, active_version, draft_version, demo_world}

abbrev template : EmailTemplate
template = record {
  id = "tpl-1";
  name = "Notice";
  kind = version_notification;
  subject = "News";
  design = "";
  html = "";
  created_at = 1;
  updated_at = 1;
}

abbrev terms_type : DocumentTypeDef
terms_type = record {
  id = "dt-1";
  key = "tos";
  name = "Terms of service";
  notification_template_id = none;
  reminder_template_id = none;
  acceptance_confirmation_template_id = some "tpl-2";
  external = none;
}

abbrev wired_type : DocumentTypeDef
wired_type = record terms_type { acceptance_confirmation_template_id = none }

abbrev type_world : World
type_world = record (demo_world [] []) {
  document_types = ("dt-1", wired_type) ∷ [];
  templates = ("tpl-1", template) ∷ [];
  audiences = ("aud-1", record { id = "aud-1"; key = "landlord"; name = "Landlord" }) ∷ [];
}

abbrev assign : UpdateBody
assign = record {
  key = absent;
  external = absent;
  name = absent;
  notification_template_id = Body.text "tpl-1";
  reminder_template_id = absent;
  acceptance_confirmation_template_id = absent;
}

abbrev type_done : World
type_done = (update demo_env "dt-1" assign "admin" type_world).1

abbrev assigned_type : DocumentTypeDef
assigned_type = record wired_type { notification_template_id = some "tpl-1" }

update-runs : update demo_env "dt-1" assign "admin" type_world ≡ (ok assigned_type, type_done)
unfolding clickwrap.Domain.Keys.assert_valid_entity_key clickwrap.Domain.Keys.is_slug_char
    clickwrap.Domain.Keys.is_valid_entity_key clickwrap.Prelude.find
    clickwrap.Runtime.Audit.audit_now clickwrap.Runtime.Recorder.record_event
    clickwrap.Services.LegalEntities.save_document_type clickwrap.Store.Entities.save_document_type
    clickwrap.Store.Templates.find_by_id get update
update-runs = refl

update-IsWired_example :
    clickwrap.Prelude.All (IsWired type_done.templates) (values type_done.document_types)
    × (type_done.templates ≡ type_world.templates)
update-IsWired_example =
    update-IsWired demo_env "dt-1" assign "admin" type_world type_done assigned_type
      (record { notification = tt; reminding = tt; confirmation = tt }, tt) update-runs

abbrev draft_world : World
draft_world = demo_world (active_version ∷ draft_version ∷ []) []

abbrev relabel : PatchDraftInput
relabel = record {
  version_label = some "1.1";
  change_summary = none;
  acceptance_mode = none;
  consent_text = none;
  objection_period_days = none;
  objection_consequence = none;
  grace_period_days = none;
  hard_deadline_at = none;
  valid_from = none;
}

drafts-IsById : IsById (λ (x : AgreementVersion). x.id) draft_world.versions
drafts-IsById = (refl, (refl, tt))

is-stored : get draft_world.versions "v-1" ≡ some active_version
unfolding get
is-stored = refl

is-no-draft : active_version.status ≢ draft
is-no-draft h = ground arith

drafts_keep_example :
    (get (patch_draft demo_env demo_pdf "v-3" relabel none "admin" draft_world).1.versions "v-1"
      ≡ some active_version)
    × (get (delete_draft demo_env "v-3" "admin" draft_world).1.versions "v-1" ≡ some active_version)
drafts_keep_example =
    drafts_keep demo_env demo_pdf "v-3" relabel none "admin" "v-1" active_version draft_world
      drafts-IsById is-no-draft is-stored

abbrev landlord_terms : CreateDocumentInput
landlord_terms = record { type = "tos"; audience = "landlord"; name = "Landlord terms" }

abbrev made_document : AgreementDocument
made_document = record {
  id = "doc-u0";
  type = "tos";
  audience = "landlord";
  name = "Landlord terms";
}

abbrev create_done : World
create_done = (create demo_env landlord_terms "admin" type_world).1

create-runs : create demo_env landlord_terms "admin" type_world ≡ (ok made_document, create_done)
unfolding clickwrap.Prelude.find clickwrap.Runtime.Exec.new_id
    clickwrap.Runtime.Recorder.record_event clickwrap.Services.Acceptance.Checks.required
    clickwrap.Services.DocumentCreation.document_checks
    clickwrap.Store.Documents.find_by_type_and_audience clickwrap.Store.Documents.save
    clickwrap.Store.Entities.find_audience clickwrap.Store.Entities.find_document_type create
create-runs = refl

documents-IsUnique : IsUnique type_world.documents
unfolding get
documents-IsUnique = record { keyed = (refl, tt); by_id = (refl, tt); distinct = (tt, tt) }

create-ok_example :
    IsCreatable type_world landlord_terms
    × IsCreated landlord_terms made_document
    × (get create_done.documents "doc-u0" ≡ some made_document)
    × IsUnique create_done.documents
    × (create_done ≡ record type_world {
      documents = create_done.documents;
      events = create_done.events;
      ticks = create_done.ticks;
      minted = create_done.minted;
    })
create-ok_example =
    create-ok demo_env landlord_terms "admin" type_world create_done made_document
      documents-IsUnique create-runs
