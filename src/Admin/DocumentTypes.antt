-- ===== src/Admin/DocumentTypes.antt =====
-- admin/document-type-admin.service.ts
pub mod Assignments
use clickwrap.Prelude.{
  String, Bool, true, false, not, Option, none, some, List, [], ◌∷◌, ◌<>◌, ◌==◌, String_eq, trim,
  find, is_true,
}
use clickwrap.Prelude.Sort.{sort}
use clickwrap.Prelude.Dict.{values}
use clickwrap.Domain.Errors.{Result, ok, err, invalid_state, not_found}
use clickwrap.Domain.Types.{
  DocumentTypeDef, EmailTemplate, EmailTemplateKind, EmailTemplateKind_eq, version_notification,
  reminder, acceptance_confirmation, EventType, Metadata, MetaValue, administration, admin, text,
  flag, text?, document_type_create, document_type_update, document_type_delete,
  document_type_created, document_type_updated, document_type_deleted,
}
use clickwrap.Domain.Consent.{require}
use clickwrap.Store.Entities
use clickwrap.Store.Templates
use clickwrap.Runtime.{World, Env}
use clickwrap.Runtime.Exec.{Exec, pure, lift, modify, fetch, query, ◌>>=◌, ◌>>◌, new_id}
use clickwrap.Runtime.Recorder.{EventInput, event_input, record_event}
use clickwrap.Runtime.Audit.{audit_now}
use clickwrap.Services.LegalEntities.{save_document_type}
use clickwrap.Admin.Body
use clickwrap.Admin.Body.{Field, absent, null, other, is_present, name_or}

unfoldable pub list : (String → String → Bool) → World → List DocumentTypeDef
list is_before w = sort (λ (a b : DocumentTypeDef). is_before a.key b.key) (values w.document_types)

unfoldable pub find_by_id_or_throw : String → Exec DocumentTypeDef
find_by_id_or_throw id =
    fetch (λ w. find (λ (t : DocumentTypeDef). t.id == id) (values w.document_types)) not_found

-- A template of the kind that is expected.
abbrev pub check_template :
    EmailTemplateKind → Option EmailTemplate → String → Result (Option String)
check_template kind none id = err invalid_state
check_template kind (some template) id = elim (template.kind == kind) [
  | true ↦ ok (some id)
  | false ↦ err invalid_state
]

unfoldable pub resolve_assignment :
    World → Field → EmailTemplateKind → (current : Option String) → Result (Option String)
resolve_assignment w absent kind current = ok current
resolve_assignment w null kind current = ok none
resolve_assignment w other kind current = err invalid_state
resolve_assignment w (Body.text id) kind current =
    check_template kind (Templates.find_by_id w.templates id) id

pub record UpdateBody : Type 0 where
  pub key : Field
  pub external : Field
  pub name : Field
  pub notification_template_id : Field
  pub reminder_template_id : Field
  pub acceptance_confirmation_template_id : Field

-- The deletion, if the repository made it.
unfoldable pub apply_deletion : Entities.DocumentTypes × Bool → Exec (Unit {0})
apply_deletion (types, true) = modify (λ w. record w { document_types = types })
apply_deletion (types, false) = lift (require false invalid_state)

unfoldable pub delete_unused : String → Exec (Unit {0})
unfolding apply_deletion
delete_unused key w =
    apply_deletion (Entities.delete_document_type_if_unused w.document_types w.documents key) w

event_about : EventType → String → String → DocumentTypeDef → Metadata → EventInput
event_about type actor verb saved metadata =
    record (event_input type administration admin actor
      ("Document type \"" <> saved.name <> "\" " <> verb)) {
        document_type = some saved.key;
        metadata = some metadata;
      }

type_metadata : DocumentTypeDef → Metadata
type_metadata saved =
    ("key", text saved.key)
    ∷ ("name", text saved.name)
    ∷ ("external", flag (is_true saved.external))
    ∷ []

module _ (env : Env) where
  unfoldable pub create :
      (key name : String) → (external : Option Bool) → (actor : String) → Exec DocumentTypeDef
  unfolding event_about type_metadata
  create key name external actor = do
    lift (require (not (trim name == "")) invalid_state)
    id ← new_id env "dt"
    let saved : DocumentTypeDef = record {
      id = id;
      key = key;
      name = name;
      notification_template_id = none;
      reminder_template_id = none;
      acceptance_confirmation_template_id = none;
      external = some (is_true external);
    }
    save_document_type saved
    audit_now env document_type_create actor "DocumentType" saved.id none
        (some (type_metadata saved))
    record_event env (event_about document_type_created actor "created" saved (type_metadata saved))
    pure saved

  -- What is written of an update.
  unfoldable pub save_update : String → String → DocumentTypeDef → Exec DocumentTypeDef
  unfolding event_about
  save_update id actor updated = do
    save_document_type updated
    audit_now env document_type_update actor "DocumentType" id none (
        some (
          ("name", text updated.name)
          ∷ ("notificationTemplateId", text? updated.notification_template_id)
          ∷ ("reminderTemplateId", text? updated.reminder_template_id)
          ∷ ("acceptanceConfirmationTemplateId", text? updated.acceptance_confirmation_template_id)
          ∷ []))
    record_event env (
        event_about document_type_updated actor "updated" updated
          (("name", text updated.name) ∷ []))
    pure updated

  unfoldable pub update : String → UpdateBody → String → Exec DocumentTypeDef
  unfolding save_update find_by_id_or_throw name_or resolve_assignment
  update id body actor = do
    lift (require (not (is_present body.key)) invalid_state)
    lift (require (not (is_present body.external)) invalid_state)
    existing ← find_by_id_or_throw id
    notification ← query (λ w.
        resolve_assignment w body.notification_template_id version_notification
          existing.notification_template_id)
    remind ←
        query (λ w.
          resolve_assignment w body.reminder_template_id reminder existing.reminder_template_id)
    confirmation ← query (λ w.
        resolve_assignment w body.acceptance_confirmation_template_id acceptance_confirmation
          existing.acceptance_confirmation_template_id)
    let updated : DocumentTypeDef = record existing {
      name = name_or body.name existing.name;
      notification_template_id = notification;
      reminder_template_id = remind;
      acceptance_confirmation_template_id = confirmation;
    }
    save_update id actor updated

  unfoldable pub remove : (id actor : String) → Exec (Unit {0})
  unfolding event_about find_by_id_or_throw delete_unused
  remove id actor = do
    existing ← find_by_id_or_throw id
    delete_unused existing.key
    audit_now env document_type_delete actor "DocumentType" id none
        (some (("key", text existing.key) ∷ []))
    record_event env (
        event_about document_type_deleted actor "deleted" existing
          (("key", text existing.key) ∷ []))
