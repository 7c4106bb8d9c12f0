-- ===== src/Admin/Templates.antt =====
-- admin/email-template-admin.service.ts, less the preview.
use clickwrap.Prelude.{
  String, Bool, true, false, not, Option, none, some, List, [], ◌∷◌, ◌<>◌, map, or_else,
}
use clickwrap.Prelude.Sort.{sort}
use clickwrap.Prelude.Dict.{values}
use clickwrap.Domain.Errors.{invalid_state, not_found}
use clickwrap.Domain.Types.{
  EmailTemplate, EmailTemplateKind, version_notification, reminder, acceptance_confirmation,
  EventType, Metadata, administration, admin, text, email_template_create, email_template_update,
  email_template_delete, email_template_created, email_template_updated, email_template_deleted,
}
use clickwrap.Domain.Consent.{require}
use clickwrap.Domain.EmailTemplate.{is_default_email_template_id}
use clickwrap.Store.Templates
use clickwrap.Runtime.{World, Env}
use clickwrap.Runtime.Exec.{Exec, pure, lift, modify, fetch, ◌>>=◌, ◌>>◌, now, new_id}
use clickwrap.Runtime.Recorder.{EventInput, event_input, record_event}
use clickwrap.Runtime.Audit.{append_audit, audit_entry, audit_now}

abbrev kind_text : EmailTemplateKind → String
kind_text version_notification = "VERSION_NOTIFICATION"
kind_text reminder = "REMINDER"
kind_text acceptance_confirmation = "ACCEPTANCE_CONFIRMATION"

pub record CreateEmailTemplateInput : Type 0 where
  pub name : String
  pub kind : EmailTemplateKind
  pub subject : String
  pub design : String
  pub html : String

pub record UpdateEmailTemplateInput : Type 0 where
  pub name : Option String
  pub kind : Option EmailTemplateKind
  pub subject : Option String
  pub design : Option String
  pub html : Option String

-- A template with the flag of the built-in ones.
abbrev pub EmailTemplateView : Type 0
EmailTemplateView = EmailTemplate × Bool

unfoldable pub view_of : EmailTemplate → EmailTemplateView
unfolding is_default_email_template_id
view_of template = (template, is_default_email_template_id template.id)

-- `list`, sorted by name; the collation of the names is the argument `is_before`.
unfoldable pub list : (String → String → Bool) → World → List EmailTemplateView
unfolding view_of
list is_before w =
    sort (λ (a b : EmailTemplateView). is_before a.0.name b.0.name)
      (map view_of (values w.templates))

unfoldable pub find_by_id_or_throw : String → Exec EmailTemplate
find_by_id_or_throw id = fetch (λ w. Templates.find_by_id w.templates id) not_found

unfoldable pub save_template : EmailTemplate → Exec (Unit {0})
save_template template = modify (λ w. record w { templates = Templates.save w.templates template })

-- The deletion, if the repository made it.
unfoldable pub apply_deletion : Templates.Templates × Bool → Exec (Unit {0})
apply_deletion (templates, true) = modify (λ w. record w { templates = templates })
apply_deletion (templates, false) = lift (require false invalid_state)

unfoldable pub delete_unused : String → Exec (Unit {0})
unfolding apply_deletion
delete_unused id w = apply_deletion (Templates.delete_if_unused w.templates w.document_types id) w

event_about : EventType → String → String → EmailTemplate → Metadata → EventInput
event_about type actor verb template metadata =
    record (event_input type administration admin actor
      ("E-mail template \"" <> template.name <> "\" " <> verb)) { metadata = some metadata }

about : EmailTemplate → Metadata
about template = ("name", text template.name) ∷ ("kind", text (kind_text template.kind)) ∷ []

module _ (env : Env) where
  unfoldable pub create : CreateEmailTemplateInput → String → Exec EmailTemplateView
  unfolding event_about about save_template view_of
  create input actor = do
    at ← now env
    id ← new_id env "tpl"
    let saved : EmailTemplate = record {
      id = id;
      name = input.name;
      kind = input.kind;
      subject = input.subject;
      design = input.design;
      html = input.html;
      created_at = at;
      updated_at = at;
    }
    save_template saved
    audit_id ← new_id env "audit"
    append_audit (
        audit_entry email_template_create actor "EmailTemplate" saved.id none (some (about saved))
          audit_id at)
    record_event env (
        event_about email_template_created actor "created" saved
          (("templateId", text saved.id) ∷ about saved))
    pure (view_of saved)

  unfoldable pub update : String → UpdateEmailTemplateInput → String → Exec EmailTemplateView
  unfolding event_about about save_template view_of find_by_id_or_throw
  update id input actor = do
    existing ← find_by_id_or_throw id
    at ← now env
    let updated : EmailTemplate = record existing {
      name = or_else input.name existing.name;
      kind = or_else input.kind existing.kind;
      subject = or_else input.subject existing.subject;
      design = or_else input.design existing.design;
      html = or_else input.html existing.html;
      updated_at = at;
    }
    save_template updated
    audit_now env email_template_update actor "EmailTemplate" id none (some (about updated))
    record_event env (
        event_about email_template_updated actor "updated" updated
          (("templateId", text updated.id) ∷ about updated))
    pure (view_of updated)

  unfoldable pub remove : (id actor : String) → Exec (Unit {0})
  unfolding event_about find_by_id_or_throw delete_unused is_default_email_template_id
  remove id actor = do
    existing ← find_by_id_or_throw id
    lift (require (not (is_default_email_template_id id)) invalid_state)
    delete_unused id
    audit_now env email_template_delete actor "EmailTemplate" id none
        (some (("name", text existing.name) ∷ []))
    record_event env (
        event_about email_template_deleted actor "deleted" existing
          (("templateId", text id) ∷ ("name", text existing.name) ∷ []))
