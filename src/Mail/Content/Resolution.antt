-- ===== src/Mail/Content/Resolution.antt =====
-- Which assignment of a document type a mail's template comes from.
use clickwrap.Prelude.{◌≡◌, refl, String, some}
use clickwrap.Domain.Types.{
  EmailTemplate, version_notification, reminder, acceptance_confirmation, AgreementDocument,
  AgreementVersion, DocumentTypeDef,
}
use clickwrap.Store.Documents
use clickwrap.Store.Entities
use clickwrap.Store.Templates
use clickwrap.Runtime.{World}
use clickwrap.Mail.Content.{stored, resolve_template}

-- A type that assigns a template to notifications and one to reminders, both stored: a notification is
-- made from the first; a reminder and the confirmation of an acceptance are both made from the second,
-- whatever the type assigns to confirmations.
pub resolve_template_confirmation :
    (w : World) (version : AgreementVersion) (document : AgreementDocument) (t : DocumentTypeDef)
    (notification_id reminder_id : String) (for_notifications for_reminders : EmailTemplate)
    → Documents.find_by_id w.documents version.document_id ≡ some document
    → Entities.find_document_type w.document_types document.type ≡ some t
    → t.notification_template_id ≡ some notification_id
    → t.reminder_template_id ≡ some reminder_id
    → Templates.find_by_id w.templates notification_id ≡ some for_notifications
    → Templates.find_by_id w.templates reminder_id ≡ some for_reminders
    → (resolve_template w version_notification version ≡ stored for_notifications)
      × (resolve_template w reminder version ≡ stored for_reminders)
      × (resolve_template w acceptance_confirmation version ≡ stored for_reminders)
unfolding resolve_template
resolve_template_confirmation w version document t n r a b d f p q x y =
    rw d (rw f (rw p (rw q (rw x (rw y (refl, refl, refl))))))
