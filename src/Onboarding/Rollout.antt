-- ===== src/Onboarding/Rollout.antt =====
-- customers/customer-admin.service.ts: the rollout of current and upcoming versions to one customer,
-- `rolloutCurrentVersions` and `notifyRolledOut`. The notifier, which may throw, is a parameter.
pub mod Complete
pub mod Kept
use clickwrap.Prelude.{
  ℕ, String, String_eq, ◌<>◌, ◌++◌, Option, none, some, List, [], ◌∷◌, includes, is_some, length,
  if◌then◌else◌,
}
use clickwrap.Domain.Types.{
  AgreementDocument, AgreementVersion, Customer, CustomerVersionState, pending_notification,
  EventActorKind, obligation_rolled_out, consent,
}
use clickwrap.Domain.Customers.{customer_display_name}
use clickwrap.Domain.Lifecycle.{rollout_deadline_for}
use clickwrap.Store.Documents
use clickwrap.Store.States
use clickwrap.Store.Versions
use clickwrap.Runtime.{World, Env}
use clickwrap.Runtime.Exec.{Exec, pure, modify, gets, ◌>>=◌, ◌>>◌, now, new_id, for_each_isolated}
use clickwrap.Runtime.Recorder.{EventInput, event_input, record_event}

-- Who triggered the rollout.
pub record Trigger : Type 0 where
  pub actor_kind : EventActorKind
  pub actor_label : String

abbrev pub current_and : Option AgreementVersion → List AgreementVersion → List AgreementVersion
current_and none upcoming = upcoming
current_and (some current) upcoming = current ∷ upcoming

unfoldable pub rollout_versions : World → AgreementDocument → ℕ → List AgreementVersion
rollout_versions w document at =
    current_and
      (Versions.find_current_published w.documents w.versions document.type document.audience at)
      (Versions.find_upcoming_published_list w.documents w.versions document.type document.audience
        at)

abbrev pub obligation_row : Customer → AgreementVersion → String → CustomerVersionState
obligation_row customer version id = record {
  id = id;
  customer_id = customer.id;
  version_id = version.id;
  state = pending_notification;
  notified_at = none;
  deadline_at = rollout_deadline_for version;
  reminders_sent = 0;
  carry_over_blocking = none;
  notification_due_at = none;
}

obligation_event : Trigger → Customer → AgreementDocument → AgreementVersion → EventInput
obligation_event trigger customer document version =
    record (event_input obligation_rolled_out consent trigger.actor_kind trigger.actor_label
      ("Customer put under obligation for version " <> version.version_label)) {
        customer_id = some customer.id;
        customer_name = some (customer_display_name customer);
        version_id = some version.id;
        document_type = some document.type;
        audience = some document.audience;
        version_label = some version.version_label;
      }

module _ (env : Env) where
  -- A version that the customer has no row for yet. The versions that were rolled out are returned.
  unfoldable pub roll_out_version :
      Trigger → Customer → AgreementDocument → AgreementVersion → Exec (List AgreementVersion)
  unfolding obligation_event
  roll_out_version trigger customer document version w =
      if is_some (States.find_by_customer_and_version w.states customer.id version.id)
      then pure [] w
      else (do
        id ← new_id env "cvs"
        modify
            (λ v. record v { states = States.save v.states (obligation_row customer version id) })
        record_event env (obligation_event trigger customer document version)
        pure (version ∷ []))
          w

  unfoldable pub roll_out_versions :
      Trigger → Customer → AgreementDocument → List AgreementVersion → Exec (List AgreementVersion)
  unfolding roll_out_version
  roll_out_versions trigger customer document [] = pure []
  roll_out_versions trigger customer document (version ∷ rest) = do
    one ← roll_out_version trigger customer document version
    others ← roll_out_versions trigger customer document rest
    pure (one ++ others)

  unfoldable pub roll_out_document :
      Trigger → Customer → List String → ℕ → AgreementDocument → Exec (List AgreementVersion)
  unfolding roll_out_versions rollout_versions
  roll_out_document trigger customer roles at document =
      if includes roles document.audience
      then (do
        versions ← gets (λ w. rollout_versions w document at)
        roll_out_versions trigger customer document versions)
      else pure []

  unfoldable pub roll_out_documents :
      Trigger → Customer → List String → ℕ → List AgreementDocument → Exec (List AgreementVersion)
  unfolding roll_out_document
  roll_out_documents trigger customer roles at [] = pure []
  roll_out_documents trigger customer roles at (document ∷ rest) = do
    some_of_them ← roll_out_document trigger customer roles at document
    others ← roll_out_documents trigger customer roles at rest
    pure (some_of_them ++ others)

  module _ (notify_version_published : Customer → AgreementVersion → Exec (Unit {0})) where
    -- A failure is logged; a customer without an address is left out.
    unfoldable pub notify_rolled_out : Customer → List AgreementVersion → Exec (Unit {0})
    notify_rolled_out customer versions = elim customer.contact_emails [
      | [] ↦ pure tt
      | email ∷ emails ↦ for_each_isolated versions (notify_version_published customer)
    ]

    -- How many versions were rolled out.
    unfoldable pub rollout_current_versions : Customer → List String → Trigger → Exec ℕ
    unfolding roll_out_documents notify_rolled_out
    rollout_current_versions customer roles trigger = do
      at ← now env
      documents ← gets (λ w. Documents.find_all w.documents)
      rolled_out ← roll_out_documents trigger customer roles at documents
      notify_rolled_out customer rolled_out
      pure (length rolled_out)
