-- ===== src/Services/Publish.antt =====
-- agreements/publish.service.ts: a draft goes into effect, or is scheduled, and is rolled out.
pub mod Rollout
pub mod Total
use clickwrap.Prelude.{
  ℕ, ◌+◌, Bool, true, false, ◌&&◌, not, String, Option, none, some, List, [], ◌∷◌, ◌++◌, ◌<>◌, ◌==◌,
  String_eq, if◌then◌else◌, keep, length, leb, is_true,
}
use clickwrap.Prelude.Dict.{Dict, get, set}
use clickwrap.Domain.Errors.{ok, version_not_found, invalid_state}
use clickwrap.Domain.Types.{
  VersionStatus_eq, published, retired, pending_notification, AgreementDocument, AgreementVersion,
  Customer, CustomerVersionState, consent, administration, admin, text, number, version_retired,
  version_published, obligation_rolled_out, publish, AdminAuditLog,
}
use clickwrap.Domain.Consent.{validate_for_publish}
use clickwrap.Domain.Customers.{customer_display_name}
use clickwrap.Domain.Lifecycle
use clickwrap.Domain.Lifecycle.{rollout_deadline_for}
use clickwrap.Store.Documents
use clickwrap.Store.Versions
use clickwrap.Store.Customers
use clickwrap.Store.States
use clickwrap.Runtime.{World, Env}
use clickwrap.Runtime.Exec.{
  Exec, pure, lift, gets, modify, fetch, query, ◌>>=◌, ◌>>◌, for_each, now, new_id,
}
use clickwrap.Runtime.Recorder.{EventInput, event_input, record_event}

pub record PublishResult : Type 0 where
  pub version_id : String
  pub rollout_customers : ℕ
  pub published_at : ℕ

-- `blockingByCustomer`
abbrev pub Blocking : Type 0
Blocking = Dict String Bool

abbrev pub is_carried : Blocking → String → Bool
is_carried blocking customer_id = is_true (get blocking customer_id)

abbrev pub save_version : AgreementVersion → Exec (Unit {0})
save_version version = do
  versions ← query (λ w. Versions.save w.documents w.versions version)
  modify (λ w. record w { versions = versions })

abbrev pub save_state : CustomerVersionState → Exec (Unit {0})
save_state state = modify (λ w. record w { states = States.save w.states state })

unfoldable pub mark : String → Bool → Blocking → Blocking
mark customer_id was_blocking blocking =
    if was_blocking then set blocking customer_id true else blocking

-- The open rows of one predecessor version.
unfoldable pub supersede_open : List CustomerVersionState → Blocking → Exec Blocking
unfolding mark
supersede_open [] blocking = pure blocking
supersede_open (open_state ∷ rest) blocking = do
  result ← lift (Lifecycle.supersede open_state)
  save_state result.0
  supersede_open rest (mark open_state.customer_id result.1 blocking)

unfoldable pub predecessors_of : AgreementVersion → List AgreementVersion → List AgreementVersion
predecessors_of version siblings =
    keep (λ v. not (v.id == version.id) && v.status == published) siblings

abbrev pub retired_of : AgreementVersion → AgreementVersion
retired_of version = record version { status = retired }

module _ (env : Env) where
  abbrev pub retired_event : AgreementDocument → AgreementVersion → String → EventInput
  retired_event document predecessor admin_user_id =
      record (event_input version_retired administration admin admin_user_id
        ("Version " <> predecessor.version_label <> " retired")) {
          version_id = some predecessor.id;
          document_type = some document.type;
          audience = some document.audience;
          version_label = some predecessor.version_label;
        }

  unfoldable pub retire :
      AgreementDocument → String → List AgreementVersion → Blocking → Exec Blocking
  retire document admin_user_id [] blocking = pure blocking
  retire document admin_user_id (predecessor ∷ rest) blocking = do
    save_version (retired_of predecessor)
    record_event env (retired_event document predecessor admin_user_id)
    open_states ← gets (λ w. States.find_open_by_version w.states predecessor.id)
    marked ← supersede_open open_states blocking
    retire document admin_user_id rest marked

  rolled_out_event : AgreementDocument → AgreementVersion → String → Customer → EventInput
  rolled_out_event document version admin_user_id target =
      record (event_input obligation_rolled_out consent admin admin_user_id
        ("Customer put under obligation for version " <> version.version_label)) {
          customer_id = some target.id;
          customer_name = some (customer_display_name target);
          version_id = some version.id;
          document_type = some document.type;
          audience = some document.audience;
          version_label = some version.version_label;
        }

  unfoldable pub rollout_state :
      AgreementVersion → ℕ → Blocking → Customer → String → CustomerVersionState
  rollout_state version published_at blocking target id = record {
    id = id;
    customer_id = target.id;
    version_id = version.id;
    state = pending_notification;
    notified_at = none;
    deadline_at = rollout_deadline_for version;
    reminders_sent = 0;
    carry_over_blocking = if is_carried blocking target.id then some true else none;
    notification_due_at = some published_at;
  }

  unfoldable pub roll_out :
      AgreementDocument → AgreementVersion → String → ℕ → Blocking → Customer → Exec (Unit {0})
  unfolding rolled_out_event
  roll_out document version admin_user_id published_at blocking target = do
    id ← new_id env "cvs"
    save_state (rollout_state version published_at blocking target id)
    record_event env (rolled_out_event document version admin_user_id target)

  -- `VERSION_PUBLISHED`, and the entry of the audit log
  published_event : AgreementDocument → AgreementVersion → String → ℕ → EventInput
  published_event document version admin_user_id count =
      record (event_input version_published administration admin admin_user_id
        ("Version " <> version.version_label <> " published")) {
          version_id = some version.id;
          document_type = some document.type;
          audience = some document.audience;
          version_label = some version.version_label;
          metadata =
              some (("documentId", text document.id) ∷ ("rolloutCustomers", number count) ∷ []);
        }

  audit_of : AgreementDocument → AgreementVersion → String → ℕ → ℕ → String → AdminAuditLog
  audit_of document version admin_user_id published_at count id = record {
    id = id;
    action = publish;
    actor = admin_user_id;
    target_type = "AgreementVersion";
    target_id = version.id;
    reason = none;
    metadata = some (("documentId", text document.id) ∷ ("rolloutCustomers", number count) ∷ []);
    created_at = published_at;
  }

  append_audit : AdminAuditLog → Exec (Unit {0})
  append_audit entry = modify (λ w. record w { audit = w.audit ++ entry ∷ [] })

  -- Step 3 and 4, for a version that is in effect.
  unfoldable pub retire_predecessors :
      AgreementDocument → AgreementVersion → String → ℕ → Exec Blocking
  retire_predecessors document version admin_user_id published_at w =
      if leb version.valid_from published_at
      then (do
        siblings ← gets (λ v. Versions.find_by_document v.versions document.id)
        retire document admin_user_id (predecessors_of version siblings) [])
          w
      else (ok [], w)

  abbrev pub published_of : AgreementVersion → ℕ → String → AgreementVersion
  published_of version published_at admin_user_id = record version {
    status = published;
    published_at = some published_at;
    published_by = some admin_user_id;
  }

  -- Step 5.
  unfoldable pub roll_out_all :
      AgreementDocument → AgreementVersion → String → ℕ → Blocking → Exec (List Customer)
  roll_out_all document version admin_user_id published_at blocking = do
    targets ← gets (λ w. Customers.find_by_role w.customers document.audience)
    for_each targets (roll_out document version admin_user_id published_at blocking)
    pure targets

  -- Step 2 to 6, once the version is known to be valid.
  unfoldable pub publish_checked :
      AgreementVersion → AgreementDocument → String → Exec PublishResult
  unfolding audit_of append_audit published_event
  publish_checked version document admin_user_id = do
    published_at ← now env
    save_version (published_of version published_at admin_user_id)
    blocking ← retire_predecessors document version admin_user_id published_at
    targets ← roll_out_all document version admin_user_id published_at blocking
    id ← new_id env "audit"
    append_audit (audit_of document version admin_user_id published_at (length targets) id)
    record_event env (published_event document version admin_user_id (length targets))
    pure (record {
      version_id = version.id;
      rollout_customers = length targets;
      published_at = published_at;
    })

  unfoldable pub publish_version : String → String → Exec PublishResult
  publish_version version_id admin_user_id = do
    version ← fetch (λ w. Versions.find_by_id w.versions version_id) version_not_found
    lift (validate_for_publish version)
    document ← fetch (λ w. Documents.find_by_id w.documents version.document_id) invalid_state
    publish_checked version document admin_user_id
