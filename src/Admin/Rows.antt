-- ===== src/Admin/Rows.antt =====
-- admin/customer-version-state-admin.service.ts: deadlines, blocks and objections put right by hand.
pub mod Patches
use clickwrap.Prelude.{
  ℕ, ◌+◌, Bool, true, false, not, String, Option, none, some, [], ◌∷◌, ◌<>◌, ◌==◌, String_eq, trim,
  is_some, is_true, if◌then◌else◌,
}
use clickwrap.Domain.Errors.{Result, ok, err, invalid_state, version_not_found, customer_not_found}
use clickwrap.Domain.Types.{
  StateValue_eq, notified, objected, expired_blocking, AgreementVersion, Customer,
  CustomerVersionState, EventType, administration, admin, flag, number, text, undefined, MetaValue,
  Metadata, customer_version_state_patch, remind, objection_reopened, block_suspended,
  deadline_extended, reminder_triggered,
}
use clickwrap.Domain.Consent.{require}
use clickwrap.Domain.Customers.{customer_display_name}
use clickwrap.Store.Versions
use clickwrap.Store.Customers
use clickwrap.Store.States
use clickwrap.Runtime.{World, Env}
use clickwrap.Runtime.Exec.{Exec, pure, lift, modify, fetch, ◌>>=◌, ◌>>◌}
use clickwrap.Runtime.Recorder.{EventInput, event_input, record_event}
use clickwrap.Runtime.Audit.{audit_now}

pub record PatchStateInput : Type 0 where
  pub deadline_at : Option ℕ
  pub suspend_block : Option Bool
  pub reopen_objection : Option Bool
  pub reason : String

-- The patched row: the first of the three requests that is made decides.
unfoldable pub patched : PatchStateInput → CustomerVersionState → Result CustomerVersionState
patched input state =
    if is_true input.reopen_objection
    then (if state.state == objected
        then ok (record state { state = notified })
        else err invalid_state)
    else if is_true input.suspend_block
    then (if state.state == expired_blocking
        then (elim input.deadline_at [
          | none ↦ err invalid_state
          | some deadline ↦ ok (record state { state = notified; deadline_at = some deadline })
        ])
        else err invalid_state)
    else (elim input.deadline_at [
      | none ↦ err invalid_state
      | some deadline ↦ ok (record state { deadline_at = some deadline })
    ])

abbrev patch_event : PatchStateInput → EventType
patch_event input =
    if is_true input.reopen_objection
    then objection_reopened
    else if is_true input.suspend_block
    then block_suspended
    else deadline_extended

abbrev patch_label : PatchStateInput → String
patch_label input =
    if is_true input.reopen_objection
    then "Objection reset"
    else if is_true input.suspend_block
    then "Block suspended"
    else "Deadline extended"

abbrev moment : Option ℕ → MetaValue
moment none = undefined
moment (some at) = number at

unfoldable pub get_state : String → Exec CustomerVersionState
get_state id = fetch (λ w. States.find_by_id w.states id) invalid_state

unfoldable pub save_state : CustomerVersionState → Exec (Unit {0})
save_state row = modify (λ w. record w { states = States.save w.states row })

-- The date in `metadata` is kept as a number, where the source writes its ISO text.
unfoldable pub patch_input : PatchStateInput → CustomerVersionState → String → EventInput
patch_input input saved admin_user_id =
    record (event_input (patch_event input) administration admin admin_user_id
      (patch_label input <> " — " <> input.reason)) {
        customer_id = some saved.customer_id;
        version_id = some saved.version_id;
        metadata = some (
            ("reason", text input.reason) ∷ (elim input.deadline_at [
              | none ↦ []
              | some deadline ↦ ("deadlineAt", number deadline) ∷ []
            ]));
      }

module _ (env : Env) where
  -- The audit entry and the event of a patch.
  unfoldable pub record_patch :
      String → PatchStateInput → String → CustomerVersionState → Exec (Unit {0})
  unfolding patch_input
  record_patch state_id input admin_user_id saved = do
    audit_now env customer_version_state_patch admin_user_id "CustomerVersionState" state_id
        (some input.reason)
        (some (
          ("deadlineAt", moment input.deadline_at)
          ∷ ("suspendBlock", flag (is_true input.suspend_block))
          ∷ ("reopenObjection", flag (is_true input.reopen_objection))
          ∷ []))
    record_event env (patch_input input saved admin_user_id)

  unfoldable pub patch : String → PatchStateInput → String → Exec CustomerVersionState
  patch state_id input admin_user_id = do
    lift (require (not (trim input.reason == "")) invalid_state)
    state ← get_state state_id
    updated ← lift (patched input state)
    save_state updated
    record_patch state_id input admin_user_id updated
    pure updated

  reminded : Customer → AgreementVersion → String → EventInput
  reminded customer version admin_user_id =
      record (event_input reminder_triggered administration admin admin_user_id
        "Reminder e-mail re-sent") {
          customer_id = some customer.id;
          customer_name = some (customer_display_name customer);
          version_id = some version.id;
          version_label = some version.version_label;
        }

  -- `remind`, with the notifier's call as a parameter, which may throw and change what it owns.
  unfoldable pub remind_again :
      (Customer → CustomerVersionState → AgreementVersion → Exec (Unit {0}))
      → String
      → String
      → Exec CustomerVersionState
  unfolding reminded
  remind_again notifier state_id admin_user_id = do
    state ← get_state state_id
    version ← fetch (λ w. Versions.find_by_id w.versions state.version_id) version_not_found
    customer ← fetch (λ w. Customers.find_by_id w.customers state.customer_id) customer_not_found
    notifier customer state version
    let saved = record state { reminders_sent = state.reminders_sent + 1 }
    save_state saved
    audit_now env remind admin_user_id "CustomerVersionState" state_id none none
    record_event env (reminded customer version admin_user_id)
    pure saved
