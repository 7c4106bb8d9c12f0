-- ===== src/Services/Notification.antt =====
-- consent/notification.service.ts: the popup or the page was displayed to the customer.
pub mod Access
use clickwrap.Prelude.{
  ℕ, ◌+◌, ◌-◌, Bool, true, false, ◌&&◌, String, Option, none, some, ◌<>◌, or_else, is_none, is_some,
  leb, String_eq, if◌then◌else◌,
}
use clickwrap.Domain.Errors.{version_not_found, invalid_state}
use clickwrap.Domain.Types.{
  StateValue, NotificationChannel, CustomerContext, AgreementVersion, CustomerVersionState,
  NotificationEvent, access, customer, page_accessed,
}
use clickwrap.Domain.Lifecycle
use clickwrap.Store.Versions
use clickwrap.Store.States
use clickwrap.Store.Notifications
use clickwrap.Runtime.{World, Env}
use clickwrap.Runtime.Exec.{Exec, pure, lift, modify, fetch, query, ◌>>=◌, ◌>>◌, now, new_id}
use clickwrap.Runtime.Recorder.{EventInput, event_input, record_event}
use clickwrap.Services.Acceptance.Records.{actor_label}

-- DisplayNotificationChannel
pub data DisplayChannel : Type 0 where
  portal link : DisplayChannel

abbrev notification_channel : DisplayChannel → NotificationChannel
notification_channel portal = NotificationChannel.portal
notification_channel link = NotificationChannel.link

abbrev channel_text : DisplayChannel → String
channel_text portal = "PORTAL"
channel_text link = "LINK"

pub record NotificationInput : Type 0 where
  pub customer_id : String
  pub version_id : String
  pub channel : DisplayChannel
  pub displayed_at : Option ℕ
  pub context : CustomerContext

pub record NotificationResponse : Type 0 where
  pub state : StateValue
  pub notified_at : Option ℕ
  pub deadline_at : Option ℕ

abbrev plausibility_window_ms : ℕ
plausibility_window_ms = 600_000

unfoldable pub append_notification : NotificationEvent → Exec (Unit {0})
append_notification event = do
  notifications ← query (λ w. Notifications.append w.notifications event)
  modify (λ w. record w { notifications = notifications })

-- The atomic write, which returns the row as it is stored after it.
unfoldable pub set_notified : String → CustomerVersionState → Exec CustomerVersionState
set_notified id updated = do
  written ← query (λ w. States.set_notified_atomically w.states id (record {
    state = updated.state;
    notified_at = updated.notified_at;
    deadline_at = updated.deadline_at;
  }))
  modify (λ w. record w { states = written.0 })
  pure written.1

module _ (env : Env) where
  -- `Math.abs(now - displayedAt) <= PLAUSIBILITY_WINDOW_MS`, whose value is not used
  unfoldable pub assess_plausibility : Option ℕ → Exec Bool
  assess_plausibility none = pure true
  assess_plausibility (some displayed_at) = do
    t ← now env
    pure (leb ((t - displayed_at) + (displayed_at - t)) plausibility_window_ms)

  -- The clock is read here also where `recordAccess` has no use for it.
  read_access : CustomerVersionState → AgreementVersion → Exec CustomerVersionState
  read_access state version = do
    t ← now env
    lift (Lifecycle.record_access state t version (or_else state.carry_over_blocking false))

  unfoldable pub record_delivery : NotificationInput → String → Exec (Unit {0})
  record_delivery input state_id = do
    id ← new_id env "n"
    at ← now env
    append_notification (record {
      id = id;
      customer_version_state_id = state_id;
      channel = notification_channel input.channel;
      recipient = input.context.actor.user_id;
      occurred_at = at;
      provider_ref = none;
    })

  accessed_event : NotificationInput → AgreementVersion → EventInput
  accessed_event input version =
      record (event_input page_accessed access customer
        (actor_label input.context.actor input.context.actor.user_id)
        ("Acceptance page opened via "
          <> channel_text input.channel
          <> " (version "
          <> version.version_label
          <> ")")) {
            customer_id = some input.customer_id;
            version_id = some input.version_id;
            version_label = some version.version_label;
            channel = some (channel_text input.channel);
            recipient = some input.context.actor.user_id;
          }

  -- The delivery evidence, of the first access only.
  unfoldable pub record_first :
      NotificationInput → CustomerVersionState → CustomerVersionState → Exec (Unit {0})
  record_first input state saved w =
      if is_none state.notified_at && is_some saved.notified_at
      then record_delivery input state.id w
      else pure tt w

  -- The audit event, of every access that applies.
  unfoldable pub record_page :
      NotificationInput → AgreementVersion → CustomerVersionState → Exec (Unit {0})
  unfolding accessed_event
  record_page input version saved w =
      if is_some saved.notified_at
      then record_event env (accessed_event input version) w
      else pure tt w

  unfoldable pub notify_state :
      NotificationInput → AgreementVersion → CustomerVersionState → Exec NotificationResponse
  unfolding read_access
  notify_state input version state = do
    updated ← read_access state version
    saved ← set_notified state.id updated
    record_first input state saved
    record_page input version saved
    pure (record {
      state = saved.state;
      notified_at = saved.notified_at;
      deadline_at = saved.deadline_at;
    })

  unfoldable pub notify : NotificationInput → Exec NotificationResponse
  notify input = do
    version ← fetch (λ w. Versions.find_by_id w.versions input.version_id) version_not_found
    state ←
        fetch (λ w. States.find_by_customer_and_version w.states input.customer_id input.version_id)
          invalid_state
    is_plausible ← assess_plausibility input.displayed_at
    notify_state input version state
