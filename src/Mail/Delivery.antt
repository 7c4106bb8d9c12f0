-- ===== src/Mail/Delivery.antt =====
-- plugins/email/core/delivery-event.service.ts: deliveries and bounces that a provider reports.
pub mod Effects
use clickwrap.Prelude.{
  ℕ, ◌+◌, Bool, true, false, String, Option, none, some, List, [], ◌∷◌, ◌++◌, ◌<>◌, ◌==◌, String_eq,
  or_else, is_none, is_some, is_true, if◌then◌else◌,
}
use clickwrap.Domain.Types.{
  StateValue_eq, superseded, NotificationChannel, AgreementVersion, CustomerVersionState,
  NotificationEvent, OutboundEmail, EventType, EventCategory, communication, system,
  EscalationEntry, email_bounce, text, flag, email_delivered, email_bounced,
}
use clickwrap.Domain.Lifecycle
use clickwrap.Store.Versions
use clickwrap.Store.States
use clickwrap.Store.Notifications
use clickwrap.Store.Outbound
use clickwrap.Runtime.{World, Env}
use clickwrap.Runtime.Exec.{Exec, pure, lift, gets, modify, query, ◌>>=◌, ◌>>◌, now, for_each}
use clickwrap.Runtime.Recorder.{EventInput, event_input, record_event}
use clickwrap.Services.Notification.{append_notification, set_notified}

-- InboundDeliveryEvent: a delivery, or a bounce with the provider's `meta.inactivatedRecipient`.
pub data DeliveryEvent : Type 0 where
  delivered : (provider_ref : String) → DeliveryEvent
  bounced :
      (provider_ref recipient : String) → (inactivated_recipient : Option Bool) → DeliveryEvent

module _ (env : Env) where
  -- `randomUUID()`, with no prefix.
  uuid_now : Exec String
  uuid_now w = pure (env.uuid w.minted) (record w { minted = w.minted + 1 })

  delivery_event : OutboundEmail → EventInput
  delivery_event email =
      record (event_input email_delivered communication system "system"
        ("E-mail delivered to " <> email.recipient)) {
          customer_id = some email.customer_id;
          version_id = some email.version_id;
          channel = some "EMAIL";
          recipient = some email.recipient;
          metadata = some (("providerRef", text email.provider_ref) ∷ []);
        }

  bounce_event : OutboundEmail → String → Bool → EventInput
  bounce_event email recipient inactivated =
      record (event_input email_bounced communication system "system"
        "E-mail bounced (recipient unreachable)") {
          customer_id = some email.customer_id;
          version_id = some email.version_id;
          channel = some "EMAIL";
          recipient = some recipient;
          metadata = some (("inactivatedEmail", flag inactivated) ∷ []);
        }

  unfoldable pub mark_delivered : OutboundEmail → Exec (Unit {0})
  mark_delivered email w =
      if is_none email.delivered_at
      then (do
        at ← now env
        modify
            (λ v. record v { outbound = Outbound.mark_delivered v.outbound email.provider_ref at }))
          w
      else pure tt w

  -- The evidence of a delivery, of the first report only.
  unfoldable pub record_first_delivery : OutboundEmail → CustomerVersionState → Exec (Unit {0})
  unfolding uuid_now delivery_event
  record_first_delivery email state w =
      if is_some (Notifications.find_by_provider_ref w.notifications email.provider_ref)
      then pure tt w
      else (do
        id ← uuid_now
        at ← now env
        append_notification (record {
          id = id;
          customer_version_state_id = state.id;
          channel = NotificationChannel.email;
          recipient = email.recipient;
          occurred_at = at;
          provider_ref = some email.provider_ref;
        })
        record_event env (delivery_event email))
          w

  -- Access by mail starts the deadline, as a display does. The clock is read here in every case.
  unfoldable pub start_deadline : CustomerVersionState → Option AgreementVersion → Exec (Unit {0})
  start_deadline state none = pure tt
  start_deadline state (some version) = do
    t ← now env
    updated ← lift (Lifecycle.record_access state t version (is_true state.carry_over_blocking))
    saved ← set_notified state.id updated
    pure tt

  unfoldable pub deliver_to : OutboundEmail → Option CustomerVersionState → Exec (Unit {0})
  deliver_to email none = pure tt
  deliver_to email (some state) = if state.state == superseded then pure tt else (do
    record_first_delivery email state
    version ← gets (λ w. Versions.find_by_id w.versions email.version_id)
    start_deadline state version)

  unfoldable pub deliver : Option OutboundEmail → Exec (Unit {0})
  deliver none = pure tt
  deliver (some email) = do
    mark_delivered email
    state ←
        gets (λ w. States.find_by_customer_and_version w.states email.customer_id email.version_id)
    deliver_to email state

  unfoldable pub record_delivery : String → Exec (Unit {0})
  record_delivery provider_ref w = deliver (Outbound.find_by_provider_ref w.outbound provider_ref) w

  abbrev pub bounce_entry : OutboundEmail → String → Bool → String → ℕ → EscalationEntry
  bounce_entry email recipient inactivated id at = record {
    id = id;
    kind = email_bounce;
    customer_id = some email.customer_id;
    version_id = some email.version_id;
    occurred_at = at;
    actor = none;
    reason = none;
    note = none;
    recipient = some recipient;
    inactivated_email = some inactivated;
  }

  unfoldable pub bounce : Option OutboundEmail → String → Option Bool → Exec (Unit {0})
  unfolding uuid_now bounce_event
  bounce none recipient inactivated = pure tt
  bounce (some email) recipient inactivated = do
    id ← uuid_now
    at ← now env
    modify (λ w. record w {
      escalations = w.escalations ++ bounce_entry email recipient (is_true inactivated) id at ∷ [];
    })
    record_event env (bounce_event email recipient (is_true inactivated))

  -- `handle`
  unfoldable pub handle : DeliveryEvent → Exec (Unit {0})
  handle (delivered provider_ref) w = record_delivery provider_ref w
  handle (bounced provider_ref recipient inactivated) w =
      bounce (Outbound.find_by_provider_ref w.outbound provider_ref) recipient inactivated w

  poll_one : (String → Bool) → OutboundEmail → Exec (Unit {0})
  poll_one is_delivered email =
      if is_delivered email.provider_ref then record_delivery email.provider_ref else pure tt

  -- `pollPendingDeliveries`: the provider's answers are a parameter, if it can be asked.
  unfoldable pub poll_pending_deliveries : Option (String → Bool) → ℕ → Exec (Unit {0})
  unfolding poll_one
  poll_pending_deliveries none older_than = pure tt
  poll_pending_deliveries (some is_delivered) older_than = do
    pending ← gets (λ w. Outbound.find_pending_older_than w.outbound older_than)
    for_each pending (poll_one is_delivered)
