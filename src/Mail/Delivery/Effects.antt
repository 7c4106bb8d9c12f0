-- ===== src/Mail/Delivery/Effects.antt =====
-- What a report of the provider changes, and what it leaves alone.
use clickwrap.Prelude.{
  ◌+◌, ◌≡◌, ◌≢◌, refl, ap, ◌∙◌, inl, inr, String, Bool, Option, none, some, [], ◌∷◌, ◌++◌,
  String_eq, is_none, is_some, is_true, ◌==◌, Bool-cases,
}
use clickwrap.Prelude.Dict.{get}
use clickwrap.Domain.Errors.{ok}
use clickwrap.Domain.Types.{
  StateValue_eq, superseded, AgreementVersion, CustomerVersionState, OutboundEmail,
}
use clickwrap.Domain.Lifecycle
use clickwrap.Store.Notifications
use clickwrap.Store.Outbound
use clickwrap.Runtime.{World, Env}
use clickwrap.Runtime.Exec.{lift, now, bind-keeps}
use clickwrap.Runtime.Recorder.{record_event}
use clickwrap.Services.Notification.{append_notification, set_notified}
use clickwrap.Services.Notification.Access.{set_notified-keeps, append_notification-states}
use clickwrap.Mail.Delivery.{
  DeliveryEvent, delivered, bounced, uuid_now, mark_delivered, record_first_delivery,
  start_deadline, deliver_to, deliver, record_delivery, bounce_entry, bounce, handle,
}

-- The reference of an event.
abbrev pub ref_of : DeliveryEvent → String
ref_of (delivered provider_ref) = provider_ref
ref_of (bounced provider_ref recipient inactivated) = provider_ref

module _ (env : Env) where
  mark_delivered-states :
      (email : OutboundEmail) (w : World) → (mark_delivered env email w).1.states ≡ w.states
  unfolding mark_delivered now
  mark_delivered-states email w = elim (Bool-cases (is_none email.delivered_at)) [
    | inl t ↦ rw t refl
    | inr f ↦ rw f refl
  ]

  record_first_delivery-states :
      (email : OutboundEmail) (state : CustomerVersionState) (w : World)
      → (record_first_delivery env email state w).1.states ≡ w.states
  unfolding record_first_delivery uuid_now now
  record_first_delivery-states email state w =
      elim (Bool-cases
        (is_some (Notifications.find_by_provider_ref w.notifications email.provider_ref))) [
          | inl t ↦ rw t refl
          | inr f ↦
              let w1 = record w { ticks = w.ticks + 1; minted = w.minted + 1 } in
              rw f (
                bind-keeps (λ u. u.states ≡ w.states) (append_notification _) _ w1
                  (append_notification-states _ w1)
                  (λ u. unfold record_event in append_notification-states _ w1))
        ]

  module _ (s : CustomerVersionState) (k : String) (n : s.notified_at ≢ none) where
    Keeps : World → Type 0
    Keeps u = get u.states k ≡ some s

    start_deadline-Keeps :
        (state : CustomerVersionState) (version : Option AgreementVersion) (w : World)
        → Keeps w
        → Keeps (start_deadline env state version w).1
    unfolding start_deadline now Keeps
    start_deadline-Keeps state none w g = g
    start_deadline-Keeps state (some version) w g =
        let w1 = record w { ticks = w.ticks + 1 } in
        bind-keeps (λ u. get u.states k ≡ some s)
          (lift (
            Lifecycle.record_access state (env.clock w.ticks) version
              (is_true state.carry_over_blocking)))
          _ w1 g
          (λ updated.
            let p = set_notified-keeps state.id k updated s w1 g n in
            bind-keeps (λ u. get u.states k ≡ some s) (set_notified state.id updated) _ w1 p
              (λ row. p))

    deliver_to-Keeps :
        (email : OutboundEmail) (found : Option CustomerVersionState) (w : World)
        → Keeps w
        → Keeps (deliver_to env email found w).1
    unfolding deliver_to Keeps
    deliver_to-Keeps email none w g = g
    deliver_to-Keeps email (some state) w g = elim (Bool-cases (state.state == superseded)) [
      | inl t ↦ rw t g
      | inr f ↦
          let p = ap (λ d. get d k) (record_first_delivery-states email state w) ∙ g in
          rw f (
            bind-keeps (λ u. get u.states k ≡ some s) (record_first_delivery env email state) _ w p
              (λ u. start_deadline-Keeps state _ (record_first_delivery env email state w).1 p))
    ]

    deliver-Keeps :
        (found : Option OutboundEmail) (w : World) → Keeps w → Keeps (deliver env found w).1
    unfolding deliver Keeps
    deliver-Keeps none w g = g
    deliver-Keeps (some email) w g =
        let p = ap (λ d. get d k) (mark_delivered-states email w) ∙ g in
        bind-keeps (λ u. get u.states k ≡ some s) (mark_delivered env email) _ w p
          (λ u. deliver_to-Keeps email _ (mark_delivered env email w).1 p)

    bounce-Keeps :
        (found : Option OutboundEmail) (recipient : String) (inactivated : Option Bool) (w : World)
        → Keeps w
        → Keeps (bounce env found recipient inactivated w).1
    unfolding bounce uuid_now now record_event Keeps
    bounce-Keeps none recipient inactivated w g = g
    bounce-Keeps (some email) recipient inactivated w g = g

  -- No report of the provider changes a row that has been notified before: not its deadline, not its
  -- state, and nothing else of it.
  pub handle-keeps :
      (event : DeliveryEvent) (s : CustomerVersionState) (k : String) (w : World)
      → get w.states k ≡ some s
      → s.notified_at ≢ none
      → get (handle env event w).1.states k ≡ some s
  unfolding handle record_delivery Keeps
  handle-keeps (delivered provider_ref) s k w g n = deliver-Keeps s k n _ w g
  handle-keeps (bounced provider_ref recipient inactivated) s k w g n =
      bounce-Keeps s k n _ recipient inactivated w g

  -- A report about a mail that was not sent from here does nothing at all. A bounce of one that was
  -- leaves one note in the escalation log, and starts no deadline: it changes no row and adds no
  -- evidence of a delivery.
  pub handle_bounced :
      (event : DeliveryEvent) (provider_ref recipient : String) (inactivated : Option Bool)
      (email : OutboundEmail) (w w' : World)
      → Outbound.find_by_provider_ref w.outbound (ref_of event) ≡ none
      → Outbound.find_by_provider_ref w'.outbound provider_ref ≡ some email
      → (handle env event w ≡ (ok tt, w))
        × (let after = (handle env (bounced provider_ref recipient inactivated) w').1 in
            (after.escalations
              ≡ w'.escalations
                ++ bounce_entry env email recipient
                    (is_true inactivated)
                    (env.uuid w'.minted)
                    (env.clock w'.ticks)
                  ∷ [])
            × (after.states ≡ w'.states)
            × (after.notifications ≡ w'.notifications))
  unfolding handle record_delivery deliver bounce uuid_now now record_event
  handle_bounced (delivered ref) provider_ref recipient inactivated email w w' h g =
      (rw h refl, rw g (refl, refl, refl))
  handle_bounced (bounced ref to i) provider_ref recipient inactivated email w w' h g =
      (rw h refl, rw g (refl, refl, refl))
