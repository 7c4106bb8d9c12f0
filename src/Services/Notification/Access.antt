-- ===== src/Services/Notification/Access.antt =====
-- When the deadline starts, and what each display leaves behind.
use clickwrap.Prelude.{
  ℕ, ◌+◌, ◌≡◌, ◌≢◌, refl, ap, ◌∙◌, inl, inr, String, ◌&&◌, Option, none, some, arith, String_eq,
  is_none, is_some, Option-cases, Bool-cases,
}
use text.Mathlib.TextEquality.{eq_iff}
use clickwrap.Prelude.Dict.{get}
use clickwrap.Domain.Errors.{Result-cases}
use clickwrap.Domain.Types.{AgreementVersion, NotificationEvent, CustomerVersionState}
use clickwrap.Store.Versions
use clickwrap.Store.States
use clickwrap.Store.States.Updates.{set_notified_atomically_first_wins}
use clickwrap.Store.Notifications
use clickwrap.Runtime.{World, Env}
use clickwrap.Runtime.Exec.{query, now, new_id, bind-keeps}
use clickwrap.Runtime.Recorder.{record_event}
use clickwrap.Services.Notification.{
  NotificationInput, append_notification, set_notified, assess_plausibility, record_delivery,
  record_first, record_page, notify_state, notify, read_access,
}

pub set_notified-keeps :
    (id k : String) (updated s : CustomerVersionState) (w : World)
    → get w.states k ≡ some s
    → s.notified_at ≢ none
    → get (set_notified id updated w).1.states k ≡ some s
unfolding set_notified
set_notified-keeps id k updated s w g n =
    let u : States.NotifiedUpdate = record {
      state = updated.state;
      notified_at = updated.notified_at;
      deadline_at = updated.deadline_at;
    } in
    elim (Result-cases (States.set_notified_atomically w.states id u)) [
      | inl (e, p) ↦ ground arith
      | inr ((d, row), p) ↦
          let (t, gt, how, at) = set_notified_atomically_first_wins w.states d id k u row p in
          ground (arith, eq_iff id k)
    ]

pub append_notification-states :
    (e : NotificationEvent) (w : World) → (append_notification e w).1.states ≡ w.states
unfolding append_notification
append_notification-states e w =
    bind-keeps (λ u. u.states ≡ w.states) (query (λ v. Notifications.append v.notifications e)) _ w
      refl (λ d. refl)

module _ (env : Env) (input : NotificationInput) where
  record_first-states :
      (state saved : CustomerVersionState) (w : World)
      → (record_first env input state saved w).1.states ≡ w.states
  unfolding record_first record_delivery now new_id
  record_first-states state saved w =
      elim (Bool-cases (is_none state.notified_at && is_some saved.notified_at)) [
        | inl t ↦
            rw t (
              append_notification-states _
                (record w { ticks = w.ticks + 1; minted = w.minted + 1 }))
        | inr f ↦ rw f refl
      ]

  record_page-states :
      (v : AgreementVersion) (saved : CustomerVersionState) (w : World)
      → (record_page env input v saved w).1.states ≡ w.states
  unfolding record_page record_event
  record_page-states v saved w = elim (Bool-cases (is_some saved.notified_at)) [
    | inl t ↦ rw t refl
    | inr f ↦ rw f refl
  ]

  assess_plausibility-states :
      (at : Option ℕ) (w : World) → (assess_plausibility env at w).1.states ≡ w.states
  unfolding assess_plausibility now
  assess_plausibility-states none w = refl
  assess_plausibility-states (some d) w = refl

  read_access-states :
      (state : CustomerVersionState) (v : AgreementVersion) (w : World)
      → (read_access env state v w).1.states ≡ w.states
  unfolding read_access now
  read_access-states state v w = refl

  notify_state-keeps :
      (v : AgreementVersion) (state s : CustomerVersionState) (k : String) (w : World)
      → get w.states k ≡ some s
      → s.notified_at ≢ none
      → get (notify_state env input v state w).1.states k ≡ some s
  unfolding notify_state
  notify_state-keeps v state s k w g n =
      let P : World → Type 0 = λ u. get u.states k ≡ some s in
      let p0 : P (read_access env state v w).1 =
        ap (λ d. get d k) (read_access-states state v w) ∙ g in
      bind-keeps P (read_access env state v) _ w p0 (λ updated.
        let w1 = (read_access env state v w).1 in
        let p1 = set_notified-keeps state.id k updated s w1 p0 n in
        bind-keeps P (set_notified state.id updated) _ w1 p1 (λ saved.
          let w2 = (set_notified state.id updated w1).1 in
          let p2 = ap (λ d. get d k) (record_first-states state saved w2) ∙ p1 in
          bind-keeps P (record_first env input state saved) _ w2 p2 (λ u.
            let w3 = (record_first env input state saved w2).1 in
            let p3 = ap (λ d. get d k) (record_page-states v saved w3) ∙ p2 in
            bind-keeps P (record_page env input v saved) _ w3 p3 (λ u'. p3))))

  -- No display moves a deadline: a row of any customer that has been displayed before keeps its time of
  -- notification, its deadline, its state and all else, whatever the request returns.
  pub notify-keeps :
      (s : CustomerVersionState) (k : String) (w : World)
      → get w.states k ≡ some s
      → s.notified_at ≢ none
      → get (notify env input w).1.states k ≡ some s
  unfolding notify
  notify-keeps s k w g n =
      let P : World → Type 0 = λ u. get u.states k ≡ some s in
      elim (Option-cases (Versions.find_by_id w.versions input.version_id)) [
        | inl e ↦ rw e g
        | inr (v, e) ↦
            elim (Option-cases
              (States.find_by_customer_and_version w.states input.customer_id input.version_id)) [
                | inl f ↦ rw (e, f) g
                | inr (state, f) ↦
                    let m = assess_plausibility env input.displayed_at in
                    let p : P (m w).1 =
                      ap (λ d. get d k) (assess_plausibility-states input.displayed_at w) ∙ g in
                    rw (e, f)
                      (bind-keeps P m (λ a. notify_state env input v state) w p
                        (λ a. notify_state-keeps v state s k (m w).1 p n))
              ]
      ]
