-- ===== src/Services/Reminder/Counter.antt =====
-- How many reminders a row gets.
use clickwrap.Prelude.{
  ℕ, zero, suc, ◌+◌, ◌-◌, ◌*◌, ◌≡◌, refl, ap, ◌∙◌, inl, inr, true, some, String, arith, String_eq,
  ℕ_eq, ◌==◌, leb, if◌then◌else◌, Bool-cases,
}
use clickwrap.Prelude.Dict.{get, set, get-set}
use clickwrap.Domain.Errors.{ok}
use clickwrap.Domain.Types.{
  StateValue_eq, state_eq_iff, AgreementVersion, Customer, CustomerVersionState,
}
use clickwrap.Domain.Lifecycle.{ms_per_day}
use clickwrap.Store.States
use clickwrap.Runtime.{World}
use clickwrap.Runtime.Exec.{Exec, bind-through}
use clickwrap.Services.Reminder.{
  ReminderCandidate, is_threshold_due, from_index, reminder_thresholds_days, send_open,
  write_counter, remind_active,
}

-- How many thresholds have passed at `t`.
abbrev pub passed : ℕ → ℕ → ℕ
passed deadline t =
    if leb deadline (t + 2 * ms_per_day)
    then 2
    else if leb deadline (t + 7 * ms_per_day)
    then 1
    else 0

-- The counter after a pass.
abbrev pub counter_after : ℕ → ℕ → ℕ → ℕ
counter_after sent deadline t = if leb (passed deadline t) sent then sent else passed deadline t

-- A mailer that delivers: a call is `mail` on the World, which writes no rows.
pub record Delivers (send : Customer → String → AgreementVersion → ℕ → Exec (Unit {0}))
    (mail : Customer → String → AgreementVersion → ℕ → World → World) : Type 0 where
  pub sends :
      (c : Customer) (to : String) (v : AgreementVersion) (deadline : ℕ) (w : World)
      → send c to v deadline w ≡ (ok tt, mail c to v deadline w)
  pub rows :
      (c : Customer) (to : String) (v : AgreementVersion) (deadline : ℕ) (w : World)
      → (mail c to v deadline w).states ≡ w.states

-- So many mails to the recipient of the candidate.
abbrev pub mails :
    (Customer → String → AgreementVersion → ℕ → World → World)
    → ReminderCandidate
    → (deadline count : ℕ) → World
    → World
mails mail candidate deadline zero w = w
mails mail candidate deadline (suc count) w =
    mails mail candidate deadline count
      (mail candidate.customer candidate.recipient candidate.version deadline w)

transition-at :
    (d : States.States) (s : CustomerVersionState) (n : ℕ)
    → get d s.id ≡ some s
    → (States.transition d s.id s.state (record { state = s.state; reminders_sent = some n })).0
      ≡ set d s.id (record s { reminders_sent = n })
unfolding States.transition
transition-at d s n h =
    let state : (s.state == s.state) ≡ true = (state_eq_iff s.state s.state).1 refl in
    rw (States.transition, h, state) refl

-- The counter that is written to the row, and no other row.
write_counter-lem :
    (send : Customer → String → AgreementVersion → ℕ → Exec (Unit {0})) (s : CustomerVersionState)
    (n : ℕ) (other : String) (w : World)
    → get w.states s.id ≡ some s
    → (let after = write_counter send s n w in
        (after.0 ≡ ok tt)
        × (after.1 ≡ record w { states = after.1.states })
        × (get after.1.states other ≡ (
            if s.id == other then some (record s { reminders_sent = n }) else get w.states other)))
unfolding write_counter
write_counter-lem send s n other w h = elim (Bool-cases (n == s.reminders_sent)) [
  | inl t ↦
      let same : n ≡ s.reminders_sent = (ℕ_eq.beq_iff n s.reminders_sent).0 t in
      rw t (refl, refl, rw same (ground (arith, h, String_eq.beq_iff s.id other)))
  | inr f ↦
      let stored = transition-at w.states s n h in
      rw f (refl, refl, rw stored (get-set w.states s.id other (record s { reminders_sent = n })))
]

module _ (send : Customer → String → AgreementVersion → ℕ → Exec (Unit {0}))
    (mail : Customer → String → AgreementVersion → ℕ → World → World)
    (delivers : Delivers send mail) where
  mails-rows :
      (candidate : ReminderCandidate) (deadline count : ℕ) (w : World)
      → (mails mail candidate deadline count w).states ≡ w.states
  mails-rows candidate deadline zero w = refl
  mails-rows candidate deadline (suc count) w =
      mails-rows candidate deadline count
        (mail candidate.customer candidate.recipient candidate.version deadline w)
      ∙ delivers.rows candidate.customer candidate.recipient candidate.version deadline w

  -- The loop sends a mail for each open threshold that has passed.
  send_open_lem :
      (candidate : ReminderCandidate) (deadline t sent : ℕ) (w : World)
      → send_open send candidate deadline t (from_index sent reminder_thresholds_days) sent w ≡ (
        ok (counter_after sent deadline t),
        mails mail candidate deadline (counter_after sent deadline t - sent) w,
      )
  unfolding send_open is_threshold_due
  send_open_lem candidate deadline t zero w =
      let once = delivers.sends candidate.customer candidate.recipient candidate.version deadline in
      ground (
        arith,
        once w,
        once (mail candidate.customer candidate.recipient candidate.version deadline w),
      )
  send_open_lem candidate deadline t (suc zero) w =
      ground
        (arith, delivers.sends candidate.customer candidate.recipient candidate.version deadline w)
  send_open_lem candidate deadline t (suc (suc zero)) w = ground arith
  send_open_lem candidate deadline t (suc (suc (suc sent))) w = ground arith

  -- With a mailer that delivers, a pass over a candidate that is stored as it was found returns. The stored
  -- counter is then the number of thresholds that have passed, or what it was if that is more; exactly
  -- as many mails went to the recipient as the counter has grown by; no other row is changed.
  pub remind_active_counter :
      (candidate : ReminderCandidate) (deadline t : ℕ) (other : String) (w : World)
      → get w.states candidate.state.id ≡ some candidate.state
      → (let s = candidate.state in
          let count = counter_after s.reminders_sent deadline t in
          let after = remind_active send candidate t (some deadline) w in
          (after.0 ≡ ok tt)
          × (after.1 ≡ record (mails mail candidate deadline (count - s.reminders_sent) w) {
            states = after.1.states;
          })
          × (get after.1.states other ≡ (
              if s.id == other
              then some (record s { reminders_sent = count })
              else get w.states other)))
  unfolding remind_active
  remind_active_counter candidate deadline t other w h =
      let s = candidate.state in
      let count = counter_after s.reminders_sent deadline t in
      let w1 = mails mail candidate deadline (count - s.reminders_sent) w in
      let rows : w1.states ≡ w.states =
        mails-rows candidate deadline (count - s.reminders_sent) w in
      let (a, b, c) = write_counter-lem send s count other w1 (ap (λ d. get d s.id) rows ∙ h) in
      let runs =
        bind-through
          (send_open send candidate deadline t
            (from_index s.reminders_sent reminder_thresholds_days) s.reminders_sent)
          (write_counter send s) w w1 count (write_counter send s count w1)
          (send_open_lem candidate deadline t s.reminders_sent w) refl in
      rw runs (
        a,
        b,
        c
            ∙ ap
                (λ d.
                  if s.id == other then some (record s { reminders_sent = count }) else get d other)
                rows,
      )
