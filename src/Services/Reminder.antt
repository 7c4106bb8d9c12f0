-- ===== src/Services/Reminder.antt =====
-- sweeper/reminder.service.ts and sweeper/reminder-candidate.repo.inmemory.ts: mails before a deadline.
pub mod Counter
use clickwrap.Prelude.{
  ℕ, zero, suc, ◌+◌, ◌*◌, String, Bool, true, false, ◌&&◌, ◌||◌, not, Option, none, some, List, [],
  ◌∷◌, ◌++◌, ◌==◌, String_eq, ℕ_eq, if◌then◌else◌, leb, first,
}
use mathlib.Core.Option
use clickwrap.Prelude.Sort.{sort}
use clickwrap.Domain.Types.{
  active, passive, StateValue_eq, notified, pending_notification, AgreementVersion, Customer,
  CustomerVersionState, NotificationEvent,
}
use clickwrap.Domain.Lifecycle.{ms_per_day, add_days}
use clickwrap.Store.Versions
use clickwrap.Store.Customers
use clickwrap.Store.States
use clickwrap.Store.Notifications
use clickwrap.Runtime.{World, Env}
use clickwrap.Runtime.Exec.{Exec, pure, gets, modify, ◌>>=◌, ◌>>◌, for_each, now}

pub record ReminderCandidate : Type 0 where
  pub state : CustomerVersionState
  pub customer : Customer
  pub version : AgreementVersion
  pub recipient : String

latest_first : NotificationEvent → NotificationEvent → Bool
latest_first a b = leb b.occurred_at a.occurred_at

unfoldable pub resolve_recipient : World → String → Option String
unfolding latest_first
resolve_recipient w state_id =
    Option.map (λ (e : NotificationEvent). e.recipient)
      (first (sort latest_first (Notifications.find_by_state w.notifications state_id)))

-- A row with a deadline until `before` that is NOTIFIED or PENDING_NOTIFICATION.
unfoldable pub is_candidate : ℕ → CustomerVersionState → Option ℕ → Bool
is_candidate before state none = false
is_candidate before state (some deadline) =
    (state.state == notified || state.state == pending_notification) && leb deadline before

candidate_of :
    Customer
    → CustomerVersionState
    → Option AgreementVersion
    → Option String
    → List ReminderCandidate
candidate_of customer state (some version) (some recipient) =
    record { state = state; customer = customer; version = version; recipient = recipient } ∷ []
candidate_of customer state version recipient = []

unfoldable pub candidates_of :
    World → ℕ → Customer → List CustomerVersionState → List ReminderCandidate
unfolding candidate_of
candidates_of w before customer [] = []
candidates_of w before customer (state ∷ rest) =
    let others = candidates_of w before customer rest in
    if is_candidate before state state.deadline_at
    then candidate_of customer state (Versions.find_by_id w.versions state.version_id)
        (resolve_recipient w state.id)
      ++ others
    else others

unfoldable pub find_due_of : World → ℕ → List Customer → List ReminderCandidate
find_due_of w before [] = []
find_due_of w before (customer ∷ rest) =
    candidates_of w before customer (States.find_by_customer w.states customer.id)
    ++ find_due_of w before rest

unfoldable pub find_due : World → ℕ → List ReminderCandidate
find_due w before = find_due_of w before (Customers.find_all w.customers)

abbrev pub reminder_thresholds_days : List ℕ
reminder_thresholds_days = 7 ∷ 2 ∷ []

-- `now >= deadlineAt - days`, with the subtraction on the other side.
unfoldable pub is_threshold_due : ℕ → ℕ → ℕ → Bool
is_threshold_due deadline days t = leb deadline (t + days * ms_per_day)

-- `REMINDER_THRESHOLDS_DAYS` from an index on
abbrev pub from_index : ℕ → List ℕ → List ℕ
from_index zero days = days
from_index (suc sent) [] = []
from_index (suc sent) (d ∷ days) = from_index sent days

-- `sendReminder` of the mailer, which may throw.
module _ (send_reminder : Customer → String → AgreementVersion → ℕ → Exec (Unit {0})) where
  -- The `while` loop: the thresholds that are open, and how many were sent.
  unfoldable pub send_open : ReminderCandidate → ℕ → ℕ → List ℕ → ℕ → Exec ℕ
  send_open candidate deadline t [] sent w = pure sent w
  send_open candidate deadline t (days ∷ rest) sent w =
      let again =
        (send_reminder candidate.customer candidate.recipient candidate.version deadline
            >> send_open candidate deadline t rest (sent + 1))
          w in
      if is_threshold_due deadline days t then again else pure sent w

  -- The counter, if it has moved, under the condition that the row still is as it was found.
  unfoldable pub write_counter : CustomerVersionState → ℕ → Exec (Unit {0})
  write_counter state sent w =
      if sent == state.reminders_sent
      then pure tt w
      else modify
          (λ v. record v {
            states =
                (States.transition v.states state.id state.state
                  (record { state = state.state; reminders_sent = some sent })).0;
          })
          w

  unfoldable pub remind_active : ReminderCandidate → ℕ → Option ℕ → Exec (Unit {0})
  remind_active candidate t none = pure tt
  remind_active candidate t (some deadline) = do
    sent ←
        send_open candidate deadline t
          (from_index candidate.state.reminders_sent reminder_thresholds_days)
          candidate.state.reminders_sent
    write_counter candidate.state sent

  unfoldable pub remind_one : ℕ → ReminderCandidate → Exec (Unit {0})
  remind_one t candidate = elim candidate.version.acceptance_mode [
    | passive ↦ pure tt
    | active ↦ remind_active candidate t candidate.state.deadline_at
  ]

  unfoldable pub run : Env → Exec (Unit {0})
  run env = do
    t ← now env
    candidates ← gets (λ w. find_due w (add_days t 7))
    for_each candidates (remind_one t)
