-- ===== src/Store/States.antt =====
-- persistence/inmemory/customer-version-state.repo.ts
pub mod Updates
use clickwrap.Prelude.{
  ℕ, Bool, true, false, ◌&&◌, not, String, Option, none, some, List, [], ◌∷◌, leb, or_else, is_none,
  is_some, ◌==◌, String_eq, if◌then◌else◌, keep, find, includes, take,
}
use clickwrap.Prelude.Sort.{sort}
use clickwrap.Prelude.Dict.{Dict, values, get, set}
use clickwrap.Domain.Errors.{Result, ok, err, invalid_state}
use clickwrap.Domain.Types.{
  StateValue, StateValue_eq, pending_notification, notified, objected, expired_blocking,
  CustomerVersionState,
}
use clickwrap.Domain.Lifecycle.{is_due}

abbrev pub States : Type 0
States = Dict String CustomerVersionState

abbrev pub open_states : List StateValue
open_states = pending_notification ∷ notified ∷ objected ∷ expired_blocking ∷ []

abbrev pub sweepable_states : List StateValue
sweepable_states = pending_notification ∷ notified ∷ []

unfoldable pub save : States → CustomerVersionState → States
save states state = set states state.id state

unfoldable pub find_by_id : States → String → Option CustomerVersionState
find_by_id states id = get states id

unfoldable pub find_by_customer_and_version : States → String → String → Option CustomerVersionState
find_by_customer_and_version states customer_id version_id =
    find (λ s. s.customer_id == customer_id && s.version_id == version_id) (values states)

unfoldable pub find_by_customer : States → String → List CustomerVersionState
find_by_customer states customer_id = keep (λ s. s.customer_id == customer_id) (values states)

unfoldable pub find_open_by_version : States → String → List CustomerVersionState
find_open_by_version states version_id =
    keep (λ s. s.version_id == version_id && includes open_states s.state) (values states)

unfoldable pub find_by_version : States → String → List CustomerVersionState
find_by_version states version_id = keep (λ s. s.version_id == version_id) (values states)

unfoldable pub find_due_for_sweep : States → ℕ → List CustomerVersionState
find_due_for_sweep states now =
    keep (λ s. includes sweepable_states s.state && is_due now s.deadline_at) (values states)

-- Both have a `notificationDueAt`, by the filter before the sort.
oldest_first : CustomerVersionState → CustomerVersionState → Bool
oldest_first a b = leb (or_else a.notification_due_at 0) (or_else b.notification_due_at 0)

unfoldable pub find_due_for_notification : States → ℕ → List CustomerVersionState
unfolding oldest_first
find_due_for_notification states limit = take limit (
    sort oldest_first (
      keep (λ s. s.state == pending_notification && is_some s.notification_due_at) (values states)))

unfoldable pub clear_notification_due : States → String → States
clear_notification_due states id = elim (get states id) [
  | none ↦ states
  | some stored ↦ set states id (record stored { notification_due_at = none })
]

-- `Pick<CustomerVersionState, 'state' | 'notifiedAt' | 'deadlineAt'>`
pub record NotifiedUpdate : Type 0 where
  pub state : StateValue
  pub notified_at : Option ℕ
  pub deadline_at : Option ℕ

abbrev pub with_update : CustomerVersionState → NotifiedUpdate → CustomerVersionState
with_update stored update = record stored {
  state = update.state;
  notified_at = update.notified_at;
  deadline_at = update.deadline_at;
}

-- The states after the call, and the row that it returns.
unfoldable pub set_notified_atomically :
    States → String → NotifiedUpdate → Result (States × CustomerVersionState)
set_notified_atomically states id update = elim (get states id) [
  | none ↦ err invalid_state
  | some stored ↦
      if is_none stored.notified_at && stored.state == pending_notification
      then ok (set states id (with_update stored update), with_update stored update)
      else ok (states, stored)
]

-- `CustomerVersionStateTransition`
pub record StateTransition : Type 0 where
  pub state : StateValue
  pub reminders_sent : Option ℕ

abbrev pub with_transition : CustomerVersionState → StateTransition → CustomerVersionState
with_transition stored update = record stored {
  state = update.state;
  reminders_sent = or_else update.reminders_sent stored.reminders_sent;
}

-- The conditional update: the states after it, and the new row, if the stored state was as expected.
unfoldable pub transition :
    States → String → StateValue → StateTransition → States × Option CustomerVersionState
transition states id expected update = elim (get states id) [
  | none ↦ (states, none)
  | some stored ↦
      if stored.state == expected
      then (set states id (with_transition stored update), some (with_transition stored update))
      else (states, none)
]
