-- ===== src/Domain/Lifecycle.antt =====
-- domain/state-machine.ts: the transitions of a customer's state for a version. `clock.now()` is
-- called at most once in each, and its value is the argument `now`.
pub mod Deadlines
pub mod Steps
pub mod Blocking
use clickwrap.Prelude.{
  ℕ, ◌+◌, ◌*◌, Bool, false, ◌&&◌, ◌||◌, Option, none, some, List, [], ◌∷◌, ltb, leb, is_none,
  is_true, ◌==◌, if◌then◌else◌, includes,
}
use clickwrap.Domain.Errors.{
  Result, ok, err, ◌>>=◌, already_accepted, invalid_state, objection_not_applicable,
  objection_period_expired,
}
use clickwrap.Domain.Types.{
  active, passive, StateValue, StateValue_eq, pending_notification, notified, accepted, objected,
  expired_blocking, superseded, AcceptanceMethod, tacit, AgreementVersion, CustomerVersionState,
}

abbrev pub ms_per_day : ℕ
ms_per_day = 86_400_000

pub add_days : ℕ → ℕ → ℕ
add_days base days = base + days * ms_per_day

pub objection_period_days_for : AgreementVersion → Result ℕ
objection_period_days_for version = elim version.objection_period_days [
  | none ↦ err invalid_state
  | some days ↦ ok days
]

unfoldable pub later_of : ℕ → ℕ → ℕ
later_of a b = if leb b a then a else b

unfoldable pub rollout_deadline_for : AgreementVersion → Option ℕ
rollout_deadline_for version = elim version.acceptance_mode [
  | active ↦ version.hard_deadline_at
  | passive ↦ none
]

-- The objection period of a PASSIVE version, from access to its end.
passive_deadline : ℕ → AgreementVersion → Bool → Result ℕ
unfolding objection_period_days_for later_of add_days
passive_deadline now version predecessor_was_blocking = do
  base ←
      if predecessor_was_blocking
      then ok now
      else (do days ← objection_period_days_for version; ok (add_days now days))
  ok (later_of base version.valid_from)

unfoldable pub record_access :
    CustomerVersionState → ℕ → AgreementVersion → Bool → Result CustomerVersionState
unfolding passive_deadline
record_access state now version predecessor_was_blocking =
    if state.state == pending_notification && is_none state.notified_at
    then (elim version.acceptance_mode [
      | active ↦ ok (record state { state = notified; notified_at = some now })
      | passive ↦ do
        deadline ← passive_deadline now version predecessor_was_blocking
        ok (record state { state = notified; notified_at = some now; deadline_at = some deadline })
    ])
    else ok state

abbrev acceptable_from : List StateValue
acceptable_from = pending_notification ∷ notified ∷ expired_blocking ∷ objected ∷ []

unfoldable pub accept : CustomerVersionState → AcceptanceMethod → Result CustomerVersionState
unfolding includes
accept state tacit = err invalid_state
accept state _ =
    if state.state == accepted
    then err already_accepted
    else if includes acceptable_from state.state
    then ok (record state { state = accepted })
    else err invalid_state

-- The third guard of `object`: before the deadline, which must be known.
unfoldable pub before_deadline : ℕ → Option ℕ → Bool
before_deadline now none = false
before_deadline now (some deadline) = ltb now deadline

unfoldable pub object : CustomerVersionState → AgreementVersion → ℕ → Result CustomerVersionState
unfolding before_deadline
object state version now = elim version.acceptance_mode [
  | active ↦ err objection_not_applicable
  | passive ↦
      if state.state == notified
      then (if before_deadline now state.deadline_at
          then ok (record state { state = objected })
          else err objection_period_expired)
      else err invalid_state
]

pub data SweepOutcome : Type 0 where
  tacit_accepted blocked noop : SweepOutcome

abbrev active_sweepable_states : List StateValue
active_sweepable_states = pending_notification ∷ notified ∷ []

abbrev pub is_due : ℕ → Option ℕ → Bool
is_due now none = false
is_due now (some deadline) = leb deadline now

unfoldable pub sweep :
    CustomerVersionState → AgreementVersion → ℕ → CustomerVersionState × SweepOutcome
unfolding includes
sweep state version now =
    if is_due now state.deadline_at
    then (elim version.acceptance_mode [
      | active ↦
          if includes active_sweepable_states state.state
          then (record state { state = expired_blocking }, blocked)
          else (state, noop)
      | passive ↦
          if state.state == notified
          then (record state { state = accepted }, tacit_accepted)
          else (state, noop)
    ])
    else (state, noop)

-- The state, and whether it was blocking.
unfoldable pub supersede : CustomerVersionState → Result (CustomerVersionState × Bool)
supersede state =
    if state.state == superseded
    then ok (state, false)
    else if state.state == accepted
    then err invalid_state
    else ok (record state { state = superseded }, state.state == expired_blocking)

abbrev carry_over_blocking_states : List StateValue
carry_over_blocking_states = pending_notification ∷ notified ∷ []

unfoldable pub is_blocking : CustomerVersionState → Bool
unfolding includes
is_blocking state =
    state.state == expired_blocking
    || is_true state.carry_over_blocking && includes carry_over_blocking_states state.state
