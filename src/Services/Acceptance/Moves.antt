-- ===== src/Services/Acceptance/Moves.antt =====
-- The row that an acceptance moves.
use clickwrap.Prelude.{
  ◌≡◌, refl, inl, inr, String, Option, none, some, arith, String_eq, ◌==◌, if◌then◌else◌,
  Option-cases,
}
use clickwrap.Prelude.Dict.{get, get-set, get-set_self}
use clickwrap.Domain.Errors.{ok}
use clickwrap.Domain.Types.{StateValue, accepted, active_consent, CustomerVersionState}
use clickwrap.Domain.Lifecycle
use clickwrap.Store.States
use clickwrap.Store.States.Updates.{transition_compare_and_set, transition-some}
use clickwrap.Runtime.{World}
use clickwrap.Services.Acceptance.{apply_transition, throw_stale_state_error, write_state}

-- Where the row comes from that is stored under `id`: with no row before, it is a new one of this
-- customer for this version; otherwise it is the stored row in a new state value, all else kept.
abbrev pub IsSource :
    Option CustomerVersionState
    → (customer_id version_id : String) → States.States
    → (id : String) → CustomerVersionState
    → Type 0
IsSource none customer_id version_id d id row =
    (row.id ≡ id) × (row.customer_id ≡ customer_id) × (row.version_id ≡ version_id)
IsSource (some s) customer_id version_id d id row =
    (id ≡ s.id)
    × (old : CustomerVersionState) × (get d s.id ≡ some old)
    × (row ≡ record old { state = accepted })

-- One row is stored as ACCEPTED, the one that was read or else a new one of the customer for the version,
-- and every other row is as it was.
pub record IsMoved (existing : Option CustomerVersionState) (customer_id version_id : String)
    (d d' : States.States) : Type 0 where
  pub row : CustomerVersionState
  pub id : String
  pub stored : get d' id ≡ some row
  pub state : row.state ≡ accepted
  pub source : IsSource existing customer_id version_id d id row
  pub elsewhere : (other : String) → get d' other ≡ (if id == other then some row else get d other)

-- A row that is written where none was read is one of the customer for the version.
abbrev pub IsFreshFor :
    Option CustomerVersionState → (customer_id version_id : String) → CustomerVersionState → Type 0
IsFreshFor none customer_id version_id row =
    (row.customer_id ≡ customer_id) × (row.version_id ≡ version_id)
IsFreshFor (some s) customer_id version_id row = Unit

transition-source :
    (d : States.States) (id : String) (expected : StateValue) (t : CustomerVersionState)
    → (States.transition d id expected (record { state = accepted; reminders_sent = none })).1
      ≡ some t
    → (old : CustomerVersionState) × (get d id ≡ some old) × (t ≡ record old { state = accepted })
transition-source d id expected t h =
    elim (transition_compare_and_set d id id expected
      (record { state = accepted; reminders_sent = none })) [
        | inl (s, g, e, p, q) ↦ (s, g, ground arith)
        | inr (n, p) ↦ ground arith
      ]

pub write_state-ok :
    (existing : Option CustomerVersionState) (row : CustomerVersionState)
    (customer_id version_id : String) (w : World)
    → row.state ≡ accepted
    → IsFreshFor existing customer_id version_id row
    → (write_state existing row w).0 ≡ ok tt
    → IsMoved existing customer_id version_id w.states (write_state existing row w).1.states
unfolding write_state apply_transition throw_stale_state_error States.save
write_state-ok none row customer_id version_id w a f h = record {
  row = row;
  id = row.id;
  stored = get-set_self w.states row.id row;
  state = a;
  source = (refl, f.0, f.1);
  elsewhere = λ other. get-set w.states row.id other row;
}
write_state-ok (some s) row customer_id version_id w a f h =
    let u : States.StateTransition = record { state = accepted; reminders_sent = none } in
    let p = States.transition w.states s.id s.state u in
    elim (Option-cases p.1) [
      | inl e ↦ ground arith
      | inr (t, e) ↦
          let (value, stored, kept) = transition-some w.states s.id s.id s.state u t e in
          let q : (write_state (some s) row w).1.states ≡ p.0 = ground arith in
          let (old, g, r) = transition-source w.states s.id s.state t e in
          record {
            row = t;
            id = s.id;
            stored = rw q stored;
            state = value;
            source = (refl, old, g, r);
            elsewhere = λ other. rw q (transition-some w.states s.id other s.state u t e).2;
          }
    ]

-- `accept` changes neither the customer nor the version of a row.
pub accept-of :
    (s next : CustomerVersionState)
    → Lifecycle.accept s active_consent ≡ ok next
    → (next.customer_id ≡ s.customer_id) × (next.version_id ≡ s.version_id)
unfolding Lifecycle.accept
accept-of s next h = (ground arith, ground arith)

-- `accept` succeeds only from a state that may be accepted, and gives ACCEPTED.
pub accept-accepted :
    (s next : CustomerVersionState)
    → Lifecycle.accept s active_consent ≡ ok next
    → next.state ≡ accepted
unfolding Lifecycle.accept
accept-accepted s next h = ground arith
