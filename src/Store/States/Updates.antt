-- ===== src/Store/States/Updates.antt =====
-- The two conditional updates of a customer's state, each against every row of the store.
use clickwrap.Prelude.{
  ◌≡◌, ◌≢◌, ◌⊎◌, String, none, some, arith, is_none, ◌&&◌, ◌==◌, String_eq, if◌then◌else◌,
  Option-cases, Bool-cases, inl, inr,
}
use text.Mathlib.TextEquality.{eq_iff}
use clickwrap.Prelude.Dict.{get, set, get-set}
use clickwrap.Domain.Errors.{ok, err, invalid_state}
use clickwrap.Domain.Types.{
  StateValue, StateValue_eq, state_eq_iff, pending_notification, CustomerVersionState,
}
use clickwrap.Store.States.{
  States, NotifiedUpdate, StateTransition, with_update, with_transition, set_notified_atomically,
  transition,
}

-- `id` is stored in state `value`.
abbrev pub IsStored : States → String → StateValue → Type 0
IsStored d id value = (s : CustomerVersionState) × (get d id ≡ some s) × (s.state ≡ value)

-- The conditional transition is a compare-and-set. If the row is stored with the expected state value,
-- it and no other row is changed, in its state value and, if given, its reminder counter, and the new
-- row is returned; otherwise the store stays as it is and `null` comes back.
pub transition_compare_and_set :
    (d : States) (id other : String) (expected : StateValue) (u : StateTransition)
    → ((s : CustomerVersionState) × (get d id ≡ some s)
        × (s.state ≡ expected)
        × ((transition d id expected u).1 ≡ some (with_transition s u))
        × (get (transition d id expected u).0 other
            ≡ (if id == other then some (with_transition s u) else get d other)))
      ⊎ ((¬ IsStored d id expected) × (transition d id expected u ≡ (d, none)))
unfolding transition
transition_compare_and_set d id other expected u = elim (Option-cases (get d id)) [
  | inl e ↦ inr (λ m. ground (arith, m.1), ground arith)
  | inr (s, e) ↦ elim (Bool-cases (s.state == expected)) [
    | inl t ↦ inl (
      s,
      e,
      (state_eq_iff s.state expected).0 t,
      ground arith,
      ground (arith, get-set d id other (with_transition s u)),
    )
    | inr f ↦ inr (λ m. ground (arith, m.1, m.2, state_eq_iff s.state expected), ground arith)
  ]
]

-- How a delivery may change the stored row `s` into `row`.
abbrev pub IsDelivery : NotifiedUpdate → CustomerVersionState → CustomerVersionState → Type 0
IsDelivery u s row =
    ((s.state ≡ pending_notification) × (s.notified_at ≡ none) × (row ≡ with_update s u))
    ⊎ (((s.state ≢ pending_notification) ⊎ (s.notified_at ≢ none)) × (row ≡ s))

IsDelivery-stored :
    (d d' : States) (id other : String) (u : NotifiedUpdate) (s row : CustomerVersionState)
    → get d id ≡ some s
    → set_notified_atomically d id u ≡ ok (d', row)
    → IsDelivery u s row × (get d' other ≡ (if id == other then some row else get d other))
unfolding set_notified_atomically
IsDelivery-stored d d' id other u s row e h =
    elim (Bool-cases (is_none s.notified_at && s.state == pending_notification)) [
      | inl t ↦
          let p : d' ≡ set d id (with_update s u) = ground arith in
          let r : row ≡ with_update s u = ground arith in
          (ground arith, rw (p, r) (get-set d id other (with_update s u)))
      | inr f ↦
          let p : d' ≡ d = ground arith in
          let r : row ≡ s = ground arith in
          (ground arith, rw (p, r) (ground (arith, eq_iff id other)))
    ]

unknown-err :
    (d : States) (id : String) (u : NotifiedUpdate)
    → get d id ≡ none
    → set_notified_atomically d id u ≡ err invalid_state
unfolding set_notified_atomically
unknown-err d id u e = ground arith

-- A delivery is recorded at most once and revives nothing: the stored row changes only if it was
-- PENDING_NOTIFICATION without a notification time, and then only in the three columns given; the
-- row that comes back is the stored one in both cases, and no other row changes.
pub set_notified_atomically_first_wins :
    (d d' : States) (id other : String) (u : NotifiedUpdate) (row : CustomerVersionState)
    → set_notified_atomically d id u ≡ ok (d', row)
    → (s : CustomerVersionState) × (get d id ≡ some s)
      × IsDelivery u s row
      × (get d' other ≡ (if id == other then some row else get d other))
set_notified_atomically_first_wins d d' id other u row h = elim (Option-cases (get d id)) [
  | inl e ↦ cc (unknown-err d id u e)
  | inr (s, e) ↦ let (p, q) = IsDelivery-stored d d' id other u s row e h in (s, e, p, q)
]

-- A transition that went through has stored the row that it returned, and no other.
pub transition-some :
    (d : States) (id other : String) (expected : StateValue) (u : StateTransition)
    (row : CustomerVersionState)
    → (transition d id expected u).1 ≡ some row
    → (row.state ≡ u.state)
      × (get (transition d id expected u).0 id ≡ some row)
      × (get (transition d id expected u).0 other ≡ (if id == other then some row else get d other))
transition-some d id other expected u row h = elim (transition_compare_and_set d id id expected u) [
  | inl (s, g, e, p, q) ↦ elim (transition_compare_and_set d id other expected u) [
    | inl (s2, g2, e2, p2, q2) ↦ ground (arith, eq_iff id id)
    | inr (n, p2) ↦ ground arith
  ]
  | inr (n, p) ↦ ground arith
]
