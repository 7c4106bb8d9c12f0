-- ===== src/Domain/Lifecycle/Deadlines.antt =====
-- When deadlines start, and who wins at the deadline.
use clickwrap.Prelude.{
  ℕ, ◌+◌, ◌*◌, ◌≤◌, ◌<◌, ◌≡◌, ◌≢◌, ◌↔◌, ◌⊎◌, Bool, false, Option, none, some, arith,
}
use clickwrap.Domain.Errors.{ok, err, invalid_state, objection_period_expired}
use clickwrap.Domain.Types.{
  active, passive, pending_notification, notified, accepted, objected, AgreementVersion,
  CustomerVersionState,
}
use clickwrap.Domain.Lifecycle.{
  ms_per_day, later_of, record_access, object, sweep, noop, tacit_accepted, blocked,
}

-- The first access wins: after a call that returned, no later call changes the row.
pub record_access_idem :
    (s s' : CustomerVersionState) (v : AgreementVersion) (now later : ℕ) (b b' : Bool)
    → record_access s now v b ≡ ok s'
    → record_access s' later v b' ≡ ok s'
unfolding record_access
record_access_idem s s' v now later b b' h = ground arith

-- First access to a PASSIVE version with an objection period and no block carried over gives a
-- deadline that leaves the whole period and does not lie before the version is in force; it is the
-- earliest such time.
pub record_access_period :
    (s : CustomerVersionState) (v : AgreementVersion) (now days : ℕ)
    → v.acceptance_mode ≡ passive
    → v.objection_period_days ≡ some days
    → s.state ≡ pending_notification
    → s.notified_at ≡ none
    → (deadline : ℕ) × (record_access s now v false
        ≡ ok (record s { state = notified; notified_at = some now; deadline_at = some deadline }))
      × (now + days * ms_per_day ≤ deadline)
      × (v.valid_from ≤ deadline)
      × ((deadline ≡ now + days * ms_per_day) ⊎ (deadline ≡ v.valid_from))
unfolding record_access
record_access_period s v now days m d p n = (
  later_of (now + days * ms_per_day) v.valid_from,
  ground arith,
  ground arith,
  ground arith,
  ground arith,
)

-- A PASSIVE version that has no objection period cannot start one.
pub record_access_no_period :
    (s : CustomerVersionState) (v : AgreementVersion) (now : ℕ)
    → v.acceptance_mode ≡ passive
    → v.objection_period_days ≡ none
    → s.state ≡ pending_notification
    → s.notified_at ≡ none
    → record_access s now v false ≡ err invalid_state
unfolding record_access
record_access_no_period s v now m d p n = ground arith

-- For a NOTIFIED row of a PASSIVE version with a deadline, at every moment exactly one of the two
-- happens: the objection goes through and the sweep does nothing, or the period has expired and the
-- sweep accepts tacitly.
pub object-sweep :
    (s : CustomerVersionState) (v : AgreementVersion) (now deadline : ℕ)
    → v.acceptance_mode ≡ passive
    → s.state ≡ notified
    → s.deadline_at ≡ some deadline
    → ((now < deadline)
        × (object s v now ≡ ok (record s { state = objected }))
        × (sweep s v now ≡ (s, noop)))
      ⊎ ((deadline ≤ now)
          × (object s v now ≡ err objection_period_expired)
          × (sweep s v now ≡ (record s { state = accepted }, tacit_accepted)))
unfolding object sweep
object-sweep s v now deadline m p d = ground arith

-- Once a sweep has acted on a row, no sweep at any time does anything more to it.
pub sweep_idem :
    (s : CustomerVersionState) (v : AgreementVersion) (now later : ℕ)
    → (sweep s v now).1 ≢ noop
    → sweep (sweep s v now).0 v later ≡ ((sweep s v now).0, noop)
unfolding sweep
sweep_idem s v now later h = ground arith

-- The deadline is known and not after `now`.
abbrev pub IsPast : ℕ → Option ℕ → Type 0
IsPast now none = ⊥
IsPast now (some deadline) = deadline ≤ now

-- The sweep reports a tacit acceptance exactly for a NOTIFIED row of a PASSIVE version at or after
-- its deadline, and a block exactly for a NOTIFIED or PENDING_NOTIFICATION row of an ACTIVE one.
pub sweep_iff :
    (s : CustomerVersionState) (v : AgreementVersion) (now : ℕ)
    → (((sweep s v now).1 ≡ tacit_accepted)
        ↔ ((v.acceptance_mode ≡ passive) × (s.state ≡ notified) × IsPast now s.deadline_at))
      × (((sweep s v now).1 ≡ blocked) ↔ (
          (v.acceptance_mode ≡ active)
          × ((s.state ≡ notified) ⊎ (s.state ≡ pending_notification))
          × IsPast now s.deadline_at))
unfolding sweep
sweep_iff s v now = ((λ h. ground arith, λ h. ground arith), (λ h. ground arith, λ h. ground arith))
