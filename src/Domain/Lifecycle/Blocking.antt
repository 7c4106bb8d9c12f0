-- ===== src/Domain/Lifecycle/Blocking.antt =====
-- What blocks a customer, and how a block goes on to the next version.
use clickwrap.Prelude.{ℕ, ◌≤◌, ◌≡◌, ◌↔◌, ◌⊎◌, true, false, none, some, arith}
use clickwrap.Domain.Errors.{ok}
use clickwrap.Domain.Types.{
  passive, pending_notification, notified, expired_blocking, accepted, AgreementVersion,
  CustomerVersionState,
}
use clickwrap.Domain.Lifecycle.{is_blocking, record_access, sweep, tacit_accepted}

-- A state blocks exactly when it is EXPIRED_BLOCKING, or when a block was carried over to it and it
-- is still PENDING_NOTIFICATION or NOTIFIED.
pub is_blocking_iff :
    (s : CustomerVersionState)
    → (is_blocking s ≡ true) ↔ (
        (s.state ≡ expired_blocking)
        ⊎ ((s.carry_over_blocking ≡ some true)
            × ((s.state ≡ pending_notification) ⊎ (s.state ≡ notified))))
unfolding is_blocking
is_blocking_iff s = (λ h. ground arith, λ h. ground arith)

-- Where a block is carried over to a PASSIVE version that is in force, provable access sets the
-- deadline to the time of access: the next sweep accepts tacitly, and the state blocks no more.
pub sweep-record_access_carry_over :
    (s s' : CustomerVersionState) (v : AgreementVersion) (now later : ℕ)
    → v.acceptance_mode ≡ passive
    → s.state ≡ pending_notification
    → record_access s now v true ≡ ok s'
    → s.notified_at ≡ none
    → v.valid_from ≤ now
    → now ≤ later
    → (sweep s' v later ≡ (record s' { state = accepted }, tacit_accepted))
      × (is_blocking (sweep s' v later).0 ≡ false)
unfolding record_access sweep is_blocking
sweep-record_access_carry_over s s' v now later m p h n e l = (ground arith, ground arith)
