-- ===== src/Domain/Lifecycle/Steps.antt =====
-- The transitions together: which changes of the state value are possible, what they leave alone,
-- and what every state that they reach satisfies.
use clickwrap.Prelude.{ℕ, ◌≡◌, refl, ◌≢◌, ◌⊎◌, Bool, true, false, none, List, [], ◌∷◌, arith}
use clickwrap.Domain.Errors.{Result, ok, err, ◌>>=◌}
use clickwrap.Domain.Types.{
  AcceptanceMode, active, passive, StateValue, pending_notification, notified, accepted, objected,
  expired_blocking, superseded, AcceptanceMethod, tacit, active_consent, imported, AgreementVersion,
  CustomerVersionState,
}
use clickwrap.Domain.Lifecycle.{
  rollout_deadline_for, record_access, accept, object, sweep, supersede,
}

-- One call of a transition, with what its caller gives it.
pub data Event : Type 0 where
  access : (now : ℕ) (predecessor_was_blocking : Bool) → Event
  consent : AcceptanceMethod → Event
  objection : (now : ℕ) → Event
  deadline_sweep : (now : ℕ) → Event
  replacement : Event

abbrev pub apply : AgreementVersion → Event → CustomerVersionState → Result CustomerVersionState
apply v (access now blocked) s = record_access s now v blocked
apply v (consent method) s = accept s method
apply v (objection now) s = object s v now
apply v (deadline_sweep now) s = ok (sweep s v now).0
apply v replacement s = supersede s >>= λ r. ok r.0

-- A call that throws leaves the stored state as it was.
abbrev keep_on_error : CustomerVersionState → Result CustomerVersionState → CustomerVersionState
keep_on_error s (ok s') = s'
keep_on_error s (err e) = s

pub run : AgreementVersion → List Event → CustomerVersionState → CustomerVersionState
run v [] s = s
run v (e ∷ es) s = run v es (keep_on_error s (apply v e s))

-- The arrows of the state diagram, for a version of the given mode.
abbrev pub is_arrow : AcceptanceMode → StateValue → StateValue → Bool
is_arrow m pending_notification notified = true
is_arrow m pending_notification accepted = true
is_arrow active pending_notification expired_blocking = true
is_arrow m pending_notification superseded = true
is_arrow m notified accepted = true
is_arrow passive notified objected = true
is_arrow active notified expired_blocking = true
is_arrow m notified superseded = true
is_arrow m objected accepted = true
is_arrow m objected superseded = true
is_arrow m expired_blocking accepted = true
is_arrow m expired_blocking superseded = true
is_arrow m _ _ = false

-- The state value stays, or moves along an arrow.
abbrev pub Moves : AcceptanceMode → StateValue → StateValue → Type 0
Moves m a b = (a ≡ b) ⊎ (is_arrow m a b ≡ true)

-- What no transition of the state machine writes.
pub record IsSameRow (s s' : CustomerVersionState) : Type 0 where
  pub id : s'.id ≡ s.id
  pub customer_id : s'.customer_id ≡ s.customer_id
  pub version_id : s'.version_id ≡ s.version_id
  pub reminders_sent : s'.reminders_sent ≡ s.reminders_sent
  pub carry_over_blocking : s'.carry_over_blocking ≡ s.carry_over_blocking
  pub notification_due_at : s'.notification_due_at ≡ s.notification_due_at

-- Every call that returns moves the state value along an arrow of the diagram, or keeps it, and
-- leaves the other columns but the two dates as they were.
pub apply-Moves :
    (v : AgreementVersion) (e : Event) (s s' : CustomerVersionState)
    → apply v e s ≡ ok s'
    → Moves v.acceptance_mode s.state s'.state × IsSameRow s s'
unfolding record_access accept object sweep supersede
apply-Moves v (access now b) s s' h = (ground arith, ground arith)
apply-Moves v (consent tacit) s s' h = (cc, cc)
apply-Moves v (consent active_consent) s s' h = (ground arith, ground arith)
apply-Moves v (consent imported) s s' h = (ground arith, ground arith)
apply-Moves v (objection now) s s' h = (ground arith, ground arith)
apply-Moves v (deadline_sweep now) s s' h = (ground arith, ground arith)
apply-Moves v replacement s s' h = (ground arith, ground arith)

abbrev IsFinal : CustomerVersionState → Type 0
IsFinal s = (s.state ≡ accepted) ⊎ (s.state ≡ superseded)

apply-final :
    (v : AgreementVersion) (e : Event) (s : CustomerVersionState)
    → IsFinal s
    → keep_on_error s (apply v e s) ≡ s
unfolding record_access accept object sweep supersede
apply-final v (access now b) s h = ground arith
apply-final v (consent tacit) s h = ground arith
apply-final v (consent active_consent) s h = ground arith
apply-final v (consent imported) s h = ground arith
apply-final v (objection now) s h = ground arith
apply-final v (deadline_sweep now) s h = ground arith
apply-final v replacement s h = ground arith

-- ACCEPTED and SUPERSEDED are final: whatever is called afterwards, errors included, the row stays.
pub run-final :
    (v : AgreementVersion) (es : List Event) (s : CustomerVersionState)
    → (s.state ≡ accepted) ⊎ (s.state ≡ superseded)
    → run v es s ≡ s
unfolding run
run-final v [] s h = refl
run-final v (e ∷ es) s h = rw (apply-final v e s h) (run-final v es s h)

-- The dates that go with each state value, for a version of either mode.
pub record IsDated (v : AgreementVersion) (s : CustomerVersionState) : Type 0 where
  pub unseen : s.state ≡ pending_notification → s.notified_at ≡ none
  pub seen : (s.state ≡ notified) ⊎ (s.state ≡ objected) → s.notified_at ≢ none
  -- ACTIVE: always the absolute deadline, and no objection.
  pub absolute : v.acceptance_mode ≡ active → s.deadline_at ≡ v.hard_deadline_at
  pub no_objection : v.acceptance_mode ≡ active → s.state ≢ objected
  -- PASSIVE: a deadline exists from access on, and never blocks.
  pub unstarted :
      v.acceptance_mode ≡ passive → s.state ≡ pending_notification → s.deadline_at ≡ none
  pub started :
      v.acceptance_mode ≡ passive
      → (s.state ≡ notified) ⊎ (s.state ≡ objected)
      → s.deadline_at ≢ none
  pub never_blocks : v.acceptance_mode ≡ passive → s.state ≢ expired_blocking

keep_on_error-IsDated :
    (v : AgreementVersion) (s : CustomerVersionState) (r : Result CustomerVersionState)
    → ((s' : CustomerVersionState) → r ≡ ok s' → IsDated v s')
    → IsDated v s
    → IsDated v (keep_on_error s r)
keep_on_error-IsDated v s (ok s') h d = h s' refl
keep_on_error-IsDated v s (err e) h d = d

apply-IsDated :
    (v : AgreementVersion) (e : Event) (s s' : CustomerVersionState)
    → IsDated v s
    → apply v e s ≡ ok s'
    → IsDated v s'
unfolding record_access accept object sweep supersede
apply-IsDated v (access now b) s s' d h = ground arith
apply-IsDated v (consent tacit) s s' d h = cc
apply-IsDated v (consent active_consent) s s' d h = ground arith
apply-IsDated v (consent imported) s s' d h = ground arith
apply-IsDated v (objection now) s s' d h = ground arith
apply-IsDated v (deadline_sweep now) s s' d h = ground arith
apply-IsDated v replacement s s' d h = ground arith

run-keeps_IsDated :
    (v : AgreementVersion) (es : List Event) (s : CustomerVersionState)
    → IsDated v s
    → IsDated v (run v es s)
unfolding run
run-keeps_IsDated v [] s d = d
run-keeps_IsDated v (e ∷ es) s d =
    run-keeps_IsDated v es (keep_on_error s (apply v e s))
      (keep_on_error-IsDated v s (apply v e s) (λ s'. apply-IsDated v e s s' d) d)

-- From a row as the rollout creates it (PENDING_NOTIFICATION, no access yet, the rollout's deadline),
-- whatever is called: access is recorded once the state is NOTIFIED or OBJECTED; an ACTIVE version
-- keeps its absolute deadline and is never objected to; a PASSIVE version has a deadline exactly from
-- access on and never blocks by expiry.
pub run-IsDated :
    (v : AgreementVersion) (es : List Event) (s : CustomerVersionState)
    → s.state ≡ pending_notification
    → s.notified_at ≡ none
    → s.deadline_at ≡ rollout_deadline_for v
    → IsDated v (run v es s)
unfolding rollout_deadline_for
run-IsDated v es s p n d = run-keeps_IsDated v es s (ground arith)
