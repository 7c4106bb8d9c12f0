-- ===== src/Services/DeadlineSweeper.antt =====
-- sweeper/deadline-sweeper.service.ts: the job for the deadlines that have passed.
pub mod Sweeps
use clickwrap.Prelude.{
  ℕ, ◌+◌, Bool, true, false, String, Option, none, some, List, [], ◌∷◌, ◌++◌, ◌<>◌, String_eq,
  if◌then◌else◌,
}
use clickwrap.Domain.Errors
use clickwrap.Domain.Errors.{Result, ok}
use clickwrap.Domain.Types.{
  AcceptanceChannel, tacit, Actor, AgreementVersion, CustomerVersionState, Acceptance, consent,
  system, text, version_accepted, deadline_expired,
}
use clickwrap.Domain.Consent.{consent_text_hash_for}
use clickwrap.Domain.Lifecycle
use clickwrap.Domain.Lifecycle.{SweepOutcome, tacit_accepted, blocked, noop}
use clickwrap.Store.Versions
use clickwrap.Store.States
use clickwrap.Store.Acceptances
use clickwrap.Runtime.{World, Env}
use clickwrap.Runtime.Exec.{Exec, pure, lift, gets, modify, ◌>>=◌, ◌>>◌, for_each_isolated, now}
use clickwrap.Runtime.Recorder.{EventInput, event_input, record_event}
use clickwrap.Services.Acceptance.{append_acceptance}

-- SWEEPER_SYSTEM_ACTOR
abbrev pub sweeper_system_actor : Actor
sweeper_system_actor = record {
  user_id = "system:deadline-sweeper";
  name = some "Deadline-Sweeper";
  email = none;
  portal_role = none;
}

module _ (env : Env) where
  -- `version.consentText !== undefined ? consentTextHashFor(version) : undefined`
  unfoldable pub tacit_hash : AgreementVersion → Result (Option String)
  tacit_hash version = elim version.consent_text [
    | none ↦ ok none
    | some t ↦ Errors.◌>>=◌ (consent_text_hash_for env.sha256_hex version) (λ hash. ok (some hash))
  ]

  unfoldable pub tacit_of :
      CustomerVersionState → AgreementVersion → String → ℕ → Option String → Acceptance
  tacit_of state version id at hash = record {
    id = id;
    customer_id = state.customer_id;
    version_id = state.version_id;
    method = tacit;
    channel = AcceptanceChannel.system;
    accepted_at = at;
    actor = sweeper_system_actor;
    is_effective = true;
    superseded_by_acceptance_id = none;
    consent_text = version.consent_text;
    consent_text_hash = hash;
    content_hash = some version.content_hash;
    ip_address = none;
    user_agent = none;
    evidence_note = none;
  }

  tacit_event : CustomerVersionState → AgreementVersion → EventInput
  tacit_event state version =
      record (event_input version_accepted consent system sweeper_system_actor.user_id
        "Passively accepted (objection period lapsed)") {
          customer_id = some state.customer_id;
          version_id = some state.version_id;
          version_label = some version.version_label;
          channel = some "SYSTEM";
          metadata = some (("method", text "TACIT") ∷ []);
        }

  expired_event : CustomerVersionState → AgreementVersion → EventInput
  expired_event state version =
      record (event_input deadline_expired consent system sweeper_system_actor.user_id
        "Deadline expired — became blocking") {
          customer_id = some state.customer_id;
          version_id = some state.version_id;
          version_label = some version.version_label;
        }

  -- `randomUUID()`, with no prefix
  raw_id : Exec String
  raw_id w = (ok (env.uuid w.minted), record w { minted = w.minted + 1 })

  unfoldable pub record_tacit : CustomerVersionState → AgreementVersion → Exec (Unit {0})
  unfolding tacit_event raw_id
  record_tacit state version = do
    id ← raw_id
    at ← now env
    hash ← lift (tacit_hash version)
    let acceptance = tacit_of state version id at hash
    append_acceptance acceptance
    record_event env (tacit_event state version)
    modify (λ w. record w { confirmations = w.confirmations ++ (version, acceptance) ∷ [] })

  unfoldable pub record_outcome :
      CustomerVersionState → AgreementVersion → SweepOutcome → Exec (Unit {0})
  unfolding expired_event
  record_outcome state version tacit_accepted = record_tacit state version
  record_outcome state version blocked = record_event env (expired_event state version)
  record_outcome state version noop = pure tt

  -- Only if the transition has gone through.
  unfoldable pub after_transition :
      CustomerVersionState
      → AgreementVersion
      → SweepOutcome
      → States.States × Option CustomerVersionState
      → Exec (Unit {0})
  after_transition state version outcome (states, none) = pure tt
  after_transition state version outcome (states, some row) = do
    modify (λ w. record w { states = states })
    record_outcome state version outcome

  unfoldable pub apply_sweep :
      CustomerVersionState
      → AgreementVersion
      → CustomerVersionState × SweepOutcome
      → Exec (Unit {0})
  apply_sweep state version (next, noop) w = pure tt w
  apply_sweep state version (next, outcome) w =
      after_transition state version outcome
        (States.transition w.states state.id state.state
          (record { state = next.state; reminders_sent = none }))
        w

  unfoldable pub sweep_version : CustomerVersionState → Option AgreementVersion → Exec (Unit {0})
  sweep_version state none = pure tt
  sweep_version state (some version) = do
    t ← now env
    apply_sweep state version (Lifecycle.sweep state version t)

  unfoldable pub sweep_one : CustomerVersionState → Exec (Unit {0})
  sweep_one state w = sweep_version state (Versions.find_by_id w.versions state.version_id) w

  unfoldable pub run : Exec (Unit {0})
  run w =
      if env.is_sweeper_enabled
      then (do
        t ← now env
        due ← gets (λ v. States.find_due_for_sweep v.states t)
        for_each_isolated due sweep_one)
          w
      else pure tt w
