-- ===== src/Services/Acceptance.antt =====
-- consent/acceptance.service.ts: active consent from the portal popup or the hosted page.
pub mod Checks
pub mod Records
pub mod Admission
pub mod Evidence
pub mod Moves
pub mod Outcome
pub mod Requests
pub mod Race
use clickwrap.Prelude.{
  ℕ, zero, suc, String, true, Option, none, some, List, [], ◌∷◌, ◌++◌, is_truthy, or_else,
  String_eq, if◌then◌else◌, ◌<>◌,
}
use clickwrap.Prelude.Dict.{Dict, get, set, delete, has}
use clickwrap.Domain.Errors
use clickwrap.Domain.Errors.{ErrorCode, Result, ok, already_accepted, invalid_state}
use clickwrap.Domain.Types.{
  active, passive, StateValue, pending_notification, accepted, active_consent, Actor,
  AgreementVersion, CustomerVersionState, Acceptance, consent, customer, text, version_accepted,
}
use clickwrap.Domain.Consent.{consent_text_hash_for}
use clickwrap.Domain.Customers.{customer_display_name}
use clickwrap.Domain.Lifecycle
use clickwrap.Store.States
use clickwrap.Store.Acceptances
use clickwrap.Runtime.{World, Env, Response, acceptance_response, Reply, in_progress, stored}
use clickwrap.Runtime.Exec.{
  Exec, pure, throw, lift, gets, modify, query, continue, ◌>>=◌, ◌>>◌, on_error, rethrow_after, now,
  new_id,
}
use clickwrap.Runtime.Replies.{find_replay, release}
use clickwrap.Runtime.Recorder.{EventInput, event_input, record_event}
use clickwrap.Services.Acceptance.Records.{
  channel_text, early_note, actor_label, fresh_state, stale_code,
}
use clickwrap.Services.Acceptance.Checks.{
  InteractiveChannel, portal, link, as_channel, AcceptanceInput, channel_of, Checked, checks,
}

unfoldable pub throw_stale_state_error {ℓ} : {A : Type ℓ} → String → Exec A
throw_stale_state_error id w = throw (stale_code (States.find_by_id w.states id)) w

unfoldable pub apply_transition :
    String → States.States × Option CustomerVersionState → Exec (Unit {0})
unfolding throw_stale_state_error
apply_transition id (states, none) = throw_stale_state_error id
apply_transition id (states, some row) = modify (λ w. record w { states = states })

-- Writes the transition: conditional on the state that was read, or a new row.
unfoldable pub write_state : Option CustomerVersionState → CustomerVersionState → Exec (Unit {0})
unfolding apply_transition
write_state none row w = modify (λ v. record v { states = States.save v.states row }) w
write_state (some existing) row w =
    apply_transition existing.id
      (States.transition w.states existing.id existing.state
        (record { state = accepted; reminders_sent = none }))
      w

abbrev pub idem_key : AcceptanceInput → String
idem_key input = "acceptance:" <> input.customer_id <> ":" <> input.idempotency_key

unfoldable pub append_acceptance : Acceptance → Exec (Unit {0})
append_acceptance acceptance w =
    (do
      acceptances ← lift (Acceptances.append w.acceptances acceptance)
      modify (λ v. record v { acceptances = acceptances }))
      w

module _ (env : Env) where
  load_state : AcceptanceInput → Option CustomerVersionState → Exec CustomerVersionState
  load_state input none = do id ← new_id env "cvs"; pure (fresh_state input id)
  load_state input (some existing) = pure existing

  -- `requiresConsentText ? consentTextHashFor(version) : undefined`
  unfoldable pub evidence_hash : AgreementVersion → Result (Option String)
  evidence_hash version = elim version.acceptance_mode [
    | passive ↦ ok none
    | active ↦ Errors.◌>>=◌ (consent_text_hash_for env.sha256_hex version) (λ hash. ok (some hash))
  ]

  unfoldable pub evidence_of :
      AcceptanceInput → AgreementVersion → String → ℕ → Option String → Acceptance
  unfolding early_note
  evidence_of input version id at hash = record {
    id = id;
    customer_id = input.customer_id;
    version_id = input.version_id;
    method = active_consent;
    channel = as_channel (channel_of input);
    accepted_at = at;
    actor = input.context.actor;
    is_effective = true;
    superseded_by_acceptance_id = none;
    consent_text = elim version.acceptance_mode [ active ↦ version.consent_text | passive ↦ none ];
    consent_text_hash = hash;
    content_hash = some version.content_hash;
    ip_address = input.context.ip_address;
    user_agent = input.context.user_agent;
    evidence_note = elim version.acceptance_mode [
      | active ↦ input.evidence_note
      | passive ↦ some (early_note input.evidence_note)
    ];
  }

  accepted_event : AcceptanceInput → Checked → EventInput
  accepted_event input c =
      let channel = channel_text (channel_of input) in
      record (event_input version_accepted consent customer
        (actor_label input.context.actor "customer")
        ("Version " <> c.version.version_label <> " accepted (ACTIVE_CONSENT, " <> channel
          <> ")")) {
            customer_id = some input.customer_id;
            customer_name = some (customer_display_name c.customer);
            version_id = some input.version_id;
            document_type = some c.document.type;
            audience = some c.document.audience;
            version_label = some c.version.version_label;
            channel = some channel;
            metadata = some (("method", text "ACTIVE_CONSENT") ∷ []);
          }

  -- What is written once the transition has gone through.
  unfoldable pub record_evidence : AcceptanceInput → Checked → Exec Response
  unfolding evidence_hash evidence_of accepted_event append_acceptance
  record_evidence input c = do
    id ← new_id env "a"
    at ← now env
    hash ← lift (evidence_hash c.version)
    let acceptance = evidence_of input c.version id at hash
    append_acceptance acceptance
    record_event env (accepted_event input c)
    modify (λ w. record w { confirmations = w.confirmations ++ (c.version, acceptance) ∷ [] })
    pure (acceptance_response id)

  -- The second half of `process`: what is written for a row that was read as `existing`.
  unfoldable pub write_acceptance :
      AcceptanceInput → Checked → Option CustomerVersionState → CustomerVersionState → Exec Response
  write_acceptance input c existing row = do write_state existing row; record_evidence input c

  -- From the row that was found, if any: the transition is checked first, and only then written.
  unfoldable pub accept_row :
      AcceptanceInput → Option CustomerVersionState → Checked → Exec Response
  unfolding load_state
  accept_row input existing c = do
    row ← load_state input existing
    next ← lift (Lifecycle.accept row active_consent)
    write_acceptance input c existing next

  -- The rest of `process`, under its guards.
  unfoldable pub after_checks : AcceptanceInput → Checked → Exec Response
  after_checks input c = do
    existing ←
        gets (λ w. States.find_by_customer_and_version w.states input.customer_id input.version_id)
    accept_row input existing c

  unfoldable pub process : AcceptanceInput → Exec Response
  process input = do t ← now env; c ← query (λ w. checks w t input); after_checks input c

  abbrev replay_poll_attempts : ℕ
  replay_poll_attempts = 50

  -- Polls until the response is there; between two polls the other requests go on.
  unfoldable pub await_attempts : ℕ → String → Exec Response
  await_attempts zero key w = throw invalid_state w
  await_attempts (suc attempts) key w = elim (find_replay key w) [
    | some response ↦ (ok response, w)
    | none ↦ await_attempts attempts key (env.others attempts w)
  ]

  unfoldable pub await_replay : String → Exec Response
  unfolding await_attempts
  await_replay key = await_attempts replay_poll_attempts key

  -- Under a fresh reservation of the key.
  unfoldable pub process_reserved : String → AcceptanceInput → Exec Response
  process_reserved key input =
      on_error
        (do
          response ← process input
          modify (λ w. record w { replies = set w.replies key (stored response) })
          pure response)
        (λ _ w. release key w)

  unfoldable pub accept : AcceptanceInput → Exec Response
  unfolding await_replay process_reserved
  accept input w = elim (find_replay (idem_key input) w) [
    | some response ↦ (ok response, w)
    | none ↦
        if has w.replies (idem_key input)
        then await_replay (idem_key input) w
        else process_reserved (idem_key input) input
            (record w { replies = set w.replies (idem_key input) in_progress })
  ]
