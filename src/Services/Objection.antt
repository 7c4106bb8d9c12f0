-- ===== src/Services/Objection.antt =====
-- consent/objection.service.ts: an objection from the portal.
pub mod Outcome
use clickwrap.Prelude.{
  String, Option, none, some, [], ◌∷◌, ◌++◌, ◌<>◌, or_else, is_truthy, String_eq, if◌then◌else◌,
}
use clickwrap.Domain.Errors.{
  ErrorCode, ok, err, version_not_found, invalid_state, objection_period_expired,
}
use clickwrap.Domain.Types.{
  AcceptanceChannel, notified, CustomerContext, AgreementVersion, CustomerVersionState, Objection,
  EscalationEntry, objection_after_period, consent, customer, text, objection_raised,
}
use clickwrap.Domain.Lifecycle
use clickwrap.Store.Versions
use clickwrap.Store.States
use clickwrap.Store.Objections
use clickwrap.Runtime.{World, Env, Response, objection_response, AdminNotice}
use clickwrap.Runtime.Exec.{
  Exec, pure, throw, lift, modify, fetch, ◌>>=◌, ◌>>◌, on_error, now, new_id, query,
}
use clickwrap.Runtime.Replies.{find_replay, put_reply}
use clickwrap.Runtime.Recorder.{EventInput, event_input, record_event}
use clickwrap.Services.Acceptance.Records.{actor_label}

pub record ObjectionInput : Type 0 where
  pub customer_id : String
  pub version_id : String
  pub reason : Option String
  pub idempotency_key : String
  pub context : CustomerContext

abbrev pub objection_key : ObjectionInput → String
objection_key input = "objection:" <> input.customer_id <> ":" <> input.idempotency_key

-- `${input.reason ? `: ${input.reason}` : ''}`
reason_suffix : Option String → String
reason_suffix reason = if is_truthy reason then ": " <> or_else reason "" else ""

-- The transition of the row, from NOTIFIED only.
unfoldable pub apply_objection : States.States × Option CustomerVersionState → Exec (Unit {0})
apply_objection (states, none) = throw invalid_state
apply_objection (states, some row) = modify (λ w. record w { states = states })

unfoldable pub write_objected : String → CustomerVersionState → Exec (Unit {0})
write_objected id objected w =
    apply_objection
      (States.transition w.states id notified
        (record { state = objected.state; reminders_sent = none }))
      w

unfoldable pub append_objection : Objection → Exec (Unit {0})
append_objection objection = do
  objections ← query (λ w. Objections.append w.objections objection)
  modify (λ w. record w { objections = objections })

module _ (env : Env) where
  abbrev pub escalation_of : ObjectionInput → World → EscalationEntry
  escalation_of input w = record {
    id = "esc" <> "-" <> env.uuid w.minted;
    kind = objection_after_period;
    customer_id = some input.customer_id;
    version_id = some input.version_id;
    occurred_at = env.clock w.ticks;
    actor = some input.context.actor;
    reason = input.reason;
    note = some "Objection received after the objection period expired (escalation note only).";
    recipient = none;
    inactivated_email = none;
  }

  unfoldable pub escalate : ObjectionInput → World → World
  escalate input w = record (now env (new_id env "esc" w).1).1 {
    escalations = w.escalations ++ escalation_of input w ∷ [];
  }

  -- The `catch` around the transition.
  unfoldable pub note_late : ObjectionInput → ErrorCode → World → World
  unfolding escalate
  note_late input code w = elim code [ objection_period_expired ↦ escalate input w | _ ↦ w ]

  unfoldable pub try_object :
      ObjectionInput → CustomerVersionState → AgreementVersion → Exec CustomerVersionState
  try_object input state version =
      on_error (do t ← now env; lift (Lifecycle.object state version t)) (note_late input)

  unfoldable pub objection_of : ObjectionInput → World → Objection
  objection_of input w = record {
    id = "o" <> "-" <> env.uuid w.minted;
    customer_id = input.customer_id;
    version_id = input.version_id;
    objected_at = env.clock w.ticks;
    actor = input.context.actor;
    reason = input.reason;
    channel = AcceptanceChannel.portal;
    resolution = none;
    resolved_by = none;
    resolved_at = none;
  }

  objected_event : ObjectionInput → AgreementVersion → EventInput
  unfolding reason_suffix
  objected_event input version =
      record (event_input objection_raised consent customer
        (actor_label input.context.actor "customer")
        ("Objection raised against version "
          <> version.version_label
          <> reason_suffix input.reason)) {
            customer_id = some input.customer_id;
            version_id = some input.version_id;
            version_label = some version.version_label;
            channel = some "PORTAL";
            metadata =
                some (elim input.reason [ none ↦ [] | some reason ↦ ("reason", text reason) ∷ [] ]);
          }

  notice_of : ObjectionInput → AgreementVersion → Objection → AdminNotice
  notice_of input version objection = record {
    customer_id = input.customer_id;
    customer_name = input.context.actor.name;
    version_id = input.version_id;
    version_label = version.version_label;
    reason = input.reason;
    occurred_at = objection.objected_at;
  }

  -- What is written once the transition has gone through.
  unfoldable pub record_objection : ObjectionInput → AgreementVersion → Exec Response
  unfolding objected_event notice_of
  record_objection input version w =
      let objection = objection_of input w in
      (do
        id ← new_id env "o"
        at ← now env
        append_objection objection
        record_event env (objected_event input version)
        modify (λ v. record v { notices = v.notices ++ notice_of input version objection ∷ [] })
        modify (put_reply (objection_key input) (objection_response objection.id))
        pure (objection_response objection.id))
        w

  unfoldable pub object_state :
      ObjectionInput → AgreementVersion → CustomerVersionState → Exec Response
  object_state input version state = do
    objected ← try_object input state version
    write_objected state.id objected
    record_objection input version

  unfoldable pub object_new : ObjectionInput → Exec Response
  object_new input = do
    version ← fetch (λ w. Versions.find_by_id w.versions input.version_id) version_not_found
    state ←
        fetch (λ w. States.find_by_customer_and_version w.states input.customer_id input.version_id)
          invalid_state
    object_state input version state

  unfoldable pub object : ObjectionInput → Exec Response
  object input w = elim (find_replay (objection_key input) w) [
    | some response ↦ (ok response, w)
    | none ↦ object_new input w
  ]
