-- ===== src/Services/Acceptance/Evidence.antt =====
-- What an acceptance leaves behind, and what an error leaves alone.
use clickwrap.Prelude.{
  List, ◌∙◌, Option-cases, [], ◌∷◌, ◌++◌, ◌+◌, ◌≡◌, refl, inl, inr, true, Option, none, some, arith,
  String_eq, ◌<>◌,
}
use clickwrap.Domain.Errors.{ErrorCode, Result, ok, err, Result-cases}
use clickwrap.Domain.Types.{
  accepted, active_consent, CustomerVersionState, Acceptance, AgreementVersion,
}
use clickwrap.Domain.Lifecycle.{accept}
use clickwrap.Store.States
use clickwrap.Store.Acceptances
use clickwrap.Runtime.{World, Env, Response, acceptance_response}
use clickwrap.Runtime.Exec.{continue, now, new_id}
use clickwrap.Runtime.Recorder.{record_event}
use clickwrap.Services.Acceptance.{
  evidence_hash, append_acceptance, evidence_of, record_evidence, write_state, apply_transition,
  throw_stale_state_error, write_acceptance, accept_row, after_checks, process,
}
use clickwrap.Services.Acceptance.Records.{fresh_state}
use clickwrap.Services.Acceptance.Checks.{AcceptanceInput, Checked, checks}

-- The evidence of a world: what an audit reads.
pub record SameEvidence (w w' : World) : Type 0 where
  pub acceptances : w'.acceptances ≡ w.acceptances
  pub events : w'.events ≡ w.events
  pub confirmations : w'.confirmations ≡ w.confirmations
  pub replies : w'.replies ≡ w.replies
  pub objections : w'.objections ≡ w.objections

SameEvidence-trans : (w w1 w' : World) → SameEvidence w w1 → SameEvidence w1 w' → SameEvidence w w'
SameEvidence-trans w w1 w' p q = record {
  acceptances = q.acceptances ∙ p.acceptances;
  events = q.events ∙ p.events;
  confirmations = q.confirmations ∙ p.confirmations;
  replies = q.replies ∙ p.replies;
  objections = q.objections ∙ p.objections;
}

pub write_state-quiet :
    (existing : Option CustomerVersionState) (row : CustomerVersionState) (w : World)
    → SameEvidence w (write_state existing row w).1
unfolding write_state apply_transition throw_stale_state_error
write_state-quiet none row w = record {
  acceptances = refl;
  events = refl;
  confirmations = refl;
  replies = refl;
  objections = refl;
}
write_state-quiet (some s) row w =
    elim (Option-cases
      (States.transition w.states s.id s.state
        (record { state = accepted; reminders_sent = none })).1) [
          | inl e ↦ ground arith
          | inr (t, e) ↦ ground arith
        ]

-- What a consent leaves behind: one effective acceptance, appended, of the customer for the version,
-- by the person who is logged in, and its confirmation mail.
pub record IsRecorded (input : AcceptanceInput) (c : Checked) (r : Response)
    (acceptances acceptances' : Acceptances.Acceptances)
    (mails mails' : List (AgreementVersion × Acceptance)) : Type 0 where
  pub acceptance : Acceptance
  pub response : r ≡ acceptance_response acceptance.id
  pub appended : Acceptances.append acceptances acceptance ≡ ok acceptances'
  pub customer_id : acceptance.customer_id ≡ input.customer_id
  pub version_id : acceptance.version_id ≡ input.version_id
  pub is_effective : acceptance.is_effective ≡ true
  pub method : acceptance.method ≡ active_consent
  pub actor : acceptance.actor ≡ input.context.actor
  pub content_hash : acceptance.content_hash ≡ some c.version.content_hash
  pub confirmed : mails' ≡ mails ++ (c.version, acceptance) ∷ []

module _ (env : Env) where
  record_evidence-err :
      (input : AcceptanceInput) (c : Checked) (w w' : World) (code : ErrorCode)
      → record_evidence env input c w ≡ (err code, w')
      → SameEvidence w w'
  unfolding record_evidence now new_id record_event
  record_evidence-err input c w w' code h = ground arith

  write_acceptance-err :
      (input : AcceptanceInput) (c : Checked) (existing : Option CustomerVersionState)
      (row : CustomerVersionState) (w w' : World) (code : ErrorCode)
      → write_acceptance env input c existing row w ≡ (err code, w')
      → SameEvidence w w'
  unfolding write_acceptance
  write_acceptance-err input c existing row w w' code h =
      let m = write_state existing row w in
      elim (Result-cases m.0) [
        | inl (e, p) ↦ SameEvidence-trans w m.1 w' (write_state-quiet existing row w) (ground arith)
        | inr (u, p) ↦
            SameEvidence-trans w m.1 w' (write_state-quiet existing row w)
              (record_evidence-err input c m.1 w' code (ground arith))
      ]

  accept_row-err :
      (input : AcceptanceInput) (existing : Option CustomerVersionState) (c : Checked)
      (w w' : World) (code : ErrorCode)
      → accept_row env input existing c w ≡ (err code, w')
      → SameEvidence w w'
  unfolding accept_row new_id
  accept_row-err input none c w w' code h =
      elim (Result-cases
        (accept (fresh_state input ("cvs" <> "-" <> env.uuid w.minted)) active_consent)) [
          | inl (e, p) ↦ ground arith
          | inr (next, p) ↦ ground (
            arith,
            write_acceptance-err input c none next (record w { minted = w.minted + 1 }) w' code,
          )
        ]
  accept_row-err input (some s) c w w' code h = elim (Result-cases (accept s active_consent)) [
    | inl (e, p) ↦ ground arith
    | inr (next, p) ↦ ground (arith, write_acceptance-err input c (some s) next w w' code)
  ]

  guarded-err :
      (input : AcceptanceInput) (r : Result Checked) (w w' : World) (code : ErrorCode)
      → continue r (after_checks env input) w ≡ (err code, w')
      → SameEvidence w w'
  unfolding after_checks
  guarded-err input (err e) w w' code h = ground arith
  guarded-err input (ok c) w w' code h =
      accept_row-err input
        (States.find_by_customer_and_version w.states input.customer_id input.version_id) c w w'
        code h

  -- A request that fails leaves no evidence: no acceptance, no event, no mail and no reply is written.
  pub process-err :
      (input : AcceptanceInput) (w w' : World) (code : ErrorCode)
      → process env input w ≡ (err code, w')
      → SameEvidence w w'
  unfolding process now
  process-err input w w' code h =
      let w1 : World = record w { ticks = w.ticks + 1 } in
      let e : SameEvidence w1 w' =
        guarded-err input (checks w1 (env.clock w.ticks) input) w1 w' code h in
      record {
        acceptances = e.acceptances;
        events = e.events;
        confirmations = e.confirmations;
        replies = e.replies;
        objections = e.objections;
      }

  pub record_evidence-ok :
      (input : AcceptanceInput) (c : Checked) (w w' : World) (r : Response)
      → record_evidence env input c w ≡ (ok r, w')
      → IsRecorded input c r w.acceptances w'.acceptances w.confirmations w'.confirmations
  unfolding record_evidence now new_id record_event evidence_hash append_acceptance evidence_of
  record_evidence-ok input c w w' r h = elim (Result-cases (evidence_hash env c.version)) [
    | inl (e, p) ↦ ground arith
    | inr (hash, p) ↦
        let a =
          evidence_of env input c.version ("a" <> "-" <> env.uuid w.minted) (env.clock w.ticks)
            hash in
        elim (Result-cases (Acceptances.append w.acceptances a)) [
          | inl (e, q) ↦ ground arith
          | inr (d, q) ↦ record {
            acceptance = a;
            response = ground arith;
            appended = ground arith;
            customer_id = refl;
            version_id = refl;
            is_effective = refl;
            method = refl;
            actor = refl;
            content_hash = refl;
            confirmed = ground arith;
          }
        ]
  ]
