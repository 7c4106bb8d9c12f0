-- ===== src/Services/Acceptance/Outcome.antt =====
-- What a consent that was recorded has been admitted by and has written.
use clickwrap.Prelude.{
  [], ◌∷◌, ◌++◌, ◌+◌, ◌≡◌, refl, ◌∙◌, sym, ap, inl, inr, Option, none, some, arith, String_eq, ◌<>◌,
}
use clickwrap.Prelude.Dict.{get}
use clickwrap.Domain.Errors.{Result, ok, err, Result-cases}
use clickwrap.Domain.Types.{accepted, active_consent, CustomerVersionState}
use clickwrap.Domain.Lifecycle
use clickwrap.Store.States
use clickwrap.Store.Acceptances.Unique.{IsUnique, append-IsUnique}
use clickwrap.Runtime.{World, Env, Response}
use clickwrap.Runtime.Exec.{continue, now, new_id, bind-ok}
use clickwrap.Runtime.Recorder.{record_event}
use clickwrap.Store.Acceptances
use clickwrap.Services.Acceptance.{
  evidence_hash, evidence_of, append_acceptance, write_state, record_evidence, write_acceptance,
  after_checks, accept_row, process,
}
use clickwrap.Services.Acceptance.Records.{fresh_state}
use clickwrap.Services.Acceptance.Moves.{
  IsFreshFor, IsMoved, write_state-ok, accept-accepted, accept-of,
}
use clickwrap.Services.Acceptance.Checks.{AcceptanceInput, Checked, checks}
use clickwrap.Services.Acceptance.Admission.{IsAdmitted, checks_iff}
use clickwrap.Services.Acceptance.Evidence.{
  IsRecorded, record_evidence-ok, write_state-quiet, SameEvidence, process-err,
}

-- The outcome of a consent that was recorded.
pub record IsOutcome (input : AcceptanceInput) (c : Checked)
    (existing : Option CustomerVersionState) (w w' : World) (r : Response) : Type 0 where
  pub moved : IsMoved existing input.customer_id input.version_id w.states w'.states
  pub recorded : IsRecorded input c r w.acceptances w'.acceptances w.confirmations w'.confirmations

module _ (env : Env) where
  record_evidence-states :
      (input : AcceptanceInput) (c : Checked) (w : World)
      → (record_evidence env input c w).1.states ≡ w.states
  unfolding record_evidence now new_id record_event append_acceptance
  record_evidence-states input c w = elim (Result-cases (evidence_hash env c.version)) [
    | inl (e, p) ↦ ground arith
    | inr (hash, p) ↦
        let a =
          evidence_of env input c.version ("a" <> "-" <> env.uuid w.minted) (env.clock w.ticks)
            hash in
        elim (Result-cases (Acceptances.append w.acceptances a)) [
          | inl (e, q) ↦ ground arith
          | inr (d, q) ↦ ground arith
        ]
  ]

  pub write_acceptance-ok :
      (input : AcceptanceInput) (c : Checked) (existing : Option CustomerVersionState)
      (row : CustomerVersionState) (w w' : World) (r : Response)
      → row.state ≡ accepted
      → IsFreshFor existing input.customer_id input.version_id row
      → write_acceptance env input c existing row w ≡ (ok r, w')
      → IsOutcome input c existing w w' r
  unfolding write_acceptance
  write_acceptance-ok input c existing row w w' r a f h =
      let w1 = (write_state existing row w).1 in
      let (u, p, q) =
        bind-ok (write_state existing row) (λ _. record_evidence env input c) w w' r h in
      let m : IsMoved existing input.customer_id input.version_id w.states w1.states =
        write_state-ok existing row input.customer_id input.version_id w a f p in
      let k : IsRecorded input c r w1.acceptances w'.acceptances w1.confirmations w'.confirmations =
        record_evidence-ok env input c w1 w' r q in
      let s : SameEvidence w w1 = write_state-quiet existing row w in
      let e : w'.states ≡ w1.states =
        sym (ap (λ z. z.1.states) q) ∙ record_evidence-states input c w1 in
      record {
        moved = record {
          row = m.row;
          id = m.id;
          stored = ap (λ d. get d m.id) e ∙ m.stored;
          state = m.state;
          source = m.source;
          elsewhere = λ other. ap (λ d. get d other) e ∙ m.elsewhere other;
        };
        recorded = record {
          acceptance = k.acceptance;
          response = k.response;
          appended = ap (λ d. Acceptances.append d k.acceptance) (sym s.acceptances) ∙ k.appended;
          customer_id = k.customer_id;
          version_id = k.version_id;
          is_effective = k.is_effective;
          method = k.method;
          actor = k.actor;
          content_hash = k.content_hash;
          confirmed = k.confirmed ∙ ap (λ d. d ++ (c.version, k.acceptance) ∷ []) s.confirmations;
        };
      }

  accept_row-ok :
      (input : AcceptanceInput) (c : Checked) (existing : Option CustomerVersionState)
      (w w' : World) (r : Response)
      → accept_row env input existing c w ≡ (ok r, w')
      → IsOutcome input c existing w w' r
  unfolding accept_row new_id
  accept_row-ok input c none w w' r h =
      let state = fresh_state input ("cvs" <> "-" <> env.uuid w.minted) in
      let w1 : World = record w { minted = w.minted + 1 } in
      elim (Result-cases (Lifecycle.accept state active_consent)) [
        | inl (e, p) ↦ ground arith
        | inr (next, p) ↦
            let o : IsOutcome input c none w1 w' r =
              write_acceptance-ok input c none next w1 w' r (accept-accepted state next p)
                (accept-of state next p) (ground arith) in
            record { moved = o.moved; recorded = o.recorded }
      ]
  accept_row-ok input c (some s) w w' r h =
      elim (Result-cases (Lifecycle.accept s active_consent)) [
        | inl (e, p) ↦ ground arith
        | inr (next, p) ↦
            write_acceptance-ok input c (some s) next w w' r (accept-accepted s next p) tt
              (ground arith)
      ]

  guarded-ok :
      (input : AcceptanceInput) (q : Result Checked) (w w' : World) (r : Response)
      → continue q (after_checks env input) w ≡ (ok r, w')
      → (c : Checked) × (q ≡ ok c)
        × IsOutcome input c
            (States.find_by_customer_and_version w.states input.customer_id input.version_id)
            w
            w'
            r
  unfolding after_checks
  guarded-ok input (err e) w w' r h = ground arith
  guarded-ok input (ok c) w w' r h = (c, refl, accept_row-ok input c _ w w' r h)

  -- A request that returns was admitted by every guard at the time that the clock gave, has stored the
  -- row of the customer for the version as ACCEPTED: the row that was there with nothing else changed, or a
  -- new one with the ids of the customer and the version. Every other row is as it was. It has appended exactly one acceptance, effective and in the name of the person logged in.
  pub process-ok :
      (input : AcceptanceInput) (w w' : World) (r : Response)
      → process env input w ≡ (ok r, w')
      → (c : Checked) × IsAdmitted w (env.clock w.ticks) input c
        × IsOutcome input c
            (States.find_by_customer_and_version w.states input.customer_id input.version_id)
            w
            w'
            r
  unfolding process now
  process-ok input w w' r h =
      let w1 : World = record w { ticks = w.ticks + 1 } in
      let t = env.clock w.ticks in
      let (c, p, o) = guarded-ok input (checks w1 t input) w1 w' r h in
      let a = (checks_iff w1 t input c).0 p in
      (
        c,
        record {
          version = a.version;
          document = a.document;
          customer = a.customer;
          offered = a.offered;
          role = a.role;
          shown = a.shown;
        },
        record { moved = o.moved; recorded = o.recorded },
      )

  -- A request keeps one effective acceptance for each customer and version, whether it returns or fails.
  pub process-IsUnique :
      (input : AcceptanceInput) (w : World)
      → IsUnique w.acceptances
      → IsUnique (process env input w).1.acceptances
  process-IsUnique input w u =
      let m = process env input w in
      elim (Result-cases m.0) [
        | inl (e, p) ↦
            let same : SameEvidence w m.1 = process-err env input w m.1 e (ap (λ x. (x, m.1)) p) in
            rw same.acceptances u
        | inr (r, p) ↦
            let (c, a, o) = process-ok input w m.1 r (ap (λ x. (x, m.1)) p) in
            let k = o.recorded in
            append-IsUnique w.acceptances m.1.acceptances k.acceptance u k.appended
      ]
