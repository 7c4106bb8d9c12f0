-- ===== src/Services/Objection/Outcome.antt =====
-- What an objection leaves behind, on each of its branches.
use clickwrap.Prelude.{
  ℕ, ◌+◌, ◌<◌, ◌≡◌, refl, sym, ap, ◌∙◌, inl, inr, String, none, some, [], ◌∷◌, ◌++◌, arith,
  String_eq, ◌<>◌, Option-cases, ◌==◌, if◌then◌else◌,
}
use clickwrap.Prelude.Dict.{get, get-set_self}
use clickwrap.Domain.Errors.{ok, err, Result-cases, objection_period_expired}
use clickwrap.Domain.Types.{
  passive, StateValue_eq, state_eq_iff, notified, objected, AgreementVersion, CustomerVersionState,
  Objection,
}
use clickwrap.Domain.Lifecycle
use clickwrap.Domain.Lifecycle.{before_deadline}
use clickwrap.Store.Versions
use clickwrap.Store.States
use clickwrap.Store.States.Updates.{transition-some}
use clickwrap.Store.Objections
use clickwrap.Runtime.{World, Env, Response, objection_response, stored}
use clickwrap.Runtime.Exec.{now, new_id, bind-ok, ◌>>◌}
use clickwrap.Runtime.Replies.{find_replay}
use clickwrap.Runtime.Recorder.{record_event}
use clickwrap.Services.Objection.{
  ObjectionInput, objection_key, object, object_new, object_state, try_object, note_late, escalate,
  escalation_of, write_objected, apply_objection, record_objection, append_objection, objection_of,
}

-- May be objected to at `t`: a PASSIVE version, displayed to the customer, before the deadline.
pub record IsObjectable (s : CustomerVersionState) (version : AgreementVersion) (t : ℕ)
    : Type 0 where
  pub mode : version.acceptance_mode ≡ passive
  pub state : s.state ≡ notified
  pub deadline : ℕ
  pub known : s.deadline_at ≡ some deadline
  pub early : t < deadline

pub object-ok :
    (state next : CustomerVersionState) (version : AgreementVersion) (t : ℕ)
    → Lifecycle.object state version t ≡ ok next
    → IsObjectable state version t × (next.state ≡ objected)
unfolding Lifecycle.object before_deadline
object-ok state next version t h = elim (Option-cases state.deadline_at) [
  | inl e ↦ ground arith
  | inr (d, e) ↦ (
    record {
      mode = ground arith;
      state = ground (arith, state_eq_iff state.state notified);
      deadline = d;
      known = e;
      early = ground arith;
    },
    ground arith,
  )
]

-- What a recorded objection leaves behind.
pub record IsObjected (input : ObjectionInput) (id other : String) (w w' : World) (r : Response)
    : Type 0 where
  pub row : CustomerVersionState
  pub state : row.state ≡ objected
  pub stored_row : get w'.states id ≡ some row
  pub elsewhere : get w'.states other ≡ (if id == other then some row else get w.states other)
  pub objection : Objection
  pub appended : Objections.append w.objections objection ≡ ok w'.objections
  pub customer_id : objection.customer_id ≡ input.customer_id
  pub version_id : objection.version_id ≡ input.version_id
  pub reason : objection.reason ≡ input.reason
  pub unresolved : objection.resolution ≡ none
  pub response : r ≡ objection_response objection.id
  pub reply : find_replay (objection_key input) w' ≡ some r

module _ (env : Env) where
  -- An objection after the period leaves exactly one thing behind, a note in the escalation log with
  -- the time of the server: no row, no objection, no event, no reply and no notice is written.
  pub object_late :
      (input : ObjectionInput) (version : AgreementVersion) (s : CustomerVersionState) (w : World)
      → find_replay (objection_key input) w ≡ none
      → Versions.find_by_id w.versions input.version_id ≡ some version
      → States.find_by_customer_and_version w.states input.customer_id input.version_id ≡ some s
      → Lifecycle.object s version (env.clock w.ticks) ≡ err objection_period_expired
      → object env input w ≡ (
        err objection_period_expired,
        record w {
          ticks = w.ticks + 2;
          minted = w.minted + 1;
          escalations =
              w.escalations ++ escalation_of env input (record w { ticks = w.ticks + 1 }) ∷ [];
        },
      )
  unfolding object object_new object_state try_object note_late escalate now new_id
  object_late input version s w p q r h = ground arith

  record_objection-ok :
      (input : ObjectionInput) (version : AgreementVersion) (w w' : World) (r : Response)
      → record_objection env input version w ≡ (ok r, w')
      → (Objections.append w.objections (objection_of env input w) ≡ ok w'.objections)
        × (w'.states ≡ w.states)
        × (r ≡ objection_response ("o" <> "-" <> env.uuid w.minted))
        × (find_replay (objection_key input) w' ≡ some r)
  unfolding record_objection append_objection objection_of now new_id record_event
  record_objection-ok input version w w' r h =
      elim (Result-cases (Objections.append w.objections (objection_of env input w))) [
        | inl (e, p) ↦ ground arith
        | inr (d, p) ↦
            let id = "o" <> "-" <> env.uuid w.minted in
            ground
              (arith, get-set_self w.replies (objection_key input) (stored (objection_response id)))
      ]

  write_objected-ok :
      (id other : String) (next : CustomerVersionState) (w : World)
      → next.state ≡ objected
      → (write_objected id next w).0 ≡ ok tt
      → (row : CustomerVersionState) × (row.state ≡ objected)
        × (get (write_objected id next w).1.states id ≡ some row)
        × (get (write_objected id next w).1.states other
            ≡ (if id == other then some row else get w.states other))
        × ((write_objected id next w).1.objections ≡ w.objections)
  unfolding write_objected apply_objection
  write_objected-ok id other next w n h =
      let u : States.StateTransition = record { state = next.state; reminders_sent = none } in
      let p = States.transition w.states id notified u in
      elim (Option-cases p.1) [
        | inl e ↦ ground arith
        | inr (t, e) ↦
            let (value, kept, elsewhere) = transition-some w.states id other notified u t e in
            let m = write_objected id next w in
            let q : m.1.states ≡ p.0 = ground arith in
            (
              t,
              value ∙ n,
              ap (λ d. get d id) q ∙ kept,
              ap (λ d. get d other) q ∙ elsewhere,
              ground arith,
            )
      ]

  try_object-ok :
      (input : ObjectionInput) (s : CustomerVersionState) (version : AgreementVersion) (w : World)
      (next : CustomerVersionState)
      → (try_object env input s version w).0 ≡ ok next
      → (Lifecycle.object s version (env.clock w.ticks) ≡ ok next)
        × ((try_object env input s version w).1 ≡ record w { ticks = w.ticks + 1 })
  unfolding try_object now
  try_object-ok input s version w next h =
      elim (Result-cases (Lifecycle.object s version (env.clock w.ticks))) [
        | inl (e, p) ↦ ground arith
        | inr (n, p) ↦ ground arith
      ]

  -- An objection that is recorded was raised against a PASSIVE version that had been displayed, before
  -- the deadline by the server's clock; its row, and no other, is now OBJECTED, exactly one unresolved
  -- objection has been appended, and its response is stored under the request's key.
  pub object_state-ok :
      (input : ObjectionInput) (version : AgreementVersion) (s : CustomerVersionState)
      (other : String) (w w' : World) (r : Response)
      → object_state env input version s w ≡ (ok r, w')
      → IsObjectable s version (env.clock w.ticks) × IsObjected input s.id other w w' r
  unfolding object_state objection_of
  object_state-ok input version s other w w' r h =
      let (next, p, h1) =
        bind-ok (try_object env input s version)
          (λ n. write_objected s.id n >> record_objection env input version) w w' r h in
      let (o, q) = try_object-ok input s version w next p in
      let (may, n) = object-ok s next version (env.clock w.ticks) o in
      let w1 = (try_object env input s version w).1 in
      let (u, p1, h2) =
        bind-ok (write_objected s.id next) (λ _. record_objection env input version) w1 w' r h1 in
      let (row, value, at, elsewhere, objections) = write_objected-ok s.id other next w1 n p1 in
      let w2 = (write_objected s.id next w1).1 in
      let (appended, states, response, reply) = record_objection-ok input version w2 w' r h2 in
      (
        may,
        record {
          row = row;
          state = value;
          stored_row = ap (λ d. get d s.id) states ∙ at;
          elsewhere =
              ap (λ d. get d other) states
              ∙ elsewhere
              ∙ ap (λ z. if s.id == other then some row else get z.states other) q;
          objection = objection_of env input w2;
          appended =
              ap (λ d. Objections.append d (objection_of env input w2))
                (sym (objections ∙ ap (λ z. z.objections) q))
              ∙ appended;
          customer_id = refl;
          version_id = refl;
          reason = refl;
          unresolved = refl;
          response = response;
          reply = reply;
        },
      )
