-- ===== src/Services/Acceptance/Requests.antt =====
-- What the idempotency key and the conditional transition do for requests that run at the same time.
use clickwrap.Prelude.{
  ℕ, zero, suc, ◌≡◌, ap, inl, inr, String, false, none, some, arith, String_eq, Option-cases,
  Bool-cases,
}
use clickwrap.Prelude.Dict.{set, has, get-set_self, delete-set}
use clickwrap.Domain.Errors.{ErrorCode, ok, err, Result-cases}
use clickwrap.Domain.Types.{accepted, CustomerVersionState}
use clickwrap.Store.States
use clickwrap.Store.States.Updates.{IsStored, transition_compare_and_set}
use clickwrap.Runtime.{World, Env, Response, in_progress, stored}
use clickwrap.Runtime.Replies.{find_replay, release}
use clickwrap.Services.Acceptance.{
  throw_stale_state_error, apply_transition, write_state, write_acceptance, await_attempts,
  await_replay, idem_key, process_reserved, process, accept,
}
use clickwrap.Services.Acceptance.Records.{stale_code}
use clickwrap.Services.Acceptance.Checks.{AcceptanceInput, Checked}
use clickwrap.Services.Acceptance.Evidence.{SameEvidence, process-err}

module _ (env : Env) where
  -- A request that read the row in a state which it has left since, as after a publication, a sweep or
  -- another consent, writes nothing at all.
  pub write_acceptance_stale :
      (input : AcceptanceInput) (c : Checked) (s row : CustomerVersionState) (w : World)
      → (¬ IsStored w.states s.id s.state)
      → write_acceptance env input c (some s) row w
        ≡ (err (stale_code (States.find_by_id w.states s.id)), w)
  unfolding write_acceptance write_state apply_transition throw_stale_state_error
  write_acceptance_stale input c s row w n =
      elim (transition_compare_and_set w.states s.id s.id s.state
        (record { state = accepted; reminders_sent = none })) [
          | inl (t, g, e, p, q) ↦ elim (n (t, g, e)) [ ]
          | inr (m, p) ↦ ground arith
        ]

  await_attempts-replay :
      (attempts : ℕ) (key : String) (w w' : World) (r : Response)
      → await_attempts env attempts key w ≡ (ok r, w')
      → find_replay key w' ≡ some r
  unfolding await_attempts
  await_attempts-replay zero key w w' r h = ground arith
  await_attempts-replay (suc k) key w w' r h = elim (Option-cases (find_replay key w)) [
    | inl e ↦ await_attempts-replay k key (env.others k w) w' r (ground arith)
    | inr (x, e) ↦ ground arith
  ]

  process_reserved-replay :
      (key : String) (input : AcceptanceInput) (w w' : World) (r : Response)
      → process_reserved env key input w ≡ (ok r, w')
      → find_replay key w' ≡ some r
  unfolding process_reserved
  process_reserved-replay key input w w' r h = elim (Result-cases (process env input w).0) [
    | inl (e, p) ↦ ground arith
    | inr (x, p) ↦ ground (arith, get-set_self (process env input w).1.replies key (stored x))
  ]

  -- A request that returned, at once, after waiting for another or by itself, returns the same
  -- response when it is sent again, and then changes nothing.
  pub accept_idem :
      (input : AcceptanceInput) (w w' : World) (r : Response)
      → accept env input w ≡ (ok r, w')
      → accept env input w' ≡ (ok r, w')
  unfolding accept await_replay
  accept_idem input w w' r h =
      let key = idem_key input in
      let p : find_replay key w' ≡ some r = elim (Option-cases (find_replay key w)) [
        | inl e ↦ elim (Bool-cases (has w.replies key)) [
          | inl t ↦ ground (arith, await_attempts-replay 50 key w w' r)
          | inr f ↦ ground (
            arith,
            process_reserved-replay key input (record w { replies = set w.replies key in_progress })
                w' r,
          )
        ]
        | inr (x, e) ↦ ground arith
      ] in
      ground arith

  failed :
      (key : String) (input : AcceptanceInput) (w v : World) (code : ErrorCode)
      → has w.replies key ≡ false
      → SameEvidence (record w { replies = set w.replies key in_progress }) v
      → SameEvidence w (release key v)
  unfolding release
  failed key input w v code f s =
      let p = get-set_self w.replies key in_progress in
      let q = delete-set w.replies key in_progress f in
      ground (arith, s.replies, s.acceptances, s.events, s.confirmations, s.objections, p, q)

  -- A request under a new key that fails leaves no evidence, and leaves its key free again.
  pub accept-err :
      (input : AcceptanceInput) (w w' : World) (code : ErrorCode)
      → has w.replies (idem_key input) ≡ false
      → accept env input w ≡ (err code, w')
      → SameEvidence w w'
  unfolding accept process_reserved
  accept-err input w w' code f h =
      let key = idem_key input in
      let w1 : World = record w { replies = set w.replies key in_progress } in
      let m = process env input w1 in
      elim (Result-cases m.0) [
        | inl (e, p) ↦
            let s =
              failed key input w m.1 e f (process-err env input w1 m.1 e (ap (λ x. (x, m.1)) p)) in
            let q : w' ≡ release key m.1 = ground arith in rw q s
        | inr (r, p) ↦ ground arith
      ]
