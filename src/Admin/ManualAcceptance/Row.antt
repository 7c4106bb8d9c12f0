-- ===== src/Admin/ManualAcceptance/Row.antt =====
-- The row that a manual recording finds or makes, and its move to ACCEPTED.
use clickwrap.Prelude.{
  ◌≡◌, refl, sym, ap, ◌∙◌, ◌⊎◌, inl, inr, String, Option, none, some, arith, String_eq,
  Option-cases,
}
use clickwrap.Prelude.Dict.{get, get-set, get-set_self}
use clickwrap.Domain.Errors.{ok}
use clickwrap.Domain.Types.{StateValue, accepted, CustomerVersionState}
use clickwrap.Domain.Lifecycle
use clickwrap.Store.States
use clickwrap.Runtime.{World, Env}
use clickwrap.Runtime.Exec.{new_id}
use clickwrap.Services.Acceptance.{apply_transition, throw_stale_state_error, write_state}
use clickwrap.Services.Acceptance.Moves.{IsMoved, write_state-ok}
use clickwrap.Services.Acceptance.Evidence.{SameEvidence}
use clickwrap.Admin.ManualAcceptance.{
  ManualMethod, by_consent, by_import, as_method, ensure_row, move_row,
}

-- A row of the customer for the version.
abbrev pub IsOf : (customer_id version_id : String) → CustomerVersionState → Type 0
IsOf customer_id version_id row = (row.customer_id ≡ customer_id) × (row.version_id ≡ version_id)

pub accept-manual :
    (method : ManualMethod) (row next : CustomerVersionState)
    → Lifecycle.accept row (as_method method) ≡ ok next
    → next.state ≡ accepted
unfolding Lifecycle.accept
accept-manual by_consent row next h = ground arith
accept-manual by_import row next h = ground arith

-- What the evidence is read from is the same after the row was found or made, and moved.
unfoldable pub IsQuiet : World → World → Type 0
IsQuiet w w' =
    (w'.acceptances ≡ w.acceptances) × (w'.audit ≡ w.audit) × (w'.objections ≡ w.objections)

module _ (env : Env) where
  -- The row that the transition is made on.
  pub ensure_row-row :
      (customer_id version_id : String) (found : Option CustomerVersionState) (w w1 : World)
      (row : CustomerVersionState)
      → ensure_row env customer_id version_id found w ≡ (ok row, w1)
      → ((found ≡ some row) × (w1 ≡ w))
        ⊎ ((found ≡ none)
            × (w1.states ≡ States.save w.states row)
            × IsOf customer_id version_id row
            × SameEvidence w w1)
  unfolding ensure_row new_id
  ensure_row-row customer_id version_id none w w1 row h =
      inr (refl, ground arith, (ground arith, ground arith), ground arith)
  ensure_row-row customer_id version_id (some s) w w1 row h = inl (ground arith, ground arith)

  -- A row that is there, or one that was just made, is moved to ACCEPTED.
  IsMoved-ok :
      (found : Option CustomerVersionState) (row : CustomerVersionState)
      (customer_id version_id : String) (w w1 : World)
      → (((found ≡ some row) × (w1 ≡ w))
          ⊎ ((found ≡ none)
              × (w1.states ≡ States.save w.states row)
              × IsOf customer_id version_id row
              × SameEvidence w w1))
      → (move_row env row accepted w1).0 ≡ ok tt
      → IsMoved found customer_id version_id w.states (move_row env row accepted w1).1.states
  unfolding move_row write_state States.save
  IsMoved-ok found row customer_id version_id w w1 (inl (p, q)) h =
      rw (p, q)
        (write_state-ok (some row) (record row { state = accepted }) customer_id version_id w refl
          tt (rw q at h))
  IsMoved-ok found row customer_id version_id w w1 (inr (p, q, i, e)) h =
      let m =
        write_state-ok (some row) (record row { state = accepted }) customer_id version_id w1 refl
          tt h in
      let (same, old, g, r) = m.source in
      let k : get w1.states row.id ≡ some row =
        ap (λ d. get d row.id) q ∙ get-set_self w.states row.id row in
      let made : old ≡ row = ground arith in
      rw p (record {
        row = m.row;
        id = m.id;
        stored = m.stored;
        state = m.state;
        source = rw r (rw made (sym same, i.0, i.1));
        elsewhere = λ other. ground (arith, m.elsewhere other, get-set w.states row.id other row);
      })

  pub IsMoved-at :
      (found : Option CustomerVersionState) (row : CustomerVersionState) (value : StateValue)
      (customer_id version_id : String) (w w1 : World)
      → value ≡ accepted
      → (((found ≡ some row) × (w1 ≡ w))
          ⊎ ((found ≡ none)
              × (w1.states ≡ States.save w.states row)
              × IsOf customer_id version_id row
              × SameEvidence w w1))
      → (move_row env row value w1).0 ≡ ok tt
      → IsMoved found customer_id version_id w.states (move_row env row value w1).1.states
  IsMoved-at found row value customer_id version_id w w1 n d h =
      rw n (IsMoved-ok found row customer_id version_id w w1 d (rw n at h))

  pub ensure_row-IsQuiet :
      (customer_id version_id : String) (found : Option CustomerVersionState) (w : World)
      → IsQuiet w (ensure_row env customer_id version_id found w).1
  unfolding ensure_row new_id IsQuiet
  ensure_row-IsQuiet customer_id version_id none w = (refl, refl, refl)
  ensure_row-IsQuiet customer_id version_id (some s) w = (refl, refl, refl)

  pub move_row-IsQuiet :
      (row : CustomerVersionState) (value : StateValue) (w : World)
      → IsQuiet w (move_row env row value w).1
  unfolding move_row apply_transition throw_stale_state_error IsQuiet
  move_row-IsQuiet row value w =
      elim (Option-cases
        (States.transition w.states row.id row.state
          (record { state = value; reminders_sent = none })).1) [
            | inl e ↦ ground arith
            | inr (t, e) ↦ ground arith
          ]
