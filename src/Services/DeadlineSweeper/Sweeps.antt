-- ===== src/Services/DeadlineSweeper/Sweeps.antt =====
-- What a sweep does to each row, whatever has happened to the row since it was found.
use clickwrap.Prelude.{
  ◌+◌, ◌≡◌, ◌⊎◌, refl, ap, ◌∙◌, inl, inr, Option, none, some, List, [], ◌∷◌, String_eq,
  Option-cases, Bool-cases,
}
use clickwrap.Domain.Errors.{ok, Result-cases}
use clickwrap.Domain.Types.{
  passive, notified, AgreementVersion, CustomerVersionState, Acceptance, StateValue,
}
use clickwrap.Domain.Lifecycle
use clickwrap.Domain.Lifecycle.{SweepOutcome, tacit_accepted, blocked, noop}
use clickwrap.Domain.Lifecycle.Deadlines.{IsPast, sweep_iff}
use clickwrap.Store.Versions
use clickwrap.Store.States
use clickwrap.Store.States.Updates.{IsStored, transition_compare_and_set}
use clickwrap.Store.Acceptances
use clickwrap.Store.Acceptances.Unique.{IsUnique, append-IsUnique}
use clickwrap.Runtime.{World, Env}
use clickwrap.Runtime.Exec.{Exec, lift, now, for_each_isolated, bind-keeps}
use clickwrap.Runtime.Recorder.{record_event}
use clickwrap.Services.Acceptance.{append_acceptance}
use clickwrap.Services.DeadlineSweeper.{
  tacit_hash, tacit_of, record_tacit, record_outcome, after_transition, apply_sweep, sweep_version,
  sweep_one, run,
}

append_acceptance-IsUnique :
    (a : Acceptance) (w : World)
    → IsUnique w.acceptances
    → IsUnique (append_acceptance a w).1.acceptances
unfolding append_acceptance
append_acceptance-IsUnique a w u = elim (Result-cases (Acceptances.append w.acceptances a)) [
  | inl (e, p) ↦ rw p u
  | inr (d, p) ↦ rw p (append-IsUnique w.acceptances d a u p)
]

isolated-keeps {ℓ} :
    {A : Type ℓ} (P : World → Type 0) (xs : List A) (body : A → Exec (Unit {0}))
    → ((x : A) (w : World) → P w → P (body x w).1)
    → (w : World) → P w
    → P (for_each_isolated xs body w).1
unfolding for_each_isolated
isolated-keeps P [] body k w p = p
isolated-keeps P (x ∷ xs) body k w p = isolated-keeps P xs body k (body x w).1 (k x w p)

module _ (env : Env) where
  abbrev KeepsUnique : World → Type 0
  KeepsUnique w = IsUnique w.acceptances

  record_tacit-IsUnique :
      (s : CustomerVersionState) (v : AgreementVersion) (w : World)
      → IsUnique w.acceptances
      → IsUnique (record_tacit env s v w).1.acceptances
  unfolding record_tacit now record_event
  record_tacit-IsUnique s v w u =
      let w1 : World = record w { minted = w.minted + 1; ticks = w.ticks + 1 } in
      bind-keeps KeepsUnique (lift (tacit_hash env v)) _ w1 u (λ hash.
        let a = tacit_of env s v (env.uuid w.minted) (env.clock w.ticks) hash in
        let p = append_acceptance-IsUnique a w1 u in
        bind-keeps KeepsUnique (append_acceptance a) _ w1 p (λ x. p))

  record_outcome-IsUnique :
      (s : CustomerVersionState) (v : AgreementVersion) (outcome : SweepOutcome) (w : World)
      → IsUnique w.acceptances
      → IsUnique (record_outcome env s v outcome w).1.acceptances
  unfolding record_outcome record_event
  record_outcome-IsUnique s v tacit_accepted w u = record_tacit-IsUnique s v w u
  record_outcome-IsUnique s v blocked w u = u
  record_outcome-IsUnique s v noop w u = u

  after_transition-IsUnique :
      (s : CustomerVersionState) (v : AgreementVersion) (outcome : SweepOutcome)
      (t : States.States × Option CustomerVersionState) (w : World)
      → IsUnique w.acceptances
      → IsUnique (after_transition env s v outcome t w).1.acceptances
  unfolding after_transition
  after_transition-IsUnique s v outcome (d, none) w u = u
  after_transition-IsUnique s v outcome (d, some row) w u =
      record_outcome-IsUnique s v outcome (record w { states = d }) u

  apply_sweep-IsUnique :
      (s : CustomerVersionState) (v : AgreementVersion) (r : CustomerVersionState × SweepOutcome)
      (w : World)
      → IsUnique w.acceptances
      → IsUnique (apply_sweep env s v r w).1.acceptances
  unfolding apply_sweep
  apply_sweep-IsUnique s v (next, noop) w u = u
  apply_sweep-IsUnique s v (next, tacit_accepted) w u =
      after_transition-IsUnique s v tacit_accepted _ w u
  apply_sweep-IsUnique s v (next, blocked) w u = after_transition-IsUnique s v blocked _ w u

  sweep_version-IsUnique :
      (s : CustomerVersionState) (v : Option AgreementVersion) (w : World)
      → IsUnique w.acceptances
      → IsUnique (sweep_version env s v w).1.acceptances
  unfolding sweep_version now
  sweep_version-IsUnique s none w u = u
  sweep_version-IsUnique s (some v) w u =
      apply_sweep-IsUnique s v (Lifecycle.sweep s v (env.clock w.ticks))
        (record w { ticks = w.ticks + 1 }) u

  -- A run of the sweeper, whatever fails in it, keeps one effective acceptance for each customer and version.
  pub run-IsUnique : (w : World) → IsUnique w.acceptances → IsUnique (run env w).1.acceptances
  unfolding run now sweep_one
  run-IsUnique w u = elim (Bool-cases env.is_sweeper_enabled) [
    | inl t ↦ simp t (
        isolated-keeps KeepsUnique (States.find_due_for_sweep w.states (env.clock w.ticks))
          (sweep_one env)
          (λ s v. sweep_version-IsUnique s (Versions.find_by_id v.versions s.version_id) v)
          (record w { ticks = w.ticks + 1 }) u)
    | inr f ↦ simp f u
  ]

  after_transition-guard :
      (s : CustomerVersionState) (v : AgreementVersion) (outcome : SweepOutcome)
      (expected : StateValue) (u : States.StateTransition) (w : World)
      → IsStored w.states s.id expected
        ⊎ (after_transition env s v outcome (States.transition w.states s.id expected u) w
            ≡ (ok tt, w))
  unfolding after_transition
  after_transition-guard s v outcome expected u w =
      elim (transition_compare_and_set w.states s.id s.id expected u) [
        | inl (t, g, e, p, q) ↦ inl (t, g, e)
        | inr (n, p) ↦ inr (ap (λ x. after_transition env s v outcome x w) p)
      ]

  blocked-acceptances :
      (s : CustomerVersionState) (v : AgreementVersion)
      (t : States.States × Option CustomerVersionState) (w : World)
      → (after_transition env s v blocked t w).1.acceptances ≡ w.acceptances
  unfolding after_transition record_outcome record_event
  blocked-acceptances s v (d, none) w = refl
  blocked-acceptances s v (d, some row) w = refl

  outcome-acceptances :
      (s : CustomerVersionState) (v : AgreementVersion) (r : CustomerVersionState × SweepOutcome)
      (w : World)
      → ((r.1 ≡ tacit_accepted) × IsStored w.states s.id s.state)
        ⊎ ((apply_sweep env s v r w).1.acceptances ≡ w.acceptances)
  unfolding apply_sweep
  outcome-acceptances s v (next, noop) w = inr refl
  outcome-acceptances s v (next, tacit_accepted) w =
      elim (after_transition-guard s v tacit_accepted s.state
        (record { state = next.state; reminders_sent = none }) w) [
          | inl m ↦ inl (refl, m)
          | inr p ↦ inr (ap (λ x. x.1.acceptances) p)
        ]
  outcome-acceptances s v (next, blocked) w = inr (blocked-acceptances s v _ w)

  -- Tacit consent is recorded only for a row that is a PASSIVE version's, is NOTIFIED, both when it was
  -- found and still now, and whose deadline the server's clock has reached. In every other case a sweep
  -- writes no acceptance.
  pub sweep_one_tacit :
      (s : CustomerVersionState) (w : World)
      → ((v : AgreementVersion) × (Versions.find_by_id w.versions s.version_id ≡ some v)
          × (v.acceptance_mode ≡ passive)
          × (s.state ≡ notified)
          × IsPast (env.clock w.ticks) s.deadline_at
          × IsStored w.states s.id notified)
        ⊎ ((sweep_one env s w).1.acceptances ≡ w.acceptances)
  unfolding sweep_one sweep_version now
  sweep_one_tacit s w = elim (Option-cases (Versions.find_by_id w.versions s.version_id)) [
    | inl e ↦ inr (rw e refl)
    | inr (v, e) ↦
        let w1 : World = record w { ticks = w.ticks + 1 } in
        elim (outcome-acceptances s v (Lifecycle.sweep s v (env.clock w.ticks)) w1) [
          | inl (t, m) ↦
              let (mode, state, past) = (sweep_iff s v (env.clock w.ticks)).0.0 t in
              inl (v, e, mode, state, past, (m.0, m.1, m.2 ∙ state))
          | inr p ↦ inr (rw e p)
        ]
  ]
