-- ===== src/Examples/Rows.antt =====
-- The transitions and the guards at concrete rows and versions.
use clickwrap.Prelude.{
  ◌≡◌, ◌≢◌, ◌≤◌, ◌<◌, refl, true, false, none, some, [], ◌∷◌, ◌⊎◌, ◌↔◌, String_eq, All,
}
use clickwrap.Domain.Errors.{ok, err, objection_period_expired}
use clickwrap.Domain.Types.{pending_notification, accepted, objected, active_consent}
use clickwrap.Domain.Compliance.{CurrentVersionEntry, compute_compliance}
use clickwrap.Domain.Compliance.Gate.{Permits, compute_compliance_iff}
use clickwrap.Domain.Lifecycle.{
  ms_per_day, rollout_deadline_for, record_access, object, sweep, supersede, is_blocking, noop,
  tacit_accepted,
}
use clickwrap.Domain.Lifecycle.Steps.{
  access, consent, objection, apply, run, Moves, IsSameRow, IsDated, apply-Moves, run-IsDated,
}
use clickwrap.Domain.Lifecycle.Deadlines.{object-sweep}
use clickwrap.Examples.{terms, tenant, active_version, passive_version, fresh_row, seen_row, row_of}

abbrev entry : CurrentVersionEntry
entry = record { document = terms; version = active_version }

compute_compliance_iff_example :
    ((compute_compliance tenant (entry ∷ []) (fresh_row active_version ∷ []) none).compliant ≡ true)
    ↔ ((tenant.deleted_at ≢ none)
        ⊎ All (Permits tenant (fresh_row active_version ∷ []) none) (entry ∷ []))
compute_compliance_iff_example =
    compute_compliance_iff tenant (fresh_row active_version ∷ []) none (entry ∷ [])

rolled_out : (fresh_row passive_version).deadline_at ≡ rollout_deadline_for passive_version
unfolding rollout_deadline_for
rolled_out = refl

run-IsDated_example :
    IsDated passive_version
      (run passive_version (access 2000 false ∷ objection 2500 ∷ []) (fresh_row passive_version))
run-IsDated_example =
    run-IsDated passive_version (access 2000 false ∷ objection 2500 ∷ [])
      (fresh_row passive_version) refl refl rolled_out

accepts :
    apply active_version (consent active_consent) (fresh_row active_version)
    ≡ ok (row_of active_version accepted none)
unfolding clickwrap.Domain.Lifecycle.accept
accepts = refl

apply-Moves_example :
    Moves active_version.acceptance_mode pending_notification accepted
    × IsSameRow (fresh_row active_version) (row_of active_version accepted none)
apply-Moves_example =
    apply-Moves active_version (consent active_consent) (fresh_row active_version)
      (row_of active_version accepted none) accepts

object-sweep_example :
    ((2000 < 3000)
      × (object (seen_row passive_version (some 3000)) passive_version 2000
          ≡ ok (record (seen_row passive_version (some 3000)) { state = objected }))
      × (sweep (seen_row passive_version (some 3000)) passive_version 2000
          ≡ (seen_row passive_version (some 3000), noop)))
    ⊎ ((3000 ≤ 2000)
        × (object (seen_row passive_version (some 3000)) passive_version 2000
            ≡ err objection_period_expired)
        × (sweep (seen_row passive_version (some 3000)) passive_version 2000
            ≡ (record (seen_row passive_version (some 3000)) { state = accepted }, tacit_accepted)))
object-sweep_example =
    object-sweep (seen_row passive_version (some 3000)) passive_version 2000 3000 refl refl refl
