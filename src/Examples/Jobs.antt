-- ===== src/Examples/Jobs.antt =====
-- The sweepers and the publication at concrete inputs.
use clickwrap.Prelude.{
  arith, ℕ, ◌≡◌, ◌≤◌, refl, String, true, false, none, some, [], ◌∷◌, ◌⊎◌, ◌||◌, String_eq, All,
}
use clickwrap.Prelude.Dict.{get}
use clickwrap.Prelude.Dict.Distinct.{IsById}
use clickwrap.Domain.Errors.{ok}
use clickwrap.Domain.Types.{
  notified, expired_blocking, passive, AgreementDocument, AgreementVersion, CustomerVersionState,
}
use clickwrap.Domain.Consent.{validate_for_publish}
use clickwrap.Domain.Lifecycle.Deadlines.{IsPast}
use clickwrap.Store.Documents
use clickwrap.Store.Versions
use clickwrap.Store.States.Updates.{IsStored}
use clickwrap.Runtime.{World}
use clickwrap.Services.DeadlineSweeper.{sweep_one}
use clickwrap.Services.DeadlineSweeper.Sweeps.{sweep_one_tacit}
use clickwrap.Services.Publish.{PublishResult, publish_version}
use clickwrap.Services.Publish.Total.{publish-total}
use clickwrap.Examples.{
  demo_env, terms, active_version, passive_version, draft_version, seen_row, row_of, demo_world,
}

abbrev due_row : CustomerVersionState
due_row = seen_row passive_version (some 1999)

abbrev due_world : World
due_world = demo_world (passive_version ∷ []) (due_row ∷ [])

sweep_one_tacit_example :
    ((v : AgreementVersion) × (Versions.find_by_id due_world.versions "v-2" ≡ some v)
      × (v.acceptance_mode ≡ passive)
      × (notified ≡ notified)
      × IsPast 2000 (some 1999)
      × IsStored due_world.states "cvs-1" notified)
    ⊎ ((sweep_one demo_env due_row due_world).1.acceptances ≡ due_world.acceptances)
sweep_one_tacit_example = sweep_one_tacit demo_env due_row due_world

abbrev draft_world : World
draft_world =
    demo_world (active_version ∷ draft_version ∷ [])
      (row_of active_version expired_blocking none ∷ [])

documents-by-id : IsById (λ (d : AgreementDocument). d.id) draft_world.documents
documents-by-id = (refl, tt)

draft-found : Versions.find_by_id draft_world.versions "v-3" ≡ some draft_version
unfolding Versions.find_by_id get
draft-found = refl

draft-valid : validate_for_publish draft_version ≡ ok tt
unfolding clickwrap.Domain.Consent.is_blank clickwrap.Prelude.trim validate_for_publish
draft-valid = refl

terms-found : Documents.find_by_id draft_world.documents "doc-1" ≡ some terms
unfolding Documents.find_by_id get
terms-found = refl

publish-total_example :
    (r : PublishResult) × (w : World) × (publish_version demo_env "v-3" "admin" draft_world
      ≡ (ok r, w))
publish-total_example =
    publish-total demo_env terms "admin" draft_version "v-3" draft_world documents-by-id draft-found
      draft-valid terms-found
