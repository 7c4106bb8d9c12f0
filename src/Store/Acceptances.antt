-- ===== src/Store/Acceptances.antt =====
-- persistence/inmemory/acceptance.repo.ts
pub mod Unique
use clickwrap.Prelude.{
  ◌≡◌, ℕ, Bool, true, false, ◌&&◌, not, String, Option, none, some, List, leb, ◌==◌, String_eq,
  if◌then◌else◌, keep, find, is_some,
}
use clickwrap.Prelude.Sort.{sort}
use clickwrap.Prelude.Dict.{Dict, values, get, set, has}
use clickwrap.Domain.Errors.{Result, ok, err, invalid_state, already_accepted}
use clickwrap.Domain.Types.{Acceptance}

abbrev pub Acceptances : Type 0
Acceptances = Dict String Acceptance

unfoldable pub effective_for : Acceptances → String → String → Option Acceptance
effective_for acceptances customer_id version_id =
    find (λ a. a.customer_id == customer_id && a.version_id == version_id && a.is_effective)
      (values acceptances)

unfoldable pub append : Acceptances → Acceptance → Result Acceptances
append acceptances acceptance =
    if has acceptances acceptance.id
    then err invalid_state
    else if acceptance.is_effective
        && is_some (effective_for acceptances acceptance.customer_id acceptance.version_id)
    then err already_accepted
    else ok (set acceptances acceptance.id acceptance)

unfoldable pub supersede : Acceptances → String → String → Result (Acceptances × Acceptance)
supersede acceptances acceptance_id by_acceptance_id = elim (get acceptances acceptance_id) [
  | none ↦ err invalid_state
  | some stored ↦
      let updated : Acceptance = record stored {
        is_effective = false;
        superseded_by_acceptance_id = some by_acceptance_id;
      } in
      ok (set acceptances acceptance_id updated, updated)
]

unfoldable pub find_by_id : Acceptances → String → Option Acceptance
find_by_id acceptances id = get acceptances id

unfoldable pub find_effective : Acceptances → String → String → Option Acceptance
find_effective acceptances customer_id version_id = effective_for acceptances customer_id version_id

unfoldable pub find_effective_by_version : Acceptances → String → List Acceptance
find_effective_by_version acceptances version_id =
    keep (λ a. a.version_id == version_id && a.is_effective) (values acceptances)

by_acceptance_time : Acceptance → Acceptance → Bool
by_acceptance_time a b = leb a.accepted_at b.accepted_at

unfoldable pub find_by_customer : Acceptances → String → List Acceptance
unfolding by_acceptance_time
find_by_customer acceptances customer_id =
    sort by_acceptance_time (keep (λ a. a.customer_id == customer_id) (values acceptances))

unfoldable pub find_all : Acceptances → List Acceptance
unfolding by_acceptance_time
find_all acceptances = sort by_acceptance_time (values acceptances)
