-- ===== src/Store/Objections.antt =====
-- persistence/inmemory/objection.repo.ts
use clickwrap.Prelude.{
  ℕ, String, ◌&&◌, Option, none, some, List, ◌==◌, String_eq, if◌then◌else◌, keep,
}
use clickwrap.Prelude.Dict.{Dict, values, get, set, has}
use clickwrap.Domain.Errors.{Result, ok, err, invalid_state}
use clickwrap.Domain.Types.{ObjectionResolution, Objection}

abbrev pub Objections : Type 0
Objections = Dict String Objection

unfoldable pub append : Objections → Objection → Result Objections
append objections objection =
    if has objections objection.id
    then err invalid_state
    else ok (set objections objection.id objection)

unfoldable pub find_by_id : Objections → String → Option Objection
find_by_id objections id = get objections id

unfoldable pub find_by_customer_and_version : Objections → String → String → List Objection
find_by_customer_and_version objections customer_id version_id =
    keep (λ o. o.customer_id == customer_id && o.version_id == version_id) (values objections)

unfoldable pub find_by_customer : Objections → String → List Objection
find_by_customer objections customer_id =
    keep (λ o. o.customer_id == customer_id) (values objections)

unfoldable pub find_all : Objections → List Objection
find_all objections = values objections

unfoldable pub resolve :
    Objections → String → ObjectionResolution → String → ℕ → Result (Objections × Objection)
resolve objections id resolution resolved_by resolved_at = elim (get objections id) [
  | none ↦ err invalid_state
  | some stored ↦
      let updated : Objection = record stored {
        resolution = some resolution;
        resolved_by = some resolved_by;
        resolved_at = some resolved_at;
      } in
      ok (set objections id updated, updated)
]
