-- ===== src/Store/Entities.antt =====
-- persistence/inmemory/audience.repo.ts and document-type.repo.ts: the entities that keys refer to.
pub mod References
use clickwrap.Prelude.{
  String, Bool, true, false, ◌&&◌, not, Option, none, some, List, ◌==◌, String_eq, if◌then◌else◌,
  find, any, includes,
}
use clickwrap.Prelude.Dict.{Dict, values, set, delete}
use clickwrap.Domain.Errors.{Result, ok, err, ◌>>◌, invalid_state}
use clickwrap.Domain.Types.{Audience, DocumentTypeDef}
use clickwrap.Domain.Keys.{assert_valid_entity_key}
use clickwrap.Store.Documents
use clickwrap.Store.Documents.{Documents}
use clickwrap.Store.Customers
use clickwrap.Store.Customers.{Customers}

abbrev pub Audiences : Type 0
Audiences = Dict String Audience

abbrev pub DocumentTypes : Type 0
DocumentTypes = Dict String DocumentTypeDef

unfoldable pub save_audience : Audiences → Audience → Result Audiences
save_audience audiences audience = do
  assert_valid_entity_key audience.key
  elim (find (λ a. not (a.id == audience.id) && a.key == audience.key) (values audiences)) [
    | some duplicate ↦ err invalid_state
    | none ↦ ok (set audiences audience.id audience)
  ]

unfoldable pub find_audience : Audiences → String → Option Audience
find_audience audiences key = find (λ a. a.key == key) (values audiences)

-- The audiences after the call, and whether one was deleted.
unfoldable pub delete_audience_if_unused :
    Audiences → Documents → Customers → String → Audiences × Bool
delete_audience_if_unused audiences documents customers key = elim (find_audience audiences key) [
  | none ↦ (audiences, false)
  | some existing ↦
      if any (λ d. d.audience == key) (Documents.find_all documents)
      then (audiences, false)
      else if any (λ c. includes c.roles key) (Customers.find_all customers)
      then (audiences, false)
      else (delete audiences existing.id, true)
]

unfoldable pub save_document_type : DocumentTypes → DocumentTypeDef → Result DocumentTypes
save_document_type types document_type = do
  assert_valid_entity_key document_type.key
  elim (find (λ t. not (t.id == document_type.id) && t.key == document_type.key) (values types)) [
    | some duplicate ↦ err invalid_state
    | none ↦ ok (set types document_type.id document_type)
  ]

unfoldable pub find_document_type : DocumentTypes → String → Option DocumentTypeDef
find_document_type types key = find (λ t. t.key == key) (values types)

unfoldable pub delete_document_type_if_unused :
    DocumentTypes → Documents → String → DocumentTypes × Bool
delete_document_type_if_unused types documents key = elim (find_document_type types key) [
  | none ↦ (types, false)
  | some existing ↦
      if any (λ d. d.type == key) (Documents.find_all documents)
      then (types, false)
      else (delete types existing.id, true)
]
