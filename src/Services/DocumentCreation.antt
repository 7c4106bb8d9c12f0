-- ===== src/Services/DocumentCreation.antt =====
-- agreements/document.service.ts: one document for each type and audience, and the list of them.
pub mod Unique
use clickwrap.Prelude.{
  ℕ, String, Bool, true, false, not, Option, none, some, List, [], ◌∷◌, ◌<>◌, map, is_true, is_some,
  is_none, is_truthy, or_else, trim, ◌==◌, String_eq, if◌then◌else◌,
}
use clickwrap.Domain.Errors
use clickwrap.Domain.Errors.{
  Result, ok, unknown_document_type, document_type_external, unknown_audience, invalid_state,
}
use clickwrap.Domain.Types.{
  AgreementDocument, AgreementVersion, administration, admin, document_created, text,
}
use clickwrap.Domain.Consent.{require}
use clickwrap.Domain.Links.{strip_trailing_slashes}
use clickwrap.Store.Documents
use clickwrap.Store.Versions
use clickwrap.Store.Entities
use clickwrap.Runtime.{World, Env}
use clickwrap.Runtime.Exec.{Exec, pure, gets, modify, query, ◌>>=◌, ◌>>◌, now, new_id}
use clickwrap.Runtime.Recorder.{EventInput, event_input, record_event}
use clickwrap.Services.Acceptance.Checks.{required}

pub record CreateDocumentInput : Type 0 where
  pub type : String
  pub audience : String
  pub name : String

-- The guards, in the order of the source.
unfoldable pub document_checks : World → CreateDocumentInput → Result (Unit {0})
document_checks w input =
    Errors.◌>>=◌
      (required (Entities.find_document_type w.document_types input.type) unknown_document_type)
      (λ document_type.
        Errors.◌>>◌ (require (not (is_true document_type.external)) document_type_external) (
          Errors.◌>>◌
            (require (is_some (Entities.find_audience w.audiences input.audience)) unknown_audience)
            (require
              (is_none (Documents.find_by_type_and_audience w.documents input.type input.audience))
              invalid_state)))

abbrev pub document_of : CreateDocumentInput → String → AgreementDocument
document_of input id = record {
  id = id;
  type = input.type;
  audience = input.audience;
  name = input.name;
}

-- DocumentListEntry, with the versions themselves where the source has their DTOs.
pub record DocumentListEntry : Type 0 where
  pub document : AgreementDocument
  pub current_version : Option AgreementVersion
  pub upcoming_versions : List AgreementVersion
  pub latest_pdf_url : Option String

-- `latestPdfPath` of common/public-documents.ts; `encode` is `encodeURIComponent`.
unfoldable pub latest_pdf_path :
    (encode : String → String) → (type_key audience_key : String) → String
latest_pdf_path encode type_key audience_key =
    "/documents/" <> encode type_key <> "/" <> encode audience_key <> "/latest.pdf"

-- `publicBaseUrl` of common/public-documents.ts, of the variable's value.
unfoldable pub public_base_url : Option String → Option String
unfolding strip_trailing_slashes
public_base_url configured =
    let raw = trim (or_else configured "") in
    if raw == "" then none else some (strip_trailing_slashes raw)

-- `current && baseUrl ? … : null`, with the path of the document as an argument
abbrev latest_url : Option AgreementVersion → Option String → String → Option String
latest_url none base path = none
latest_url (some current) none path = none
latest_url (some current) (some base) path = elim (is_truthy (some base)) [
  | true ↦ some (base <> path)
  | false ↦ none
]

unfoldable pub entry_of :
    World → ℕ → Option String → (String → String) → AgreementDocument → DocumentListEntry
unfolding latest_pdf_path
entry_of w t base encode document =
    let current =
      Versions.find_current_published w.documents w.versions document.type document.audience t in
    record {
      document = document;
      current_version = current;
      upcoming_versions =
          Versions.find_upcoming_published_list w.documents w.versions document.type
            document.audience t;
      latest_pdf_url =
          latest_url current base (latest_pdf_path encode document.type document.audience);
    }

module _ (env : Env) where
  created_event : AgreementDocument → String → EventInput
  created_event saved admin_user_id =
      record (event_input document_created administration admin admin_user_id (
        "Document \"" <> saved.name <> "\" created (" <> saved.type <> " / " <> saved.audience
        <> ")")) {
          document_type = some saved.type;
          audience = some saved.audience;
          metadata = some (("documentId", text saved.id) ∷ []);
        }

  unfoldable pub create : CreateDocumentInput → String → Exec AgreementDocument
  unfolding created_event
  create input admin_user_id = do
    query (λ w. document_checks w input)
    id ← new_id env "doc"
    documents ← query (λ w. Documents.save w.documents (document_of input id))
    modify (λ w. record w { documents = documents })
    record_event env (created_event (document_of input id) admin_user_id)
    pure (document_of input id)

  -- `list`, with the configured base URL.
  unfoldable pub list :
      (configured : Option String) → (String → String) → Exec (List DocumentListEntry)
  unfolding public_base_url
  list configured encode = do
    t ← now env
    gets (λ w.
        map (entry_of w t (public_base_url configured) encode) (Documents.find_all w.documents))
