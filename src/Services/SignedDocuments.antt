-- ===== src/Services/SignedDocuments.antt =====
-- signed-documents/signed-document.service.ts: documents that were signed elsewhere are kept as evidence.
-- Dates are numbers, so that an invalid date is none; `is_before` is the collation of the ids.
pub mod Archive
use clickwrap.Prelude.{
  ℕ, ◌+◌, String, Bool, true, false, not, Option, none, some, List, [], ◌∷◌, ◌<>◌, is_some, is_true,
  map, if◌then◌else◌,
}
use clickwrap.Domain.Errors.{
  ErrorCode, Result, ok, err, ◌>>=◌, ◌>>◌, invalid_state, customer_not_found, unknown_document_type,
  document_type_not_external, unknown_audience, version_not_found,
}
use clickwrap.Domain.Types.{
  Actor, Customer, SignedDocument, administration, admin, system, text, signed_document_upload,
  signed_document_uploaded,
}
use clickwrap.Domain.Consent.{require}
use clickwrap.Domain.Customers.{customer_display_name}
use clickwrap.Store.Customers
use clickwrap.Store.Entities
use clickwrap.Store.SignedDocuments
use clickwrap.Runtime.{World, Env}
use clickwrap.Runtime.Exec
use clickwrap.Runtime.Exec.{Exec, pure, modify, gets, query, now, new_id}
use clickwrap.Runtime.Recorder.{EventInput, event_input, record_event}
use clickwrap.Runtime.Audit.{append_audit, audit_entry}
use clickwrap.Runtime.Files.{PdfUpload, is_empty_upload, StoredPdf, PdfStorage}
use clickwrap.Services.Acceptance.Checks.{required}

-- UploadSignedDocumentInput
pub record UploadInput : Type 0 where
  pub document_type_key : String
  pub signed_at : Option ℕ
  pub file : PdfUpload
  pub signer_name : Option String
  pub reference : Option String
  pub audience : Option String
  pub note : Option String

-- SignedDocumentDto: the document without its storage key, and with a download URL.
pub record SignedDocumentDto : Type 0 where
  pub id : String
  pub customer_id : String
  pub document_type_key : String
  pub audience : Option String
  pub file_name : String
  pub content_hash : String
  pub file_size : ℕ
  pub signed_at : ℕ
  pub signer_name : Option String
  pub reference : Option String
  pub note : Option String
  pub uploaded_by : String
  pub uploaded_at : ℕ
  pub pdf_url : String

unfoldable pub to_signed_document_dto : SignedDocument → String → SignedDocumentDto
to_signed_document_dto d pdf_url = record {
  id = d.id;
  customer_id = d.customer_id;
  document_type_key = d.document_type_key;
  audience = d.audience;
  file_name = d.file_name;
  content_hash = d.content_hash;
  file_size = d.file_size;
  signed_at = d.signed_at;
  signer_name = d.signer_name;
  reference = d.reference;
  note = d.note;
  uploaded_by = d.uploaded_by;
  uploaded_at = d.uploaded_at;
  pdf_url = pdf_url;
}

-- With the URL that the storage gives at its `call`.
abbrev pub to_dto : PdfStorage → (call : ℕ) → SignedDocument → SignedDocumentDto
to_dto pdf call d = to_signed_document_dto d (pdf.get_presigned_url d.storage_key call)

abbrev pub is_known_audience : World → Option String → Bool
is_known_audience w none = true
is_known_audience w (some key) = is_some (Entities.find_audience w.audiences key)

-- The guards, in the order of the source; they return the customer and the date.
unfoldable pub upload_checks : World → String → UploadInput → Result (Customer × ℕ)
upload_checks w customer_id input = do
  require (not (is_empty_upload input.file)) invalid_state
  signed_at ← required input.signed_at invalid_state
  customer ← required (Customers.find_by_id w.customers customer_id) customer_not_found
  t ←
      required (Entities.find_document_type w.document_types input.document_type_key)
        unknown_document_type
  require (is_true t.external) document_type_not_external
  require (is_known_audience w input.audience) unknown_audience
  ok (customer, signed_at)

abbrev pub signed_document_of :
    String
    → UploadInput
    → Actor
    → StoredPdf
    → (signed_at : ℕ) → (id : String) → (at : ℕ) → SignedDocument
signed_document_of customer_id input actor stored signed_at id at = record {
  id = id;
  customer_id = customer_id;
  document_type_key = input.document_type_key;
  audience = input.audience;
  file_name = stored.file_name;
  storage_key = stored.storage_key;
  content_hash = stored.content_hash;
  file_size = stored.file_size;
  signed_at = signed_at;
  signer_name = input.signer_name;
  reference = input.reference;
  note = input.note;
  uploaded_by = actor.user_id;
  uploaded_at = at;
}

-- The event of the administrator's upload, or of another system's.
uploaded_event : Bool → Actor → Customer → SignedDocument → EventInput
uploaded_event record_audit actor customer saved =
    record (event_input signed_document_uploaded administration
      (if record_audit then admin else system) actor.user_id
      ("Signed document uploaded (" <> saved.document_type_key <> ")")) {
        customer_id = some saved.customer_id;
        customer_name = some (customer_display_name customer);
        document_type = some saved.document_type_key;
        audience = saved.audience;
        metadata =
            some
              (("signedDocumentId", text saved.id) ∷ ("contentHash", text saved.content_hash) ∷ []);
      }

module _ (env : Env) where
  audit_upload : Bool → Actor → SignedDocument → ℕ → Exec (Unit {0})
  unfolding append_audit new_id
  audit_upload false actor saved at = pure tt
  audit_upload true actor saved at = Exec.◌>>=◌ (new_id env "audit") (λ id. append_audit (
      audit_entry signed_document_upload actor.user_id "SignedDocument" saved.id none
        (some (
          ("customerId", text saved.customer_id)
          ∷ ("documentTypeKey", text saved.document_type_key)
          ∷ ("contentHash", text saved.content_hash)
          ∷ ("storageKey", text saved.storage_key)
          ∷ []))
        id at))

  -- What an admitted upload writes.
  unfoldable pub archive :
      PdfStorage
      → (call : ℕ) → String
      → UploadInput
      → Actor
      → Bool
      → Customer × ℕ
      → Exec SignedDocumentDto
  unfolding audit_upload uploaded_event
  archive pdf call customer_id input actor record_audit (customer, signed_at) =
      Exec.◌>>=◌ (now env) (λ at. Exec.◌>>=◌ (new_id env "sd") (λ id.
        let saved =
          signed_document_of customer_id input actor (pdf.store input.file) signed_at id at in
        Exec.◌>>◌
          (modify
            (λ w. record w { signed_documents = SignedDocuments.append w.signed_documents saved }))
          (Exec.◌>>◌ (audit_upload record_audit actor saved at) (
            Exec.◌>>◌ (record_event env (uploaded_event record_audit actor customer saved))
              (pure (to_dto pdf call saved))))))

  unfoldable pub upload :
      PdfStorage → (call : ℕ) → String → UploadInput → Actor → Bool → Exec SignedDocumentDto
  upload pdf call customer_id input actor record_audit =
      Exec.◌>>=◌ (query (λ w. upload_checks w customer_id input))
        (archive pdf call customer_id input actor record_audit)

-- Each with a URL of its own call.
abbrev to_dtos : PdfStorage → (call : ℕ) → List SignedDocument → List SignedDocumentDto
to_dtos pdf call [] = []
to_dtos pdf call (d ∷ rest) = to_dto pdf call d ∷ to_dtos pdf (call + 1) rest

-- `list`: newest first, each with a fresh URL.
unfoldable pub list_documents :
    (String → String → Bool) → PdfStorage → (call : ℕ) → World → String → List SignedDocumentDto
list_documents is_before pdf call w customer_id =
    to_dtos pdf call (SignedDocuments.find_by_customer is_before w.signed_documents customer_id)

unfoldable pub get_pdf_url : PdfStorage → (call : ℕ) → World → String → Result String
get_pdf_url pdf call w id =
    required (SignedDocuments.find_by_id w.signed_documents id) version_not_found
    >>= (λ document. ok (pdf.get_presigned_url document.storage_key call))
