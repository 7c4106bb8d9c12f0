-- ===== src/Services/SignedDocuments/Archive.antt =====
-- What an upload of signed-documents/signed-document.service.ts archives.
use clickwrap.Prelude.{
  ℕ, ◌≡◌, refl, ◌∙◌, ap, sym, String, Bool, true, false, some, is_true, arith, inl, inr, String_eq,
  ◌<>◌, Option-cases,
}
use clickwrap.Prelude.Dict.{get-set_self}
use clickwrap.Domain.Errors.{ok}
use clickwrap.Domain.Types.{Actor, Customer, SignedDocument, DocumentTypeDef}
use clickwrap.Store.Customers
use clickwrap.Store.Entities
use clickwrap.Store.SignedDocuments
use clickwrap.Runtime.{World, Env}
use clickwrap.Runtime.Exec.{bind-ok, query, now, new_id}
use clickwrap.Runtime.Recorder.{record_event}
use clickwrap.Runtime.Audit.{append_audit}
use clickwrap.Runtime.Files.{PdfStorage, is_empty_upload}
use clickwrap.Services.Acceptance.Checks.{required}
use clickwrap.Services.SignedDocuments.{
  UploadInput, SignedDocumentDto, to_signed_document_dto, to_dto, is_known_audience, upload_checks,
  signed_document_of, archive, upload, get_pdf_url,
}

-- Requests that may be archived.
pub record IsUploadable (w : World) (customer_id : String) (input : UploadInput) : Type 0 where
  pub has_file : is_empty_upload input.file ≡ false
  pub customer : Customer
  pub stored_customer : Customers.find_by_id w.customers customer_id ≡ some customer
  pub document_type : DocumentTypeDef
  pub stored_type :
      Entities.find_document_type w.document_types input.document_type_key ≡ some document_type
  pub is_external : is_true document_type.external ≡ true
  pub audience : is_known_audience w input.audience ≡ true

-- The tables that the gate and the consents read.
pub record IsUntouched (w w' : World) : Type 0 where
  pub documents : w'.documents ≡ w.documents
  pub versions : w'.versions ≡ w.versions
  pub customers : w'.customers ≡ w.customers
  pub audiences : w'.audiences ≡ w.audiences
  pub document_types : w'.document_types ≡ w.document_types
  pub states : w'.states ≡ w.states
  pub acceptances : w'.acceptances ≡ w.acceptances

-- The archived document is of the customer, type and audience of the request, as signed then, with the
-- file as the storage has it, and by the one who uploaded it.
pub record IsArchived (pdf : PdfStorage) (customer_id : String) (input : UploadInput)
    (actor : Actor) (d : SignedDocument) : Type 0 where
  pub of_customer : d.customer_id ≡ customer_id
  pub of_type : d.document_type_key ≡ input.document_type_key
  pub audience : d.audience ≡ input.audience
  pub signed_at : some d.signed_at ≡ input.signed_at
  pub signer_name : d.signer_name ≡ input.signer_name
  pub reference : d.reference ≡ input.reference
  pub note : d.note ≡ input.note
  pub uploaded_by : d.uploaded_by ≡ actor.user_id
  pub storage_key : d.storage_key ≡ (pdf.store input.file).storage_key
  pub content_hash : d.content_hash ≡ (pdf.store input.file).content_hash
  pub file_name : d.file_name ≡ (pdf.store input.file).file_name
  pub file_size : d.file_size ≡ (pdf.store input.file).file_size

-- The date of the document is the one that was checked.
upload_checks-date :
    (w : World) (customer_id : String) (input : UploadInput) (c : Customer × ℕ)
    → upload_checks w customer_id input ≡ ok c
    → some c.1 ≡ input.signed_at
unfolding upload_checks required
upload_checks-date w customer_id input c h = elim (Option-cases input.signed_at) [
  | inl a ↦ ground arith
  | inr (at, a) ↦ elim (Option-cases (Customers.find_by_id w.customers customer_id)) [
    | inl b ↦ ground arith
    | inr (customer, b) ↦
        elim (Option-cases (Entities.find_document_type w.document_types input.document_type_key)) [
          | inl d ↦ ground arith
          | inr (t, d) ↦ ground arith
        ]
  ]
]

upload_checks-ok :
    (w : World) (customer_id : String) (input : UploadInput) (c : Customer × ℕ)
    → upload_checks w customer_id input ≡ ok c
    → IsUploadable w customer_id input
unfolding upload_checks required
upload_checks-ok w customer_id input c h = elim (Option-cases input.signed_at) [
  | inl a ↦ ground arith
  | inr (at, a) ↦ elim (Option-cases (Customers.find_by_id w.customers customer_id)) [
    | inl b ↦ ground arith
    | inr (customer, b) ↦
        elim (Option-cases (Entities.find_document_type w.document_types input.document_type_key)) [
          | inl d ↦ ground arith
          | inr (t, d) ↦ record {
            has_file = ground arith;
            customer = customer;
            stored_customer = b;
            document_type = t;
            stored_type = d;
            is_external = ground arith;
            audience = ground arith;
          }
        ]
  ]
]

find-append :
    (w w' : World) (d : SignedDocument)
    → w'.signed_documents ≡ SignedDocuments.append w.signed_documents d
    → SignedDocuments.find_by_id w'.signed_documents d.id ≡ some d
unfolding SignedDocuments.append SignedDocuments.find_by_id
find-append w w' d p = rw p (get-set_self w.signed_documents d.id d)

get_pdf_url-append :
    (pdf : PdfStorage) (call : ℕ) (w w' : World) (d : SignedDocument)
    → w'.signed_documents ≡ SignedDocuments.append w.signed_documents d
    → get_pdf_url pdf call w' d.id ≡ ok (pdf.get_presigned_url d.storage_key call)
unfolding get_pdf_url required
get_pdf_url-append pdf call w w' d p = rw (find-append w w' d p) refl

module _ (env : Env) where
  -- The document that an upload archives.
  abbrev saved : PdfStorage → String → UploadInput → Actor → ℕ → World → SignedDocument
  saved pdf customer_id input actor signed_at w =
      signed_document_of customer_id input actor (pdf.store input.file) signed_at
        ("sd" <> "-" <> env.uuid w.minted) (env.clock w.ticks)

  archive-lem :
      (pdf : PdfStorage) (call : ℕ) (customer_id : String) (input : UploadInput) (actor : Actor)
      (record_audit : Bool) (customer : Customer) (signed_at : ℕ) (w : World)
      → (let d = saved pdf customer_id input actor signed_at w in
          let after =
            archive env pdf call customer_id input actor record_audit (customer, signed_at) w in
          (after.0 ≡ ok (to_dto pdf call d))
          × (after.1.signed_documents ≡ SignedDocuments.append w.signed_documents d)
          × IsUntouched w after.1)
  unfolding archive now new_id append_audit record_event
  archive-lem pdf call customer_id input actor true customer signed_at w = (
    refl,
    refl,
    record {
      documents = refl;
      versions = refl;
      customers = refl;
      audiences = refl;
      document_types = refl;
      states = refl;
      acceptances = refl;
    },
  )
  archive-lem pdf call customer_id input actor false customer signed_at w = (
    refl,
    refl,
    record {
      documents = refl;
      versions = refl;
      customers = refl;
      audiences = refl;
      document_types = refl;
      states = refl;
      acceptances = refl;
    },
  )

  -- An upload that returns was of a file, for a stored customer and a stored external document type.
  -- Afterwards the id that was returned leads to the archived document, which has the fields of the
  -- request and the hash and the key of the storage; the answer shows this document, and every later
  -- download URL of the id is one for that key. The documents, versions, customers, audiences, document
  -- types, rows and acceptances are as they were.
  pub upload-archives :
      (pdf : PdfStorage) (call later : ℕ) (customer_id : String) (input : UploadInput)
      (actor : Actor) (record_audit : Bool) (w w' : World) (r : SignedDocumentDto)
      → upload env pdf call customer_id input actor record_audit w ≡ (ok r, w')
      → IsUploadable w customer_id input
        × (d : SignedDocument) × IsArchived pdf customer_id input actor d
        × (SignedDocuments.find_by_id w'.signed_documents r.id ≡ some d)
        × (r ≡ to_dto pdf call d)
        × (get_pdf_url pdf later w' r.id
            ≡ ok (pdf.get_presigned_url (pdf.store input.file).storage_key later))
        × IsUntouched w w'
  unfolding upload
  upload-archives pdf call later customer_id input actor record_audit w w' r h =
      let ((customer, at), p, h1) =
        bind-ok (query (λ v. upload_checks v customer_id input)) _ w w' r h in
      let o = archive-lem pdf call customer_id input actor record_audit customer at w in
      let d = saved pdf customer_id input actor at w in
      let after : (archive env pdf call customer_id input actor record_audit (customer, at) w).1
          ≡ w' =
        ap (λ x. x.1) h1 in
      let stored = ap (λ v. v.signed_documents) (sym after) ∙ o.1 in
      let dto : to_dto pdf call d ≡ r = cc (o.0, ap (λ x. x.0) h1) in
      (
        upload_checks-ok w customer_id input (customer, at) p,
        d,
        record {
          of_customer = refl;
          of_type = refl;
          audience = refl;
          signed_at = upload_checks-date w customer_id input (customer, at) p;
          signer_name = refl;
          reference = refl;
          note = refl;
          uploaded_by = refl;
          storage_key = refl;
          content_hash = refl;
          file_name = refl;
          file_size = refl;
        },
        rw (← dto) (unfold to_signed_document_dto in find-append w w' d stored),
        sym dto,
        rw (← dto) (unfold to_signed_document_dto in get_pdf_url-append pdf later w w' d stored),
        rw (← after) o.2,
      )
