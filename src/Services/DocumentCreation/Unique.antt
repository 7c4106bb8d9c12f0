-- ===== src/Services/DocumentCreation/Unique.antt =====
-- What a created document was admitted by, and the documents after it (agreements/document.service.ts).
use clickwrap.Prelude.{
  ◌+◌, ◌≡◌, refl, inl, inr, String, true, false, not, ◌&&◌, none, some, ◌<>◌, arith, ◌==◌,
  String_eq, is_true, is_some, Option-cases, find,
}
use mathlib.Core.Path.{subst}
use clickwrap.Prelude.Dict.{get, get-set_self, values}
use clickwrap.Domain.Errors.{ok, Result-cases}
use clickwrap.Domain.Types.{AgreementDocument, DocumentTypeDef}
use clickwrap.Store.Documents
use clickwrap.Store.Documents.Unique.{IsUnique, save-IsUnique}
use clickwrap.Store.Entities
use clickwrap.Runtime.{World, Env}
use clickwrap.Runtime.Exec.{query, now, new_id, bind-ok}
use clickwrap.Runtime.Recorder.{record_event}
use clickwrap.Services.Acceptance.Checks.{required}
use clickwrap.Services.DocumentCreation.{CreateDocumentInput, document_checks, document_of, create}

-- A type for versions, an audience, and no document for the two yet.
pub record IsCreatable (w : World) (input : CreateDocumentInput) : Type 0 where
  pub document_type : DocumentTypeDef
  pub known_type : Entities.find_document_type w.document_types input.type ≡ some document_type
  pub internal : is_true document_type.external ≡ false
  pub known_audience : is_some (Entities.find_audience w.audiences input.audience) ≡ true
  pub free : Documents.find_by_type_and_audience w.documents input.type input.audience ≡ none

document_checks-ok :
    (w : World) (input : CreateDocumentInput)
    → document_checks w input ≡ ok tt
    → IsCreatable w input
unfolding document_checks required
document_checks-ok w input h =
    elim (Option-cases (Entities.find_document_type w.document_types input.type)) [
      | inl e ↦ ground arith
      | inr (t, e) ↦
          elim (Option-cases
            (Documents.find_by_type_and_audience w.documents input.type input.audience)) [
              | inl f ↦ record {
                document_type = t;
                known_type = e;
                internal = ground arith;
                known_audience = ground arith;
                free = f;
              }
              | inr (d, f) ↦ ground arith
            ]
    ]

save_stores :
    (d d' : Documents.Documents) (document : AgreementDocument)
    → Documents.save d document ≡ ok d'
    → get d' document.id ≡ some document
unfolding Documents.save
save_stores d d' document h =
    elim (Option-cases (
      find
        (λ x.
          not (x.id == document.id) && x.type == document.type && x.audience == document.audience)
        (values d))) [
          | inl e ↦ ground (arith, get-set_self d document.id document)
          | inr (a, e) ↦ ground arith
        ]

-- The document is the one that was asked for.
pub record IsCreated (input : CreateDocumentInput) (d : AgreementDocument) : Type 0 where
  pub type : d.type ≡ input.type
  pub audience : d.audience ≡ input.audience
  pub name : d.name ≡ input.name

module _ (env : Env) where
  -- A creation that returns was for a known type that has versions and a known audience without such a
  -- document; it stored under its id a document of this type, audience and name, there still is one
  -- document for each type and audience, and of the World it changed nothing else but the event log, the
  -- readings of the clock and the count of ids.
  pub create-ok :
      (input : CreateDocumentInput) (admin_user_id : String) (w w' : World) (d : AgreementDocument)
      → IsUnique w.documents
      → create env input admin_user_id w ≡ (ok d, w')
      → IsCreatable w input
        × IsCreated input d
        × (get w'.documents d.id ≡ some d)
        × IsUnique w'.documents
        × (w' ≡ record w {
          documents = w'.documents;
          events = w'.events;
          ticks = w'.ticks;
          minted = w'.minted;
        })
  unfolding create now new_id record_event
  create-ok input admin_user_id w w' d u h =
      let (o, p, h1) = bind-ok (query (λ v. document_checks v input)) _ w w' d h in
      let w1 : World = record w { minted = w.minted + 1 } in
      let made = document_of input ("doc" <> "-" <> env.uuid w.minted) in
      elim (Result-cases (Documents.save w.documents made)) [
        | inl (e, q) ↦ ground arith
        | inr (documents, q) ↦
            let same : made ≡ d = ground arith in
            let stored : documents ≡ w'.documents = ground arith in
            (
              document_checks-ok w input p,
              subst (IsCreated input) same (record { type = refl; audience = refl; name = refl }),
              subst (λ t. get t d.id ≡ some d) stored
                  (subst (λ x. get documents x.id ≡ some x) same
                    (save_stores w.documents documents made q)),
              subst IsUnique stored (save-IsUnique w.documents documents made u q),
              ground arith,
            )
      ]
