-- ===== src/Store/Documents.antt =====
-- persistence/inmemory/agreement-document.repo.ts
pub mod Unique
use clickwrap.Prelude.{
  ◌≡◌, String, Bool, true, false, ◌&&◌, not, Option, none, some, List, arith, ◌==◌, String_eq, find,
  find-none, All, All-of, In, inl, inr,
}
use clickwrap.Prelude.Dict.{Dict, values, get, set, IsKeyed, set-IsKeyed}
use clickwrap.Prelude.Dict.Distinct.{IsApart, IsDistinct, IsWritable, set-IsDistinct}
use clickwrap.Domain.Errors.{Result, ok, err, invalid_state}
use clickwrap.Domain.Types.{AgreementDocument}

abbrev pub Documents : Type 0
Documents = Dict String AgreementDocument

unfoldable pub save : Documents → AgreementDocument → Result Documents
save documents document =
    elim (find
      (λ d. not (d.id == document.id) && d.type == document.type && d.audience == document.audience)
      (values documents)) [
        | some duplicate ↦ err invalid_state
        | none ↦ ok (set documents document.id document)
      ]

unfoldable pub find_by_id : Documents → String → Option AgreementDocument
find_by_id documents id = get documents id

unfoldable pub find_by_type_and_audience : Documents → String → String → Option AgreementDocument
find_by_type_and_audience documents type_key audience_key =
    find (λ d. d.type == type_key && d.audience == audience_key) (values documents)

unfoldable pub find_all : Documents → List AgreementDocument
find_all documents = values documents
