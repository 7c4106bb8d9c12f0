-- ===== src/Store/SignedDocuments.antt =====
-- persistence/inmemory/signed-document.repo.ts. The collation of the ids, by which equal times are
-- ordered, is the argument `is_before`: `a.localeCompare(b) <= 0`.
use clickwrap.Prelude.{String, Bool, ◌&&◌, ◌||◌, Option, List, ltb, nat_eq, ◌==◌, String_eq, keep}
use clickwrap.Prelude.Sort.{sort}
use clickwrap.Prelude.Dict.{Dict, values, get, set}
use clickwrap.Domain.Types.{SignedDocument}

abbrev pub SignedDocuments : Type 0
SignedDocuments = Dict String SignedDocument

unfoldable pub append : SignedDocuments → SignedDocument → SignedDocuments
append documents document = set documents document.id document

unfoldable pub find_by_id : SignedDocuments → String → Option SignedDocument
find_by_id documents id = get documents id

last_uploaded_first : (String → String → Bool) → SignedDocument → SignedDocument → Bool
last_uploaded_first is_before a b =
    ltb b.uploaded_at a.uploaded_at || nat_eq b.uploaded_at a.uploaded_at && is_before b.id a.id

unfoldable pub find_by_customer :
    (String → String → Bool) → SignedDocuments → String → List SignedDocument
unfolding last_uploaded_first
find_by_customer is_before documents customer_id =
    sort (last_uploaded_first is_before)
      (keep (λ d. d.customer_id == customer_id) (values documents))
