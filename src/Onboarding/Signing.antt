-- ===== src/Onboarding/Signing.antt =====
-- customers/customer-admin.service.ts: documents that were accepted by type at a signing date,
-- `resolveSignedDocuments` and `resolveEffectiveVersionAt`. No date is an invalid one.
use clickwrap.Prelude.{
  ℕ, Bool, true, false, ◌&&◌, ◌||◌, String, String_eq, ◌==◌, ◌++◌, Option, none, some, List, [],
  ◌∷◌, includes, leb, keep, first, trim, if◌then◌else◌,
}
use clickwrap.Prelude.Sort.{sort}
use clickwrap.Domain.Errors.{Result, ok, ◌>>=◌, ◌>>◌, invalid_state, unknown_document_type}
use clickwrap.Domain.Types.{
  VersionStatus_eq, published, retired, AgreementVersion, AgreementDocument,
}
use clickwrap.Domain.Consent.{require}
use clickwrap.Store.Documents
use clickwrap.Store.Versions
use clickwrap.Store.Versions.{newest_first}
use clickwrap.Runtime.{World}
use clickwrap.Services.Acceptance.Checks.{required}
use clickwrap.Onboarding.Imports.{ValidatedImport}

-- `signedDocuments` of CreateCustomerInput
pub record SignedTypes : Type 0 where
  pub effective_date : Option ℕ
  pub document_types : List String
  pub reference : Option String

-- `undefined`, `null` or a version
pub data Effective : Type 0 where
  no_document nothing_effective : Effective
  effective : AgreementVersion → Effective

abbrev pub is_published_by : ℕ → Option ℕ → Bool
is_published_by date none = false
is_published_by date (some at) = leb at date

abbrev pub is_eligible : ℕ → AgreementVersion → Bool
is_eligible date v =
    (v.status == published || v.status == retired)
    && is_published_by date v.published_at
    && leb v.valid_from date

abbrev effective_or : Option AgreementVersion → Effective
effective_or none = nothing_effective
effective_or (some version) = effective version

effective_of : World → ℕ → Option AgreementDocument → Effective
effective_of w date none = no_document
effective_of w date (some document) = effective_or (
    first (
      sort newest_first
        (keep (is_eligible date) (Versions.find_by_document w.versions document.id))))

unfoldable pub resolve_effective_version_at : World → (type audience : String) → ℕ → Effective
unfolding effective_of
resolve_effective_version_at w type audience date =
    effective_of w date (Documents.find_by_type_and_audience w.documents type audience)

-- What the two loops write.
pub record Signing : Type 0 where
  pub matched_any_document : Bool
  pub accepted_for_type : Bool
  pub seen : List String
  pub resolved : List ValidatedImport

sign_version : ℕ → Option String → Signing → AgreementVersion → Signing
sign_version date reference s version =
    let found : Signing = record s { matched_any_document = true; accepted_for_type = true } in
    if includes s.seen version.id then found else record found {
      seen = version.id ∷ s.seen;
      resolved =
          s.resolved
          ++ record { version = version; accepted_at = date; reference = reference } ∷ [];
    }

sign_role : ℕ → Option String → Signing → Effective → Signing
unfolding sign_version
sign_role date reference s no_document = s
sign_role date reference s nothing_effective = record s { matched_any_document = true }
sign_role date reference s (effective version) = sign_version date reference s version

unfoldable pub sign_roles :
    World → ℕ → Option String → (type : String) → Signing → List String → Signing
unfolding sign_role
sign_roles w date reference type s [] = s
sign_roles w date reference type s (audience ∷ roles) =
    sign_roles w date reference type
      (sign_role date reference s (resolve_effective_version_at w type audience date)) roles

-- A type that has no document, or nothing effective, for any of the roles is an error.
unfoldable pub sign_types :
    World → ℕ → Option String → List String → Signing → (types : List String) → Result Signing
sign_types w date reference roles s [] = ok s
sign_types w date reference roles s (raw_type ∷ types) =
    let start : Signing = record s { matched_any_document = false; accepted_for_type = false } in
    let done = sign_roles w date reference (trim raw_type) start roles in
    require done.matched_any_document unknown_document_type
    >> (require done.accepted_for_type invalid_state
        >> sign_types w date reference roles done types)

unfoldable pub resolve_signed_documents :
    World → Option SignedTypes → List String → Result (List ValidatedImport)
resolve_signed_documents w none roles = ok []
resolve_signed_documents w (some signed) roles =
    required signed.effective_date invalid_state >>= λ date.
    sign_types w date signed.reference roles
      (record { matched_any_document = false; accepted_for_type = false; seen = []; resolved = [] })
      signed.document_types
    >>= λ done. ok done.resolved
