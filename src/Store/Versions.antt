-- ===== src/Store/Versions.antt =====
-- persistence/inmemory/agreement-version.repo.ts
pub mod Current
use clickwrap.Prelude.{
  ℕ, Bool, false, ◌&&◌, ◌||◌, String, Option, none, some, List, [], ltb, leb, nat_eq, or_else, ◌==◌,
  String_eq, if◌then◌else◌, keep, first,
}
use clickwrap.Prelude.Sort.{sort}
use clickwrap.Prelude.Dict.{Dict, values, get, set, delete}
use clickwrap.Domain.Errors.{Result, ok, err, invalid_state, version_not_found, version_immutable}
use clickwrap.Domain.Types.{VersionStatus_eq, draft, published, AgreementVersion}
use clickwrap.Store.Documents
use clickwrap.Store.Documents.{Documents}

abbrev pub Versions : Type 0
Versions = Dict String AgreementVersion

unfoldable pub save : Documents → Versions → AgreementVersion → Result Versions
save documents versions version = elim (Documents.find_by_id documents version.document_id) [
  | none ↦ err invalid_state
  | some document ↦ ok (set versions version.id version)
]

unfoldable pub find_by_id : Versions → String → Option AgreementVersion
find_by_id versions id = get versions id

unfoldable pub find_by_document : Versions → String → List AgreementVersion
find_by_document versions document_id = keep (λ v. v.document_id == document_id) (values versions)

-- `v.publishedAt?.getTime() ?? 0`
abbrev pub published_time : AgreementVersion → ℕ
published_time v = or_else v.published_at 0

-- `comparator(a, b) <= 0` of the two sorts: newest first, and next flip first.
unfoldable pub newest_first : AgreementVersion → AgreementVersion → Bool
newest_first a b =
    ltb b.valid_from a.valid_from
    || nat_eq a.valid_from b.valid_from && leb (published_time b) (published_time a)

unfoldable pub soonest_first : AgreementVersion → AgreementVersion → Bool
soonest_first a b =
    ltb a.valid_from b.valid_from
    || nat_eq a.valid_from b.valid_from && leb (published_time b) (published_time a)

is_in_force : String → ℕ → AgreementVersion → Bool
is_in_force document_id now v =
    v.document_id == document_id && v.status == published && leb v.valid_from now

is_upcoming : String → ℕ → AgreementVersion → Bool
is_upcoming document_id now v =
    v.document_id == document_id && v.status == published && ltb now v.valid_from

unfoldable pub find_current_published :
    Documents → Versions → String → String → ℕ → Option AgreementVersion
unfolding is_in_force
find_current_published documents versions type_key audience_key now =
    elim (Documents.find_by_type_and_audience documents type_key audience_key) [
      | none ↦ none
      | some document ↦
          first (sort newest_first (keep (is_in_force document.id now) (values versions)))
    ]

unfoldable pub find_upcoming_published_list :
    Documents → Versions → String → String → ℕ → List AgreementVersion
unfolding is_upcoming
find_upcoming_published_list documents versions type_key audience_key now =
    elim (Documents.find_by_type_and_audience documents type_key audience_key) [
      | none ↦ []
      | some document ↦ sort soonest_first (keep (is_upcoming document.id now) (values versions))
    ]

unfoldable pub remove : Versions → String → Result Versions
remove versions id = elim (get versions id) [
  | none ↦ err version_not_found
  | some version ↦
      if version.status == draft then ok (delete versions id) else err version_immutable
]
