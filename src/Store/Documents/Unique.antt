-- ===== src/Store/Documents/Unique.antt =====
-- One document for each type and audience.
use clickwrap.Prelude.{
  ◌≡◌, String, Bool, false, ◌&&◌, not, none, [], ◌∷◌, arith, ◌==◌, String_eq, find, Option-cases,
  inl, inr,
}
use text.Mathlib.TextEquality.{eq_iff}
use clickwrap.Prelude.Dict.{values, set}
use clickwrap.Prelude.Dict.Distinct.{IsApart, IsWritable, IsById, IsTable, set-IsTable}
use clickwrap.Domain.Errors.{ok}
use clickwrap.Domain.Types.{AgreementDocument}
use clickwrap.Store.Documents.{Documents, save}

-- The same type and audience.
abbrev pub is_same_place : AgreementDocument → AgreementDocument → Bool
is_same_place a b = a.type == b.type && a.audience == b.audience

-- Ids are unique, and no two documents are for the same type and audience.
abbrev pub IsUnique : Documents → Type 0
IsUnique documents = IsTable (λ (a : AgreementDocument). a.id) is_same_place documents

is_duplicate : AgreementDocument → AgreementDocument → Bool
is_duplicate document d =
    not (d.id == document.id) && d.type == document.type && d.audience == document.audience

IsApart-here :
    (j : String) (a document : AgreementDocument)
    → j ≡ a.id
    → is_duplicate document a ≡ false
    → (j == document.id) ≡ false
    → IsApart is_same_place document a
unfolding is_duplicate
IsApart-here j a document i h f = ground (
  arith,
  eq_iff a.type document.type,
  eq_iff document.type a.type,
  eq_iff a.audience document.audience,
  eq_iff document.audience a.audience,
)

no_duplicate-IsWritable :
    (d : Documents) (document : AgreementDocument)
    → IsById (λ (a : AgreementDocument). a.id) d
    → find (is_duplicate document) (values d) ≡ none
    → IsWritable is_same_place d document.id document
unfolding find is_duplicate
no_duplicate-IsWritable [] document i h = tt
no_duplicate-IsWritable ((j, a) ∷ d) document i h = (
  IsApart-here j a document i.0 (ground arith),
  no_duplicate-IsWritable d document i.1 (ground arith),
)

-- A save that returns keeps one document for each type and audience.
pub save-IsUnique :
    (d d' : Documents) (document : AgreementDocument)
    → IsUnique d
    → save d document ≡ ok d'
    → IsUnique d'
unfolding save is_duplicate
save-IsUnique d d' document u h = elim (Option-cases (find (is_duplicate document) (values d))) [
  | inl e ↦
      let p : d' ≡ set d document.id document = ground arith in
      rw p (
        set-IsTable (λ a. a.id) is_same_place d document u
          (no_duplicate-IsWritable d document u.by_id e))
  | inr (a, e) ↦ ground arith
]
