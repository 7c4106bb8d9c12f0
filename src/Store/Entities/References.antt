-- ===== src/Store/Entities/References.antt =====
-- Keys stay valid, unique and resolvable.
use clickwrap.Prelude.{
  ◌≡◌, String, Bool, true, false, ◌&&◌, not, none, [], ◌∷◌, arith, ◌==◌, String_eq, find, any,
  any-false, includes, In, Option-cases, inl, inr,
}
use text.Mathlib.TextEquality.{eq_iff}
use clickwrap.Prelude.Dict.{values, set, delete}
use clickwrap.Prelude.Dict.Distinct.{
  IsApart, IsWritable, IsById, IsTable, set-IsTable, delete-IsTable,
}
use clickwrap.Domain.Errors.{ok}
use clickwrap.Domain.Types.{Audience, AgreementDocument, Customer}
use clickwrap.Domain.Keys.{is_valid_entity_key, assert_valid_entity_key}
use clickwrap.Store.Documents
use clickwrap.Store.Documents.{Documents}
use clickwrap.Store.Customers
use clickwrap.Store.Customers.{Customers}
use clickwrap.Store.Entities.{Audiences, find_audience, save_audience, delete_audience_if_unused}

abbrev pub has_same_key : Audience → Audience → Bool
has_same_key a b = a.key == b.key

-- Ids and keys are unique.
abbrev pub IsUnique : Audiences → Type 0
IsUnique audiences = IsTable (λ (a : Audience). a.id) has_same_key audiences

is_duplicate : Audience → Audience → Bool
is_duplicate audience a = not (a.id == audience.id) && a.key == audience.key

IsApart-here :
    (j : String) (a audience : Audience)
    → j ≡ a.id
    → is_duplicate audience a ≡ false
    → (j == audience.id) ≡ false
    → IsApart has_same_key audience a
unfolding is_duplicate
IsApart-here j a audience i h f =
    ground (arith, eq_iff a.key audience.key, eq_iff audience.key a.key)

no_duplicate-IsWritable :
    (d : Audiences) (audience : Audience)
    → IsById (λ (a : Audience). a.id) d
    → find (is_duplicate audience) (values d) ≡ none
    → IsWritable has_same_key d audience.id audience
unfolding find
no_duplicate-IsWritable [] audience i h = tt
no_duplicate-IsWritable ((j, a) ∷ d) audience i h = (
  IsApart-here j a audience i.0 (ground arith),
  no_duplicate-IsWritable d audience i.1 (ground arith),
)

-- A save of an audience that returns keeps ids and keys unique, and its key is a slug.
pub save_audience-IsUnique :
    (d d' : Audiences) (audience : Audience)
    → IsUnique d
    → save_audience d audience ≡ ok d'
    → IsUnique d' × (is_valid_entity_key audience.key ≡ true)
unfolding save_audience is_duplicate assert_valid_entity_key
save_audience-IsUnique d d' audience u h =
    elim (Option-cases (find (is_duplicate audience) (values d))) [
      | inl e ↦
          let p : d' ≡ set d audience.id audience = ground arith in
          (
            rw p (
                set-IsTable (λ a. a.id) has_same_key d audience u
                  (no_duplicate-IsWritable d audience u.by_id e)),
            ground arith,
          )
      | inr (a, e) ↦ ground arith
    ]

-- An audience is deleted only if nothing refers to it: no document is for it and no customer has it
-- as a role. Ids and keys stay unique.
pub delete_audience_if_unused_sound :
    (d d' : Audiences) (documents : Documents) (customers : Customers) (key : String)
    (document : AgreementDocument) (customer : Customer)
    → IsUnique d
    → delete_audience_if_unused d documents customers key ≡ (d', true)
    → In document (Documents.find_all documents)
    → In customer (Customers.find_all customers)
    → IsUnique d' × ((document.audience == key) ≡ false) × (includes customer.roles key ≡ false)
unfolding delete_audience_if_unused
delete_audience_if_unused_sound d d' documents customers key document customer u h m n =
    elim (Option-cases (find_audience d key)) [
      | inl e ↦ ground arith
      | inr (a, e) ↦
          let p : any (λ x. x.audience == key) (Documents.find_all documents) ≡ false =
            ground arith in
          let q : any (λ c. includes c.roles key) (Customers.find_all customers) ≡ false =
            ground arith in
          let r : d' ≡ delete d a.id = ground arith in
          (
            rw r (delete-IsTable (λ x. x.id) has_same_key d a.id u),
            any-false (λ x. x.audience == key) _ p m,
            any-false (λ c. includes c.roles key) _ q n,
          )
    ]
