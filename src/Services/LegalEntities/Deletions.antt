-- ===== src/Services/LegalEntities/Deletions.antt =====
-- Which audiences one deletion of the clean-up keeps.
use clickwrap.Prelude.{
  ◌≡◌, refl, sym, ap, ◌∙◌, ◌⊎◌, inl, inr, String, true, false, some, [], ◌∷◌, ◌==◌, String_eq,
  arith, any, find, find-In, In, includes, Bool-cases, Option-cases,
}
use mathlib.Core.Path.{subst}
use clickwrap.Prelude.Dict.{Dict, values, get, delete}
use clickwrap.Prelude.Dict.Distinct.{delete-IsTable, In-get}
use clickwrap.Domain.Types.{Audience, AgreementDocument, Customer}
use clickwrap.Store.Documents
use clickwrap.Store.Customers
use clickwrap.Store.Entities.{find_audience, delete_audience_if_unused}
use clickwrap.Store.Entities.References.{IsUnique, has_same_key}
use clickwrap.Runtime.{World}
use clickwrap.Services.LegalEntities.{ReconcileCounts, drop_audience}

module _ {V : Type 0} where
  -- A row is there after a deletion, or it was the one under the key.
  In-delete :
      (d : Dict String V) (k : String) {a : V}
      → In a (values d)
      → In a (values (delete d k)) ⊎ (get d k ≡ some a)
  unfolding delete get
  In-delete [] k m = elim m [ ]
  In-delete ((j, v) ∷ d) k (inl e) = elim (Bool-cases (j == k)) [
    | inl t ↦ inr (ground arith)
    | inr f ↦ inl (rw f (inl e))
  ]
  In-delete ((j, v) ∷ d) k (inr m) = elim (Bool-cases (j == k)) [
    | inl t ↦ inl (rw t m)
    | inr f ↦ elim (In-delete d k m) [ inl n ↦ inl (rw f (inr n)) | inr g ↦ inr (rw f g) ]
  ]

-- Something refers to the audience: a document, or a role of a customer.
abbrev pub IsReferenced : World → Audience → Type 0
IsReferenced w a =
    (any (λ (d : AgreementDocument). d.audience == a.key) (Documents.find_all w.documents) ≡ true)
    ⊎ (any (λ (c : Customer). includes c.roles a.key) (Customers.find_all w.customers) ≡ true)

-- The deletion that was asked for, if it was made.
pub record IsDeletion (w : World) (key : String) : Type 0 where
  pub row : Audience
  pub found : find (λ (x : Audience). x.key == key) (values w.audiences) ≡ some row
  pub no_document :
      any (λ (d : AgreementDocument). d.audience == key) (Documents.find_all w.documents) ≡ false
  pub no_customer :
      any (λ (c : Customer). includes c.roles key) (Customers.find_all w.customers) ≡ false
  pub made :
      delete_audience_if_unused w.audiences w.documents w.customers key
      ≡ (delete w.audiences row.id, true)

pub IsDeletion-cases :
    (w : World) (key : String)
    → (delete_audience_if_unused w.audiences w.documents w.customers key ≡ (w.audiences, false))
      ⊎ IsDeletion w key
unfolding delete_audience_if_unused find_audience
IsDeletion-cases w key =
    elim (Option-cases (find (λ (x : Audience). x.key == key) (values w.audiences))) [
      | inl e ↦ inl (ground arith)
      | inr (x, e) ↦
          elim (Bool-cases
            (any (λ (d : AgreementDocument). d.audience == key) (Documents.find_all w.documents))) [
              | inl used ↦ inl (ground arith)
              | inr unused ↦
                  elim (Bool-cases (
                    any (λ (c : Customer). includes c.roles key)
                      (Customers.find_all w.customers))) [
                        | inl member ↦ inl (ground arith)
                        | inr free ↦ inr (record {
                          row = x;
                          found = e;
                          no_document = unused;
                          no_customer = free;
                          made = ground arith;
                        })
                      ]
            ]
    ]

-- An audience that nothing deletes: something refers to it, or its key is another.
abbrev pub IsSpared : World → String → Audience → Type 0
IsSpared w key a = IsReferenced w a ⊎ ((key == a.key) ≡ false)

pub not_spared : (w : World) (a : Audience) (del : IsDeletion w a.key) → IsReferenced w a → ⊥
not_spared w a del (inl r) = ground (arith, del.no_document)
not_spared w a del (inr r) = ground (arith, del.no_customer)

deleted_other :
    (w : World) (key : String) (a : Audience) (del : IsDeletion w key)
    → IsUnique w.audiences
    → In a (values w.audiences)
    → IsSpared w key a
    → In a (values (delete w.audiences del.row.id))
deleted_other w key a del u m spared = elim (In-delete w.audiences del.row.id m) [
  | inl n ↦ n
  | inr g ↦
      let at = find-In (λ (x : Audience). x.key == key) (values w.audiences) del.found in
      let row_at = In-get (λ (x : Audience). x.id) w.audiences u.keyed u.by_id at.0 in
      let same : del.row ≡ a = ground (arith, g, row_at) in
      let key_of : a.key ≡ key =
        ap (λ (x : Audience). x.key) (sym same) ∙ (String_eq.beq_iff del.row.key key).0 at.1 in
      absurd (elim spared [
        | inl r ↦ not_spared w a (rw (sym key_of) at del) r
        | inr e ↦ ground (arith, String_eq.beq_iff key a.key)
      ])
]

-- One deletion keeps an audience that is spared, and all that the next one relies on.
pub drop_audience-keeps :
    (counts : ReconcileCounts) (existing a : Audience) (w : World)
    → IsUnique w.audiences
    → In a (values w.audiences)
    → IsSpared w existing.key a
    → In a (values (drop_audience counts existing w).1.audiences)
      × IsUnique (drop_audience counts existing w).1.audiences
      × ((drop_audience counts existing w).1.documents ≡ w.documents)
      × ((drop_audience counts existing w).1.customers ≡ w.customers)
unfolding drop_audience
drop_audience-keeps counts existing a w u m spared = elim (IsDeletion-cases w existing.key) [
  | inl e ↦
      (subst (λ p. In a (values p.0)) (sym e) m, subst (λ p. IsUnique p.0) (sym e) u, refl, refl)
  | inr del ↦ (
    subst (λ p. In a (values p.0)) (sym del.made) (deleted_other w existing.key a del u m spared),
    subst (λ p. IsUnique p.0) (sym del.made)
        (delete-IsTable (λ (b : Audience). b.id) has_same_key w.audiences del.row.id u),
    refl,
    refl,
  )
]
