-- ===== src/Services/Integration/Selection.antt =====
-- Whom a selector finds.
use clickwrap.Prelude.{
  ◌≡◌, refl, inl, inr, String, Bool, true, false, none, some, [], ◌∷◌, List, arith, ◌==◌, String_eq,
  ◌&&◌, includes, find, keep, is_some, Bool-cases, Option-cases,
}
use clickwrap.Prelude.Dict.{values}
use clickwrap.Domain.Errors.{ok}
use clickwrap.Domain.Types.{Customer}
use clickwrap.Store.Customers
use clickwrap.Store.Entities
use clickwrap.Runtime.{World}
use clickwrap.Services.Acceptance.Checks.{required}
use clickwrap.Services.Compliance.{resolve_audience_key}
use clickwrap.Services.Integration.{
  CustomerSelector, trimmed, is_given, is_active, if_active, by_external_ref,
  resolve_integration_customer,
}

-- The two ways to address a customer.
pub data Addressed (w : World) (selector : CustomerSelector) (customer : Customer) : Type 0 where
  by_id :
      is_given selector.customer_id ≡ true
      → is_given selector.external_ref ≡ false
      → Customers.find_by_id w.customers (trimmed selector.customer_id) ≡ some customer
      → Addressed w selector customer
  by_ref :
      is_given selector.customer_id ≡ false
      → is_given selector.external_ref ≡ true
      → is_some (Entities.find_audience w.audiences (trimmed selector.audience)) ≡ true
      → customer.external_ref ≡ trimmed selector.external_ref
      → includes customer.roles (trimmed selector.audience) ≡ true
      → Addressed w selector customer

find-keep :
    (p q : Customer → Bool) (xs : List Customer) (c : Customer)
    → find p (keep q xs) ≡ some c
    → (p c ≡ true) × (q c ≡ true)
unfolding find keep
find-keep p q [] c h = cc
find-keep p q (x ∷ xs) c h = elim (Bool-cases (q x)) [
  | inl t ↦ elim (Bool-cases (p x)) [
    | inl u ↦ let same : x ≡ c = ground arith in rw (← same) (u, t)
    | inr u ↦ find-keep p q xs c (ground arith)
  ]
  | inr f ↦ find-keep p q xs c (ground arith)
]

by_external_ref-ok :
    (w : World) (external_ref audience : String) (customer : Customer)
    → by_external_ref w external_ref audience ≡ ok customer
    → (is_some (Entities.find_audience w.audiences audience) ≡ true)
      × (customer.external_ref ≡ external_ref)
      × (includes customer.roles audience ≡ true)
      × (is_active customer ≡ true)
unfolding by_external_ref required resolve_audience_key Customers.find_all_by_external_ref
by_external_ref-ok w external_ref audience customer h = elim (Bool-cases (audience == "")) [
  | inl t ↦ ground arith
  | inr f ↦ elim (Option-cases (Entities.find_audience w.audiences audience)) [
    | inl n ↦ ground arith
    | inr (a, q) ↦
        let p = λ (c : Customer). is_active c && includes c.roles audience in
        let r = λ (c : Customer). c.external_ref == external_ref in
        elim (Option-cases (find p (keep r (values w.customers)))) [
          | inl n ↦ ground arith
          | inr (c, e) ↦
              let same : c ≡ customer = ground arith in
              let o = find-keep p r (values w.customers) c e in
              rw (← same) (
                rw q refl,
                (String_eq.beq_iff c.external_ref external_ref).0 o.1,
                ground (arith, o.0),
                ground (arith, o.0),
              )
        ]
  ]
]

-- The customer that a selector resolves to is active and addressed in exactly one of the two ways: by
-- its id alone, or by its external reference together with a known audience that is one of its roles.
pub resolve_integration_customer-Addressed :
    (w : World) (selector : CustomerSelector) (customer : Customer)
    → resolve_integration_customer w selector ≡ ok customer
    → (customer.deleted_at ≡ none) × Addressed w selector customer
unfolding resolve_integration_customer if_active
resolve_integration_customer-Addressed w selector customer h =
    elim (Bool-cases (is_given selector.customer_id)) [
      | inl t ↦ elim (Bool-cases (is_given selector.external_ref)) [
        | inl u ↦ ground arith
        | inr u ↦
            elim (Option-cases (Customers.find_by_id w.customers (trimmed selector.customer_id))) [
              | inl n ↦ ground arith
              | inr (c, e) ↦ elim (Bool-cases (is_active c)) [
                | inl a ↦
                    let same : c ≡ customer = ground arith in
                    rw (← same) (ground arith, by_id t u e)
                | inr a ↦ ground arith
              ]
            ]
      ]
      | inr t ↦ elim (Bool-cases (is_given selector.external_ref)) [
        | inl u ↦
            let o =
              by_external_ref-ok w (trimmed selector.external_ref) (trimmed selector.audience)
                customer (ground arith) in
            (ground (arith, o.3), by_ref t u o.0 o.1 o.2)
        | inr u ↦ ground arith
      ]
    ]
