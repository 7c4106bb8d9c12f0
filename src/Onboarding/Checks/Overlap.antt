-- ===== src/Onboarding/Checks/Overlap.antt =====
-- External references and audiences, in customers/customer-admin.service.ts.
use clickwrap.Prelude.{
  ◌≡◌, refl, sym, ap, ◌∙◌, ◌⊎◌, inl, inr, Bool, true, String, String_eq, ◌==◌, Option, none, some,
  List, [], ◌∷◌, arith, any, includes, includes-In, find, find-none, keep, In, In-keep, All-of,
  All-at, Bool-cases, Option-cases,
}
use clickwrap.Prelude.Dict.{values, set-All}
use clickwrap.Domain.Errors.{ok}
use clickwrap.Domain.Types.{Customer}
use clickwrap.Store.Customers
use clickwrap.Onboarding.Checks.{overlaps, is_conflict, assert_external_ref_unique}

-- Two rows with the same external reference and a common role are one customer's.
pub record IsUnambiguous (customers : Customers.Customers) : Type 0 where
  pub same :
      (a b : Customer)
      → In a (values customers)
      → In b (values customers)
      → a.external_ref ≡ b.external_ref
      → overlaps a.roles b.roles ≡ true
      → a.id ≡ b.id

any-In :
    (p : String → Bool) (xs : List String) → any p xs ≡ true → (x : String) × In x xs × (p x ≡ true)
any-In p [] h = cc
any-In p (x ∷ xs) h = elim (Bool-cases (p x)) [
  | inl t ↦ (x, inl refl, t)
  | inr f ↦ let (y, m, q) = any-In p xs (ground arith) in (y, inr m, q)
]

In-any :
    (p : String → Bool) (xs : List String) (x : String) → In x xs → p x ≡ true → any p xs ≡ true
In-any p [] x m h = elim m [ ]
In-any p (y ∷ xs) x (inl e) h = ground arith
In-any p (y ∷ xs) x (inr m) h = ground (arith, In-any p xs x m h)

In-includes : (xs : List String) (x : String) → In x xs → includes xs x ≡ true
unfolding includes
In-includes [] x m = elim m [ ]
In-includes (y ∷ xs) x (inl e) = ground (arith, String_eq.beq_iff y x)
In-includes (y ∷ xs) x (inr m) = ground (arith, In-includes xs x m)

overlaps_comm : (a b : List String) → overlaps a b ≡ true → overlaps b a ≡ true
overlaps_comm a b h =
    let (x, m, q) = any-In (λ role. includes b role) a h in
    In-any (λ role. includes a role) b x (includes-In b x q) (In-includes a x m)

-- A row that the check has let pass beside `c`.
admitted_beside :
    (customers : Customers.Customers) (c a : Customer) (exclude_id : Option String)
    → (exclude_id ≡ none) ⊎ (exclude_id ≡ some c.id)
    → assert_external_ref_unique customers c.external_ref c.roles exclude_id ≡ ok tt
    → In a (values customers)
    → a.external_ref ≡ c.external_ref
    → overlaps a.roles c.roles ≡ true
    → a.id ≡ c.id
unfolding assert_external_ref_unique Customers.find_all_by_external_ref
admitted_beside customers c a exclude_id who h m e o =
    let rows = keep (λ (x : Customer). x.external_ref == c.external_ref) (values customers) in
    let at : In a rows =
      In-keep _ (values customers) m ((String_eq.beq_iff a.external_ref c.external_ref).1 e) in
    elim (Option-cases (find (is_conflict c.roles exclude_id) rows)) [
      | inr (x, f) ↦ ground arith
      | inl f ↦
          let no = find-none (is_conflict c.roles exclude_id) rows f at in
          elim who [ inl w ↦ ground arith | inr w ↦ (String_eq.beq_iff a.id c.id).0 (ground arith) ]
    ]

-- A row after the write is the written one or an old one.
same_after :
    (customers : Customers.Customers) (c : Customer) (exclude_id : Option String)
    → IsUnambiguous customers
    → (exclude_id ≡ none) ⊎ (exclude_id ≡ some c.id)
    → assert_external_ref_unique customers c.external_ref c.roles exclude_id ≡ ok tt
    → (a b : Customer) → In a (values (Customers.save customers c))
    → In b (values (Customers.save customers c))
    → a.external_ref ≡ b.external_ref
    → overlaps a.roles b.roles ≡ true
    → a.id ≡ b.id
unfolding Customers.save
same_after customers c exclude_id u who h a b m n e o =
    let P : Customer → Type 0 = λ x. (x ≡ c) ⊎ In x (values customers) in
    let all = set-All P customers c.id c (inl refl) (All-of P (values customers) (λ x k. inr k)) in
    let beside = λ (x : Customer). admitted_beside customers c x exclude_id who h in
    elim (All-at P _ all m) [
      | inl p ↦ elim (All-at P _ all n) [
        | inl q ↦ ap (λ (x : Customer). x.id) (p ∙ sym q)
        | inr l ↦
            let e' : b.external_ref ≡ c.external_ref =
              sym e ∙ ap (λ (x : Customer). x.external_ref) p in
            let o' : overlaps b.roles c.roles ≡ true = rw (← p) (overlaps_comm a.roles b.roles o) in
            ap (λ (x : Customer). x.id) p ∙ sym (beside b l e' o')
      ]
      | inr k ↦ elim (All-at P _ all n) [
        | inl q ↦
            let e' : a.external_ref ≡ c.external_ref =
              e ∙ ap (λ (x : Customer). x.external_ref) q in
            let o' : overlaps a.roles c.roles ≡ true = rw (← q) o in
            beside a k e' o' ∙ sym (ap (λ (x : Customer). x.id) q)
        | inr l ↦ u.same a b k l e o
      ]
    ]

-- Storing a customer whose reference and roles have passed the check, made against all others or, for a
-- change of the customer itself, against all but itself, leaves every external reference unique within
-- each audience.
pub assert_external_ref_unique-save :
    (customers : Customers.Customers) (c : Customer) (exclude_id : Option String)
    → IsUnambiguous customers
    → (exclude_id ≡ none) ⊎ (exclude_id ≡ some c.id)
    → assert_external_ref_unique customers c.external_ref c.roles exclude_id ≡ ok tt
    → IsUnambiguous (Customers.save customers c)
assert_external_ref_unique-save customers c exclude_id u who h = record {
  same = same_after customers c exclude_id u who h;
}
