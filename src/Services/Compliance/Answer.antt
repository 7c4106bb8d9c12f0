-- ===== src/Services/Compliance/Answer.antt =====
-- What the answer of the gate rests on.
use clickwrap.Prelude.{
  ℕ, ◌+◌, ◌≡◌, ◌≢◌, ◌↔◌, ◌⊎◌, refl, sym, ap, ◌∙◌, inl, inr, String, true, Option, none, some, List,
  [], ◌∷◌, arith, String_eq, Option-cases, Bool-cases, is_some, All,
}
use clickwrap.Domain.Errors.{Result, ok, Result-cases, customer_not_found}
use clickwrap.Domain.Types.{AgreementDocument, AgreementVersion, Customer, CustomerVersionState}
use clickwrap.Domain.Compliance.{CurrentVersionEntry, compute_compliance}
use clickwrap.Domain.Compliance.Gate.{Permits, compute_compliance_iff}
use clickwrap.Store.Documents
use clickwrap.Store.Versions
use clickwrap.Store.Customers
use clickwrap.Store.States
use clickwrap.Runtime.{World, Env}
use clickwrap.Runtime.Exec.{now, query, fetch, found, bind-through}
use clickwrap.Services.Compliance.{
  ComplianceResponse, resolve_audience_key, with_current, current_entries, response_of,
  load_current_versions, get_compliance,
}

-- No version of `document` that is current at `t` blocks the customer.
abbrev pub PermitsAt : World → ℕ → String → Customer → Option String → AgreementDocument → Type 0
PermitsAt w t customer_id customer asked document =
    (v : AgreementVersion)
    → Versions.find_current_published w.documents w.versions document.type document.audience t
      ≡ some v
    → Permits customer (States.find_by_customer w.states customer_id) asked
        (record { document = document; version = v })

with_current_iff :
    (P : CurrentVersionEntry → Type 0) (d : AgreementDocument) (o : Option AgreementVersion)
    (entries : List CurrentVersionEntry)
    → All P (with_current d o entries) ↔ (
        ((v : AgreementVersion) → o ≡ some v → P (record { document = d; version = v }))
        × All P entries)
with_current_iff P d none entries = (λ h. (λ v e. cc, h), λ h. h.1)
with_current_iff P d (some x) entries =
    (λ h. (λ v e. let p : x ≡ v = ground arith in rw (sym p) h.0, h.1), λ h. (h.0 x refl, h.1))

entries_iff :
    (P : CurrentVersionEntry → Type 0) (w : World) (t : ℕ) (documents : List AgreementDocument)
    → All P (current_entries w.documents w.versions t documents)
      ↔ All
          (λ d.
            (v : AgreementVersion)
            → Versions.find_current_published w.documents w.versions d.type d.audience t ≡ some v
            → P (record { document = d; version = v }))
          documents
unfolding current_entries
entries_iff P w t [] = (λ h. tt, λ h. tt)
entries_iff P w t (d ∷ rest) =
    let ih = entries_iff P w t rest in
    let one =
      with_current_iff P d
        (Versions.find_current_published w.documents w.versions d.type d.audience t)
        (current_entries w.documents w.versions t rest) in
    (λ h. ((one.0 h).0, ih.0 (one.0 h).1), λ h. one.1 (h.0, ih.1 h.1))

answers :
    (r x : ComplianceResponse) (w w' : World)
    → ◌≡◌ {A = Result ComplianceResponse × World} (ok r, w) (ok x, w')
    → (r ≡ x) × (w ≡ w')
answers r x w w' h = (ground arith, ap (λ p. p.1) h)

resolve-ok :
    (w : World) (audience key : Option String)
    → resolve_audience_key w audience ≡ ok key
    → key ≡ audience
unfolding resolve_audience_key
resolve-ok w none key h = ground arith
resolve-ok w (some a) key h = ground arith

compute_compliance-names :
    (c : Customer) (entries : List CurrentVersionEntry) (states : List CustomerVersionState)
    (audience : Option String)
    → ((compute_compliance c entries states audience).customer_id ≡ c.id)
      × ((compute_compliance c entries states audience).audience ≡ audience)
      × ((compute_compliance c entries states audience).roles ≡ c.roles)
unfolding compute_compliance
compute_compliance-names c entries states audience = elim (Bool-cases (is_some c.deleted_at)) [
  | inl t ↦ rw t (refl, refl, refl)
  | inr f ↦ rw f (refl, refl, refl)
]

module _ (env : Env) where
  -- An answer names the customer that is stored under the id that was asked about, its roles and the
  -- audience of the request, and says
  -- yes exactly if the customer is deleted,
  -- or if of no stored document the version that is current by the server's clock blocks the customer
  -- among the audiences that the request asks for. Asking writes nothing.
  pub get_compliance_iff :
      (customer_id : String) (audience : Option String) (w w' : World) (r : ComplianceResponse)
      → get_compliance env customer_id audience w ≡ (ok r, w')
      → (customer : Customer) × (Customers.find_by_id w.customers customer_id ≡ some customer)
        × (r.customer_id ≡ customer.id)
        × (r.audience ≡ audience)
        × (r.roles ≡ customer.roles)
        × ((r.compliant ≡ true) ↔ (
            (customer.deleted_at ≢ none)
            ⊎ All
                (PermitsAt w (env.clock w.ticks) customer_id customer audience)
                (Documents.find_all w.documents)))
        × (w' ≡ record w { ticks = w.ticks + 1 })
  unfolding get_compliance load_current_versions response_of now
  get_compliance_iff customer_id audience w w' r h =
      elim (Result-cases (resolve_audience_key w audience)) [
        | inl (e, p) ↦ ground arith
        | inr (key, p) ↦ elim (Option-cases (Customers.find_by_id w.customers customer_id)) [
          | inl e ↦ ground arith
          | inr (c, e) ↦
              let same = resolve-ok w audience key p in
              let t = env.clock w.ticks in
              let documents = Documents.find_all w.documents in
              let states = States.find_by_customer w.states customer_id in
              let entries = current_entries w.documents w.versions t documents in
              let w1 : World = record w { ticks = w.ticks + 1 } in
              let runs =
                bind-through (query (λ v. resolve_audience_key v audience)) _ w w key _
                  (ap (λ x. (x, w)) p)
                  (bind-through
                    (fetch (λ v. Customers.find_by_id v.customers customer_id) customer_not_found) _
                    w w c _ (ap (λ x. found x customer_not_found w) e) refl) in
              let (found_r, found_w) = answers r _ w' w1 (sym h ∙ runs) in
              let answer : r.compliant ≡ (compute_compliance c entries states audience).compliant =
                ap (λ x. x.compliant) found_r
                ∙ ap (λ k. (compute_compliance c entries states k).compliant) same in
              let named = compute_compliance-names c entries states key in
              let gate = compute_compliance_iff c states audience entries in
              let all = entries_iff (Permits c states audience) w t documents in
              (
                c,
                e,
                ap (λ x. x.customer_id) found_r ∙ named.0,
                ap (λ x. x.audience) found_r ∙ named.1 ∙ same,
                ap (λ x. x.roles) found_r ∙ named.2,
                rw answer (
                  λ g. elim (gate.0 g) [ inl d ↦ inl d | inr a ↦ inr (all.0 a) ],
                  λ g. gate.1 (elim g [ inl d ↦ inl d | inr a ↦ inr (all.1 a) ]),
                ),
                found_w,
              )
        ]
      ]
