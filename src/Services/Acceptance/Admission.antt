-- ===== src/Services/Acceptance/Admission.antt =====
-- Who and what the guards of `process` let through.
use clickwrap.Prelude.{
  ℕ, String, ◌<◌, ◌≡◌, refl, ◌↔◌, ◌⊎◌, true, Option, none, some, arith, includes, Option-cases, inl,
  inr, String_eq,
}
use mathlib.Core.Option
use clickwrap.Domain.Errors.{ok}
use clickwrap.Domain.Types.{published, active, active_consent, AgreementVersion}
use clickwrap.Domain.Consent.{
  assert_customer_has_role, assert_displayed_consent_text_matches, assert_method_channel_allowed,
}
use clickwrap.Domain.Consent.Laws.{assert_version_current_iff}
use clickwrap.Store.Documents
use clickwrap.Store.Versions
use clickwrap.Store.Customers
use clickwrap.Runtime.{World}
use clickwrap.Services.Acceptance.Checks.{
  InteractiveChannel, portal, link, as_channel, AcceptanceInput, channel_of, Checked, required,
  check_consent_text, checks,
}
use text.Mathlib.TextEquality.{eq_iff}

-- The text that was shown is the text of the version, which has one.
abbrev pub IsShown : Option String → Option String → Type 0
IsShown (some displayed) (some t) = displayed ≡ t
IsShown _ _ = ⊥

-- What must hold for a consent at time `t` to be recorded, and what the guards have read.
pub record IsAdmitted (w : World) (t : ℕ) (input : AcceptanceInput) (c : Checked) : Type 0 where
  pub version : Versions.find_by_id w.versions input.version_id ≡ some c.version
  pub document : Documents.find_by_id w.documents c.version.document_id ≡ some c.document
  pub customer : Customers.find_by_id w.customers input.customer_id ≡ some c.customer
  pub offered :
      (Option.map
          (λ (v : AgreementVersion). v.id)
          (Versions.find_current_published w.documents w.versions c.document.type
            c.document.audience t)
        ≡ some c.version.id)
      ⊎ ((c.version.status ≡ published) × (t < c.version.valid_from))
  pub role : includes c.customer.roles c.document.audience ≡ true
  pub shown :
      c.version.acceptance_mode ≡ active
      → IsShown input.displayed_consent_text c.version.consent_text

check_consent_text_iff :
    (v : AgreementVersion) (displayed : Option String)
    → (check_consent_text v displayed ≡ ok tt)
      ↔ (v.acceptance_mode ≡ active → IsShown displayed v.consent_text)
unfolding check_consent_text assert_displayed_consent_text_matches
check_consent_text_iff v none = (λ h. ground arith, λ h. ground arith)
check_consent_text_iff v (some d) = elim (Option-cases v.consent_text) [
  | inl e ↦ (λ h. ground arith, λ h. ground arith)
  | inr (t, e) ↦ (λ h. ground (arith, eq_iff d t), λ h. ground (arith, eq_iff d t))
]

channel_allowed :
    (c : InteractiveChannel) → assert_method_channel_allowed active_consent (as_channel c) ≡ ok tt
unfolding assert_method_channel_allowed
channel_allowed portal = refl
channel_allowed link = refl

-- The guards pass, with what they have read, exactly if the version is stored, with its document, and
-- is the current one or is published for later; the customer is stored and has the role of the
-- document's audience; and, for an ACTIVE version, the text that was displayed is the version's.
pub checks_iff :
    (w : World) (t : ℕ) (input : AcceptanceInput) (c : Checked)
    → (checks w t input ≡ ok c) ↔ IsAdmitted w t input c
unfolding checks assert_customer_has_role required
checks_iff w t input c =
    let current =
      Versions.find_current_published w.documents w.versions c.document.type c.document.audience
        t in
    let offered = assert_version_current_iff c.version current t in
    let shown = check_consent_text_iff c.version input.displayed_consent_text in
    let allowed = channel_allowed (channel_of input) in
    (
      λ h. record {
        version = ground (arith);
        document = ground (arith);
        customer = ground (arith);
        offered = offered.0 (ground arith);
        role = ground arith;
        shown = shown.0 (ground arith);
      },
      λ a.
          let p = offered.1 a.offered in
          let q = shown.1 a.shown in
          ground (arith, a.version, a.document, a.customer, a.role, p, q, allowed),
    )
