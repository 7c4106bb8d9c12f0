-- ===== src/Services/Acceptance/Checks.antt =====
-- The input of an acceptance, and the guards that `process` applies before it writes.
use clickwrap.Prelude.{ℕ, String, Option, none, some, or_else}
use clickwrap.Domain.Errors.{
  ErrorCode, Result, ok, err, ◌>>=◌, ◌>>◌, version_not_found, customer_not_found,
  consent_text_required,
}
use clickwrap.Domain.Types.{
  active, passive, AcceptanceChannel, active_consent, CustomerContext, Customer, AgreementDocument,
  AgreementVersion,
}
use clickwrap.Domain.Consent.{
  assert_version_current, assert_customer_has_role, assert_displayed_consent_text_matches,
  assert_method_channel_allowed,
}
use clickwrap.Store.Documents
use clickwrap.Store.Versions
use clickwrap.Store.Customers
use clickwrap.Runtime.{World}

-- InteractiveAcceptanceChannel
pub data InteractiveChannel : Type 0 where
  portal link : InteractiveChannel

abbrev pub as_channel : InteractiveChannel → AcceptanceChannel
as_channel portal = AcceptanceChannel.portal
as_channel link = AcceptanceChannel.link

pub record AcceptanceInput : Type 0 where
  pub customer_id : String
  pub version_id : String
  pub displayed_consent_text : Option String
  pub idempotency_key : String
  pub context : CustomerContext
  pub channel : Option InteractiveChannel
  pub evidence_note : Option String

-- `input.channel ?? 'PORTAL'`
abbrev pub channel_of : AcceptanceInput → InteractiveChannel
channel_of input = or_else input.channel portal

-- What the guards have read.
pub record Checked : Type 0 where
  pub version : AgreementVersion
  pub document : AgreementDocument
  pub customer : Customer

unfoldable pub required {ℓ} : {A : Type ℓ} → Option A → ErrorCode → Result A
required none code = err code
required (some a) code = ok a

-- The cross-check of the consent text, for ACTIVE versions only.
unfoldable pub check_consent_text : AgreementVersion → Option String → Result (Unit {0})
check_consent_text version displayed = elim version.acceptance_mode [
  | passive ↦ ok tt
  | active ↦ elim displayed [
    | none ↦ err consent_text_required
    | some t ↦ assert_displayed_consent_text_matches version t
  ]
]

-- The guards, in the order of the source; `t` is the clock's reading.
unfoldable pub checks : World → ℕ → AcceptanceInput → Result Checked
checks w t input = do
  version ← required (Versions.find_by_id w.versions input.version_id) version_not_found
  document ← required (Documents.find_by_id w.documents version.document_id) version_not_found
  let current =
      Versions.find_current_published w.documents w.versions document.type document.audience t
  assert_version_current version current t
  customer ← required (Customers.find_by_id w.customers input.customer_id) customer_not_found
  assert_customer_has_role customer document.audience
  check_consent_text version input.displayed_consent_text
  assert_method_channel_allowed active_consent (as_channel (channel_of input))
  ok (record { version = version; document = document; customer = customer })
