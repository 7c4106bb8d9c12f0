-- ===== src/Domain/Consent.antt =====
-- domain/consent-rules.ts: who may consent to what, and when a draft may be published. The hash of
-- node:crypto is the argument `sha256_hex`.
pub mod Laws
use clickwrap.Prelude.{
  ℕ, String, Bool, true, false, ◌&&◌, not, is_some, is_none, Option, none, some, List, [], ◌∷◌, ltb,
  ◌==◌, String_eq, if◌then◌else◌, includes, trim, ◌<>◌,
}
use clickwrap.Domain.Errors.{
  ErrorCode, Result, ok, err, ◌>>◌, invalid_state, consent_text_required, consent_text_mismatch,
  version_not_current, role_mismatch, version_immutable, change_summary_required,
}
use clickwrap.Domain.Types.{
  draft, published, VersionStatus_eq, active, passive, AcceptanceMethod, active_consent, imported,
  tacit, AcceptanceChannel, portal, admin, link, system, AcceptanceChannel_eq, AgreementVersion,
  Customer,
}

-- `if (!condition) throw new DomainError(code)`
abbrev pub require : Bool → ErrorCode → Result (Unit {0})
require condition code = if condition then ok tt else err code

abbrev allowed_channels : AcceptanceMethod → List AcceptanceChannel
allowed_channels active_consent = AcceptanceChannel.portal ∷ admin ∷ AcceptanceChannel.link ∷ []
allowed_channels imported = admin ∷ []
allowed_channels tacit = system ∷ []

unfoldable pub assert_method_channel_allowed :
    AcceptanceMethod → AcceptanceChannel → Result (Unit {0})
unfolding includes
assert_method_channel_allowed method channel =
    require (includes (allowed_channels method) channel) invalid_state

unfoldable pub consent_text_hash_for : (String → String) → AgreementVersion → Result String
consent_text_hash_for sha256_hex version = elim version.consent_text [
  | none ↦ err consent_text_required
  | some t ↦ ok ("sha256:" <> sha256_hex t)
]

unfoldable pub assert_displayed_consent_text_matches : AgreementVersion → String → Result (Unit {0})
assert_displayed_consent_text_matches version displayed = elim version.consent_text [
  | none ↦ err consent_text_required
  | some t ↦ require (displayed == t) consent_text_mismatch
]

is_current : AgreementVersion → Option AgreementVersion → Bool
is_current version none = false
is_current version (some current) = version.id == current.id

unfoldable pub assert_version_current :
    AgreementVersion → Option AgreementVersion → (now : ℕ) → Result (Unit {0})
unfolding is_current
assert_version_current version current now =
    if is_current version current
    then ok tt
    else require (version.status == published && ltb now version.valid_from) version_not_current

unfoldable pub assert_customer_has_role : Customer → String → Result (Unit {0})
assert_customer_has_role customer audience_key =
    require (includes customer.roles audience_key) role_mismatch

unfoldable pub assert_draft_mutable : AgreementVersion → Result (Unit {0})
assert_draft_mutable version = require (version.status == draft) version_immutable

unfoldable pub is_blank : Option String → Bool
is_blank none = true
is_blank (some value) = trim value == ""

-- The deadline of an ACTIVE version: there, and not before the version is in force.
check_hard_deadline : AgreementVersion → Option ℕ → Result (Unit {0})
check_hard_deadline version none = err invalid_state
check_hard_deadline version (some deadline) =
    if ltb deadline version.valid_from then err invalid_state else ok tt

unfoldable pub validate_for_publish : AgreementVersion → Result (Unit {0})
unfolding assert_draft_mutable check_hard_deadline
validate_for_publish version = do
  assert_draft_mutable version
  require (not (is_blank (some version.change_summary))) change_summary_required
  elim version.acceptance_mode [
    | active ↦ do
      require (not (is_blank version.consent_text)) consent_text_required
      check_hard_deadline version version.hard_deadline_at
    | passive ↦ do
      require (is_some version.objection_period_days) invalid_state
      require (is_none version.hard_deadline_at) invalid_state
  ]
