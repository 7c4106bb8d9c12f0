-- ===== src/Domain/Consent/Laws.antt =====
-- What the guards of domain/consent-rules.ts let through.
use clickwrap.Prelude.{ℕ, ◌≤◌, ◌<◌, ◌≡◌, ◌≢◌, ◌↔◌, ◌⊎◌, true, false, Option, none, some, arith}
use clickwrap.Domain.Errors.{
  ErrorCode, ok, err, version_immutable, change_summary_required, consent_text_required,
  invalid_state,
}
use clickwrap.Domain.Types.{
  draft, published, active, passive, AcceptanceMethod, active_consent, imported, tacit,
  AcceptanceChannel, admin, system, AgreementVersion,
}
use clickwrap.Domain.Consent.{
  is_blank, validate_for_publish, assert_version_current, assert_method_channel_allowed,
}
use mathlib.Core.Option
use text.Mathlib.TextEquality.{eq_iff}

-- A known deadline that is not before `start`.
abbrev pub IsFrom : ℕ → Option ℕ → Type 0
IsFrom start none = ⊥
IsFrom start (some deadline) = start ≤ deadline

-- What a version must have to be published.
pub record IsPublishable (v : AgreementVersion) : Type 0 where
  pub draft_only : v.status ≡ draft
  pub summary : is_blank (some v.change_summary) ≡ false
  pub active_text : v.acceptance_mode ≡ active → is_blank v.consent_text ≡ false
  pub active_deadline : v.acceptance_mode ≡ active → IsFrom v.valid_from v.hard_deadline_at
  pub passive_period : v.acceptance_mode ≡ passive → v.objection_period_days ≢ none
  pub passive_no_deadline : v.acceptance_mode ≡ passive → v.hard_deadline_at ≡ none

-- The publish check passes exactly for a draft with a summary that, if ACTIVE, has a consent text
-- and an absolute deadline not before it is in force, and, if PASSIVE, has an objection period and
-- no absolute deadline.
pub validate_for_publish_iff :
    (v : AgreementVersion) → (validate_for_publish v ≡ ok tt) ↔ IsPublishable v
unfolding validate_for_publish
validate_for_publish_iff v = (λ h. ground arith, λ h. ground arith)

-- Which error a refused publish check throws: the status comes first, then the summary, then the
-- consent text of an ACTIVE version; every other refusal is INVALID_STATE.
pub validate_for_publish-err :
    (v : AgreementVersion) (c : ErrorCode)
    → validate_for_publish v ≡ err c
    → ((c ≡ version_immutable) × (v.status ≢ draft))
      ⊎ ((c ≡ change_summary_required)
          × (v.status ≡ draft)
          × (is_blank (some v.change_summary) ≡ true))
      ⊎ ((c ≡ consent_text_required)
          × (v.status ≡ draft)
          × (v.acceptance_mode ≡ active)
          × (is_blank v.consent_text ≡ true))
      ⊎ ((c ≡ invalid_state) × (v.status ≡ draft) × (is_blank (some v.change_summary) ≡ false))
unfolding validate_for_publish
validate_for_publish-err v c h = ground arith

-- Consent is possible to the current version, and to a published version that is not yet in force;
-- to nothing else.
pub assert_version_current_iff :
    (v : AgreementVersion) (current : Option AgreementVersion) (now : ℕ)
    → (assert_version_current v current now ≡ ok tt) ↔ (
        (Option.map (λ (c : AgreementVersion). c.id) current ≡ some v.id)
        ⊎ ((v.status ≡ published) × (now < v.valid_from)))
unfolding assert_version_current
assert_version_current_iff v none now = (λ h. ground arith, λ h. ground arith)
assert_version_current_iff v (some c) now =
    (λ h. ground (arith, eq_iff v.id c.id), λ h. ground (arith, eq_iff v.id c.id))

-- The channels of each method: active consent by portal, hosted page or administrator, imports by
-- an administrator, tacit consent by the system alone.
pub assert_method_channel_allowed_iff :
    (m : AcceptanceMethod) (c : AcceptanceChannel)
    → (assert_method_channel_allowed m c ≡ ok tt) ↔ (
        ((m ≡ active_consent) × (c ≢ system))
        ⊎ ((m ≡ imported) × (c ≡ admin))
        ⊎ ((m ≡ tacit) × (c ≡ system)))
unfolding assert_method_channel_allowed
assert_method_channel_allowed_iff m c = (λ h. ground arith, λ h. ground arith)
