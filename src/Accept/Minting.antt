-- ===== src/Accept/Minting.antt =====
-- accept/acceptance-link-admin.service.ts: links that an administrator hands out. The random token is an
-- argument; only its hash is stored.
pub mod Expiry
use clickwrap.Prelude.{
  ℕ, ◌+◌, ◌*◌, String, Bool, true, false, not, ◌&&◌, ◌||◌, Option, none, some, [], ◌∷◌, ◌<>◌, ◌==◌,
  String_eq, leb, or_else, trim, is_some, if◌then◌else◌,
}
use clickwrap.Domain.Errors.{
  ErrorCode, Result, ok, err, customer_not_found, unknown_audience, invalid_state,
}
use clickwrap.Domain.Types.{
  AcceptanceLink, standard, Metadata, administration, admin, text, text?, number,
  acceptance_link_create, acceptance_link_created,
}
use clickwrap.Domain.Consent.{require}
use clickwrap.Domain.Links.{default_link_expiry_days, max_link_expiry_days, strip_trailing_slashes}
use clickwrap.Domain.Lifecycle.{ms_per_day}
use clickwrap.Store.Customers
use clickwrap.Store.Entities
use clickwrap.Runtime.{World, Env}
use clickwrap.Runtime.Exec.{Exec, pure, lift, fetch, query, ◌>>=◌, ◌>>◌, now, new_id}
use clickwrap.Runtime.Recorder.{EventInput, event_input, record_event}
use clickwrap.Runtime.Audit.{append_audit, audit_entry}
use clickwrap.Mail.PermanentLinks.{append_link}

-- A number in a request: a natural one, or any other.
pub data Requested : Type 0 where
  natural : ℕ → Requested
  unnatural : Requested

pub record CreateAcceptanceLinkInput : Type 0 where
  pub audience_key : Option String
  pub expires_in_days : Option Requested

pub record CreateAcceptanceLinkResult : Type 0 where
  pub link_id : String
  pub url : String
  pub expires_at : ℕ

unfoldable pub resolve_expiry_days : Option Requested → Result ℕ
resolve_expiry_days none = ok default_link_expiry_days
resolve_expiry_days (some unnatural) = err invalid_state
resolve_expiry_days (some (natural days)) =
    if leb 1 days && leb days max_link_expiry_days then ok days else err invalid_state

-- `requirePublicBaseUrl`, of the variable's value
unfoldable pub require_public_base_url : Option String → Result String
unfolding strip_trailing_slashes
require_public_base_url configured =
    let raw = trim (or_else configured "") in
    if raw == "" then err invalid_state else ok (strip_trailing_slashes raw)

abbrev known_audience : World → Option String → Bool
known_audience w none = true
known_audience w (some key) = is_some (Entities.find_audience w.audiences key)

abbrev pub standard_link :
    String
    → CreateAcceptanceLinkInput
    → (actor token_hash id : String) → (created_at expires_at : ℕ) → AcceptanceLink
standard_link customer_id input actor token_hash id created_at expires_at = record {
  id = id;
  token_hash = token_hash;
  customer_id = customer_id;
  kind = standard;
  audience_key = input.audience_key;
  created_by = actor;
  created_at = created_at;
  expires_at = some expires_at;
  revoked_at = none;
  last_used_at = none;
}

-- The date is kept as a number, where the source writes its ISO text.
expiry_metadata : CreateAcceptanceLinkInput → ℕ → Metadata
expiry_metadata input expires_at =
    ("audienceKey", text? input.audience_key) ∷ ("expiresAt", number expires_at) ∷ []

minted_event : String → CreateAcceptanceLinkInput → String → AcceptanceLink → ℕ → EventInput
unfolding expiry_metadata
minted_event customer_id input actor link expires_at =
    record (event_input acceptance_link_created administration admin actor
      "Acceptance link created") {
        customer_id = some customer_id;
        audience = input.audience_key;
        channel = some "LINK";
        metadata = some (("linkId", text link.id) ∷ expiry_metadata input expires_at);
      }

module _ (env : Env) where
  -- The link of a request that was checked.
  unfoldable pub mint :
      (base_url token : String)
      → String
      → CreateAcceptanceLinkInput
      → String
      → ℕ
      → Exec CreateAcceptanceLinkResult
  unfolding minted_event expiry_metadata append_link
  mint base_url token customer_id input actor days = do
    created_at ← now env
    let expires_at = created_at + days * ms_per_day
    id ← new_id env "al"
    let link = standard_link customer_id input actor (env.sha256_hex token) id created_at expires_at
    append_link link
    audit_id ← new_id env "audit"
    append_audit (
        audit_entry acceptance_link_create actor "AcceptanceLink" link.id none
          (some (("customerId", text customer_id) ∷ expiry_metadata input expires_at)) audit_id
          created_at)
    record_event env (minted_event customer_id input actor link expires_at)
    pure (record {
      link_id = link.id;
      url = base_url <> "/accept/" <> token;
      expires_at = expires_at;
    })

  -- `create`: the configured base URL and the new token are arguments.
  unfoldable pub create :
      (configured : Option String)
      → (token : String) → String
      → CreateAcceptanceLinkInput
      → String
      → Exec CreateAcceptanceLinkResult
  unfolding resolve_expiry_days require_public_base_url
  create configured token customer_id input actor = do
    base_url ← lift (require_public_base_url configured)
    customer ← fetch (λ w. Customers.find_by_id w.customers customer_id) customer_not_found
    query (λ w. require (known_audience w input.audience_key) unknown_audience)
    days ← lift (resolve_expiry_days input.expires_in_days)
    mint base_url token customer_id input actor days
