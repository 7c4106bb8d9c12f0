-- ===== src/Accept/Minting/Expiry.antt =====
-- What a link of accept/acceptance-link-admin.service.ts can be used for, and until when.
use clickwrap.Prelude.{
  ℕ, ◌+◌, ◌*◌, ◌≤◌, ◌≡◌, refl, String, true, Option, none, some, inl, inr, arith, String_eq, ◌<>◌,
  ltb, is_some,
}
use clickwrap.Domain.Errors.{ok, Result-cases, customer_not_found, unknown_audience}
use clickwrap.Domain.Types.{AcceptanceLink}
use clickwrap.Domain.Consent.{require}
use clickwrap.Domain.Lifecycle.{ms_per_day}
use clickwrap.Domain.Links.{is_acceptance_link_usable, max_link_expiry_days}
use clickwrap.Store.Customers
use clickwrap.Store.Links
use clickwrap.Store.Links.Hashes.{create-find_by_token_hash}
use clickwrap.Runtime.{World, Env}
use clickwrap.Runtime.Exec.{bind-ok, fetch-ok, lift, query, now, new_id}
use clickwrap.Runtime.Recorder.{record_event}
use clickwrap.Runtime.Audit.{append_audit}
use clickwrap.Mail.PermanentLinks.{append_link}
use clickwrap.Accept.Minting.{
  Requested, natural, unnatural, CreateAcceptanceLinkInput, CreateAcceptanceLinkResult,
  resolve_expiry_days, require_public_base_url, known_audience, standard_link, mint, create,
}

resolve_expiry_days-bounds :
    (requested : Option Requested) (days : ℕ)
    → resolve_expiry_days requested ≡ ok days
    → (1 ≤ days) × (days ≤ max_link_expiry_days)
unfolding resolve_expiry_days
resolve_expiry_days-bounds none days h = (ground arith, ground arith)
resolve_expiry_days-bounds (some unnatural) days h = ground arith
resolve_expiry_days-bounds (some (natural n)) days h = (ground arith, ground arith)

-- The link of a token, and how long it can be used.
pub record IsMinted (token_hash customer_id : String) (r : CreateAcceptanceLinkResult) (made_at : ℕ)
    (w' : World) : Type 0 where
  pub days : ℕ
  pub at_least : 1 ≤ days
  pub at_most : days ≤ max_link_expiry_days
  pub expires_at : r.expires_at ≡ made_at + days * ms_per_day
  pub link : AcceptanceLink
  pub stored : Links.find_by_token_hash w'.links token_hash ≡ some link
  pub id : link.id ≡ r.link_id
  pub customer : link.customer_id ≡ customer_id
  pub usable : (now : ℕ) → is_acceptance_link_usable link now ≡ ltb now r.expires_at

module _ (env : Env) where
  mint-IsMinted :
      (base_url token customer_id : String) (input : CreateAcceptanceLinkInput) (actor : String)
      (days : ℕ) (w w' : World) (r : CreateAcceptanceLinkResult)
      → 1 ≤ days
      → days ≤ max_link_expiry_days
      → mint env base_url token customer_id input actor days w ≡ (ok r, w')
      → IsMinted (env.sha256_hex token) customer_id r (env.clock w.ticks) w'
  unfolding mint now new_id append_link append_audit record_event is_acceptance_link_usable
  mint-IsMinted base_url token customer_id input actor days w w' r lo hi h =
      let at = env.clock w.ticks in
      let made =
        standard_link customer_id input actor (env.sha256_hex token)
          ("al" <> "-" <> env.uuid w.minted) at (at + days * ms_per_day) in
      elim (Result-cases (Links.create w.links made)) [
        | inl (e, p) ↦ ground (arith, h, p)
        | inr (links', p) ↦
            let links : w'.links ≡ links' = ground (arith, h, p) in
            let id : made.id ≡ r.link_id = ground (arith, h, p) in
            let until : r.expires_at ≡ at + days * ms_per_day = ground (arith, h, p) in
            record {
              days = days;
              at_least = lo;
              at_most = hi;
              expires_at = until;
              link = made;
              stored = rw links (create-find_by_token_hash w.links links' made p);
              id = id;
              customer = refl;
              usable = λ now. rw until refl;
            }
      ]

  -- Making a link that returns was asked for a stored customer. The link is stored under the hash of its
  -- token alone and is the customer's; it expires a whole number of days, between 1 and 365, after it
  -- was made, and can be used at exactly the moments before that.
  pub create-IsMinted :
      (configured : Option String) (token customer_id : String) (input : CreateAcceptanceLinkInput)
      (actor : String) (w w' : World) (r : CreateAcceptanceLinkResult)
      → create env configured token customer_id input actor w ≡ (ok r, w')
      → (is_some (Customers.find_by_id w.customers customer_id) ≡ true)
        × IsMinted (env.sha256_hex token) customer_id r (env.clock w.ticks) w'
  unfolding create
  create-IsMinted configured token customer_id input actor w w' r h =
      let (base, p, h1) = bind-ok (lift (require_public_base_url configured)) _ w w' r h in
      let (customer, q, h2) =
        fetch-ok (λ v. Customers.find_by_id v.customers customer_id) customer_not_found _ w w' r
          h1 in
      let (u, known, h3) =
        bind-ok (query (λ v. require (known_audience v input.audience_key) unknown_audience)) _ w w'
          r h2 in
      let (days, e, h4) = bind-ok (lift (resolve_expiry_days input.expires_in_days)) _ w w' r h3 in
      let b = resolve_expiry_days-bounds input.expires_in_days days e in
      (rw q refl, mint-IsMinted base token customer_id input actor days w w' r b.0 b.1 h4)
