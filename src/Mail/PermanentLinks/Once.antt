-- ===== src/Mail/PermanentLinks/Once.antt =====
-- Repeated calls for a customer's permanent link.
use clickwrap.Prelude.{
  ◌≡◌, refl, ◌∙◌, ap, String, none, some, inl, inr, arith, String_eq, ◌<>◌, Option-cases,
}
use clickwrap.Domain.Errors.{ok, Result-cases}
use clickwrap.Domain.Types.{AcceptanceLink}
use clickwrap.Store.Links
use clickwrap.Store.Links.Hashes.{create-find_by_token_hash, create-err}
use clickwrap.Runtime.{World, Env}
use clickwrap.Runtime.Exec.{now, new_id}
use clickwrap.Runtime.Recorder.{record_event}
use clickwrap.Mail.PermanentLinks.{
  permanent_link, append_link, recover, try_create, create_link, hash_for, ensure_for_customer,
}

module _ (env : Env) (token_for : String → String) where
  ensure_found :
      (customer_id : String) (existing : AcceptanceLink) (w : World)
      → Links.find_by_token_hash w.links (hash_for env token_for customer_id) ≡ some existing
      → ensure_for_customer env token_for customer_id w ≡ (ok existing, w)
  unfolding ensure_for_customer
  ensure_found customer_id existing w p = rw p refl

  -- A link that was made is there afterwards.
  create_link-finds :
      (customer_id token_hash : String) (w w' : World) (link : AcceptanceLink)
      → Links.find_by_token_hash w.links token_hash ≡ none
      → create_link env token_for customer_id token_hash w ≡ (ok link, w')
      → Links.find_by_token_hash w'.links token_hash ≡ some link
  unfolding create_link try_create append_link recover now new_id record_event
  create_link-finds customer_id token_hash w w' link n h =
      let made =
        permanent_link customer_id token_hash ("al" <> "-" <> env.uuid w.minted)
          (env.clock w.ticks) in
      elim (Result-cases (Links.create w.links made)) [
        | inl (e, p) ↦ let code = create-err w.links made e p in ground (arith, h, n)
        | inr (links', p) ↦
            let found = create-find_by_token_hash w.links links' made p in ground (arith, h)
      ]

  -- Asking for the permanent link of a customer again gives the same link, found under the hash of the
  -- customer's token, and changes nothing.
  pub ensure_again :
      (customer_id : String) (w w' : World) (link : AcceptanceLink)
      → ensure_for_customer env token_for customer_id w ≡ (ok link, w')
      → (ensure_for_customer env token_for customer_id w' ≡ (ok link, w'))
        × (Links.find_by_token_hash w'.links (hash_for env token_for customer_id) ≡ some link)
  unfolding ensure_for_customer
  ensure_again customer_id w w' link h =
      let hash = hash_for env token_for customer_id in
      elim (Option-cases (Links.find_by_token_hash w.links hash)) [
        | inl n ↦
            let made : create_link env token_for customer_id hash w ≡ (ok link, w') = rw n at h in
            let found = create_link-finds customer_id hash w w' link n made in
            (ensure_found customer_id link w' found, found)
        | inr (existing, p) ↦
            let same : (ok existing, w) ≡ (ok link, w') = rw p at h in
            let state : w ≡ w' = ap (λ x. x.1) same in
            let found : Links.find_by_token_hash w'.links hash ≡ some link =
              rw (← state) (p ∙ cc same) in
            (ensure_found customer_id link w' found, found)
      ]
