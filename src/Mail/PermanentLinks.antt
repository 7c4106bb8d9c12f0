-- ===== src/Mail/PermanentLinks.antt =====
-- plugins/email/core/permanent-acceptance-link.service.ts: the one link of a customer that mails carry.
-- The HMAC of node:crypto, over the server's secret, is the argument `token_for`.
pub mod Once
use clickwrap.Prelude.{
  ℕ, String, Bool, true, false, Option, none, some, [], ◌∷◌, ◌<>◌, ◌==◌, String_eq, if◌then◌else◌,
}
use clickwrap.Domain.Errors.{ErrorCode, Result, ok, err, invalid_state}
use clickwrap.Domain.Types.{
  AcceptanceLink, permanent, administration, system, text, acceptance_link_created,
}
use clickwrap.Domain.Links.{strip_trailing_slashes}
use clickwrap.Store.Links
use clickwrap.Runtime.{World, Env}
use clickwrap.Runtime.Exec.{Exec, pure, throw, gets, modify, query, ◌>>=◌, ◌>>◌, now, new_id}
use clickwrap.Runtime.Recorder.{EventInput, event_input, record_event}

abbrev pub permanent_link : String → String → String → ℕ → AcceptanceLink
permanent_link customer_id token_hash id at = record {
  id = id;
  token_hash = token_hash;
  customer_id = customer_id;
  kind = permanent;
  audience_key = none;
  created_by = "system";
  created_at = at;
  expires_at = none;
  revoked_at = none;
  last_used_at = none;
}

unfoldable pub append_link : AcceptanceLink → Exec (Unit {0})
append_link link = do
  links ← query (λ w. Links.create w.links link)
  modify (λ w. record w { links = links })

created_event : String → AcceptanceLink → EventInput
created_event customer_id created =
    record (event_input acceptance_link_created administration system "system"
      "Permanent acceptance link created") {
        customer_id = some customer_id;
        channel = some "LINK";
        metadata = some (("linkId", text created.id) ∷ ("kind", text "PERMANENT") ∷ []);
      }

-- The `catch`: a duplicate hash is a race that another request has won.
raced_or : ErrorCode → Option AcceptanceLink → Exec AcceptanceLink
raced_or code none = throw code
raced_or code (some raced) = pure raced

unfoldable pub recover : String → Result AcceptanceLink → Exec AcceptanceLink
unfolding raced_or
recover token_hash (ok created) w = (ok created, w)
recover token_hash (err invalid_state) w =
    raced_or invalid_state (Links.find_by_token_hash w.links token_hash) w
recover token_hash (err code) w = (err code, w)

module _ (env : Env) (token_for : String → String) where
  unfoldable pub try_create : String → String → Exec AcceptanceLink
  unfolding append_link created_event
  try_create customer_id token_hash = do
    id ← new_id env "al"
    at ← now env
    let created = permanent_link customer_id token_hash id at
    append_link created
    record_event env (created_event customer_id created)
    pure created

  unfoldable pub create_link : String → String → Exec AcceptanceLink
  unfolding try_create recover
  create_link customer_id token_hash w =
      let tried = try_create customer_id token_hash w in recover token_hash tried.0 tried.1

  abbrev pub hash_for : String → String
  hash_for customer_id = env.sha256_hex (token_for customer_id)

  ensure_found : String → Option AcceptanceLink → Exec AcceptanceLink
  ensure_found customer_id (some existing) = pure existing
  ensure_found customer_id none = create_link customer_id (hash_for customer_id)

  unfoldable pub ensure_for_customer : String → Exec AcceptanceLink
  unfolding ensure_found
  ensure_for_customer customer_id = do
    existing ← gets (λ w. Links.find_by_token_hash w.links (hash_for customer_id))
    ensure_found customer_id existing

  -- `urlFor`, with the configured base URL.
  unfoldable pub url_for : String → String → String
  unfolding strip_trailing_slashes
  url_for public_base_url customer_id =
      let base = strip_trailing_slashes public_base_url in
      if base == "" then "" else base <> "/accept/" <> token_for customer_id
