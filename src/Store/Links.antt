-- ===== src/Store/Links.antt =====
-- persistence/inmemory/acceptance-link.repo.ts
pub mod Revocation
pub mod Hashes
use clickwrap.Prelude.{
  ℕ, String, Option, none, some, List, ◌==◌, String_eq, is_none, if◌then◌else◌, keep, find, any,
}
use clickwrap.Prelude.Dict.{Dict, values, get, set, has}
use clickwrap.Domain.Errors.{Result, ok, err, invalid_state}
use clickwrap.Domain.Types.{AcceptanceLink}

abbrev pub Links : Type 0
Links = Dict String AcceptanceLink

unfoldable pub create : Links → AcceptanceLink → Result Links
create links link =
    if has links link.id
    then err invalid_state
    else if any (λ existing. existing.token_hash == link.token_hash) (values links)
    then err invalid_state
    else ok (set links link.id link)

unfoldable pub find_by_token_hash : Links → String → Option AcceptanceLink
find_by_token_hash links token_hash = find (λ link. link.token_hash == token_hash) (values links)

unfoldable pub touch : Links → String → ℕ → Links
touch links id last_used_at = elim (get links id) [
  | none ↦ links
  | some stored ↦ set links id (record stored { last_used_at = some last_used_at })
]

-- The first revocation is kept. The links after the call, and the row that it returns.
unfoldable pub revoke : Links → String → ℕ → Links × Option AcceptanceLink
revoke links id revoked_at = elim (get links id) [
  | none ↦ (links, none)
  | some stored ↦
      if is_none stored.revoked_at
      then (let updated : AcceptanceLink = record stored { revoked_at = some revoked_at } in
          (set links id updated, some updated))
      else (links, some stored)
]

unfoldable pub list_by_customer : Links → String → List AcceptanceLink
list_by_customer links customer_id = keep (λ link. link.customer_id == customer_id) (values links)
