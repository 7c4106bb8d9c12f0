-- ===== src/Domain/Keys.antt =====
-- domain/keys.ts: slugs, and the key of a compliance detail. A detail key is kept as its code units;
-- upper-casing is written for ASCII, where slugs live.
pub mod Collisions
use clickwrap.Prelude.{
  ℕ, ◌-◌, String, Bool, ◌&&◌, ◌||◌, List, ◌∷◌, ◌++◌, map, length, all, leb, nat_eq, codes,
  if◌then◌else◌,
}
use clickwrap.Domain.Errors.{Result, invalid_state}
use clickwrap.Domain.Consent.{require}

-- The class `[a-z0-9-]`.
unfoldable pub is_slug_char : ℕ → Bool
is_slug_char c = leb b'a' c && leb c b'z' || leb b'0' c && leb c b'9' || nat_eq c b'-'

unfoldable pub is_valid_entity_key : String → Bool
is_valid_entity_key key =
    let units = codes key in leb 2 (length units) && leb (length units) 32 && all is_slug_char units

unfoldable pub assert_valid_entity_key : String → Result (Unit {0})
assert_valid_entity_key key = require (is_valid_entity_key key) invalid_state

unfoldable pub upper : ℕ → ℕ
upper c = if leb b'a' c && leb c b'z' then c - 32 else c

unfoldable pub detail_key : String → String → List ℕ
detail_key type_key audience_key = map upper (codes type_key ++ b'_' ∷ codes audience_key)
