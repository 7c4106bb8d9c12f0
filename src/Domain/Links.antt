-- ===== src/Domain/Links.antt =====
-- domain/acceptance-links.ts: the capability links of the hosted acceptance page. Random bytes and
-- the hashes of node:crypto are not modelled; a hash is an argument.
use Prim.Native.Char.{Char, code}
use clickwrap.Prelude.{
  ℕ, ◌≤◌, ◌≡◌, String, Bool, true, false, Option, none, some, arith, ltb, is_some, if◌then◌else◌,
  ◌<>◌, nat_eq,
}
use clickwrap.Domain.Types.{standard, permanent, AcceptanceLink}

abbrev pub default_link_expiry_days : ℕ
default_link_expiry_days = 30

abbrev pub max_link_expiry_days : ℕ
max_link_expiry_days = 365

-- Until `expiresAt`, which a STANDARD link has.
is_unexpired : ℕ → Option ℕ → Bool
is_unexpired now none = false
is_unexpired now (some expires_at) = ltb now expires_at

unfoldable pub is_acceptance_link_usable : AcceptanceLink → ℕ → Bool
unfolding is_unexpired
is_acceptance_link_usable link now =
    if is_some link.revoked_at
    then false
    else elim link.kind [ permanent ↦ true | standard ↦ is_unexpired now link.expires_at ]

-- `raw.replace(/\/+$/, '')`, as its callers write it.
slash_step : Char → String → String
slash_step c String.[] = if nat_eq (code c) b'/' then String.[] else String.◌∷◌ c String.[]
slash_step c (String.◌∷◌ d s) = String.◌∷◌ c (String.◌∷◌ d s)

unfoldable pub strip_trailing_slashes : String → String
unfolding slash_step
strip_trailing_slashes String.[] = String.[]
strip_trailing_slashes (String.◌∷◌ c s) = slash_step c (strip_trailing_slashes s)

unfoldable pub acceptance_link_actor_user_id : String → String
acceptance_link_actor_user_id link_id = "link:" <> link_id

unfoldable pub acceptance_link_evidence_note : String → String
acceptance_link_evidence_note link_id = "identity self-declared via acceptance link " <> link_id

-- Time and revocation only ever take a link's use away: a link that is usable now was usable at
-- every earlier moment, and as long as it was not revoked.
pub is_acceptance_link_usable_mono :
    (l : AcceptanceLink) (earlier now : ℕ)
    → earlier ≤ now
    → is_acceptance_link_usable l now ≡ true
    → (is_acceptance_link_usable l earlier ≡ true) × (l.revoked_at ≡ none)
unfolding is_acceptance_link_usable
is_acceptance_link_usable_mono l earlier now le h = (ground arith, ground arith)
