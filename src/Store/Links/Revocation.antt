-- ===== src/Store/Links/Revocation.antt =====
-- Revoked links.
use clickwrap.Prelude.{
  ℕ, ◌≡◌, String, false, some, List, [], ◌∷◌, arith, ◌==◌, String_eq, Option-cases, Bool-cases, inl,
  inr,
}
use text.Mathlib.TextEquality.{eq_iff}
use clickwrap.Prelude.Dict.{get, get-set}
use clickwrap.Domain.Types.{AcceptanceLink}
use clickwrap.Domain.Links.{is_acceptance_link_usable}
use clickwrap.Store.Links.{Links, revoke, touch}

-- What may happen to a stored link.
pub data Call : Type 0 where
  revoke_again : String → ℕ → Call
  use_page : String → ℕ → Call

abbrev pub call : Links → Call → Links
call links (revoke_again id at) = (revoke links id at).0
call links (use_page id at) = touch links id at

pub call_all : Links → List Call → Links
call_all links [] = links
call_all links (c ∷ cs) = call_all (call links c) cs

-- A row that is revoked at `at`.
abbrev pub IsRevoked : Links → String → ℕ → Type 0
IsRevoked links id at = (l : AcceptanceLink) × (get links id ≡ some l) × (l.revoked_at ≡ some at)

call-IsRevoked :
    (links : Links) (c : Call) (id : String) (at : ℕ)
    → IsRevoked links id at
    → IsRevoked (call links c) id at
unfolding revoke touch
call-IsRevoked links (revoke_again j t) id at (l, g, r) = elim (Option-cases (get links j)) [
  | inl e ↦ (l, ground arith, r)
  | inr (m, e) ↦
      (l, ground (arith, eq_iff j id, get-set links j id (record m { revoked_at = some t })), r)
]
call-IsRevoked links (use_page j t) id at (l, g, r) = elim (Option-cases (get links j)) [
  | inl e ↦ (l, ground arith, r)
  | inr (m, e) ↦
      let used : AcceptanceLink = record m { last_used_at = some t } in
      let s = get-set links j id used in
      elim (Bool-cases (j == id)) [
        | inl same ↦ (used, ground (arith, s), ground (arith, eq_iff j id))
        | inr other ↦ (l, ground (arith, s), r)
      ]
]

-- Once a link is revoked at a time, no later revocation moves that time and no use of the page brings
-- it back: after any calls it is stored with that time, and is usable at no moment.
pub call_all-IsRevoked :
    (links : Links) (cs : List Call) (id : String) (at now : ℕ)
    → IsRevoked links id at
    → (l : AcceptanceLink) × (get (call_all links cs) id ≡ some l)
      × (l.revoked_at ≡ some at)
      × (is_acceptance_link_usable l now ≡ false)
unfolding call_all is_acceptance_link_usable
call_all-IsRevoked links [] id at now (l, g, r) = (l, g, r, ground arith)
call_all-IsRevoked links (c ∷ cs) id at now h =
    call_all-IsRevoked (call links c) cs id at now (call-IsRevoked links c id at h)
