-- ===== src/Domain/Compliance/Gate.antt =====
-- When the gate opens, and what its details say.
use clickwrap.Prelude.{
  ◌≡◌, refl, ◌≢◌, ◌↔◌, ◌⊎◌, inl, inr, String, Bool, true, false, Option, none, some, List, [], ◌∷◌,
  arith, ℕ, is_truthy, is_some, if◌then◌else◌, String_eq, includes, includes-keep_eq, All,
  Bool-cases, sym, ◌∙◌,
}
use mathlib.Core.Bool.{false≢true}
use text.Mathlib.TextEquality.{eq_iff}
use clickwrap.Domain.Types.{Customer, CustomerVersionState}
use clickwrap.Domain.Lifecycle.{is_blocking}
use clickwrap.Domain.Compliance.{
  CurrentVersionEntry, relevant_audiences, state_for, allows, visit, visit_all, Tally,
  compute_compliance,
}

-- The audience is one that the query asks for: any, if it names none.
abbrev pub IsAsked : Option String → String → Type 0
IsAsked asked audience = is_truthy asked ≡ true → asked ≡ some audience

relevant_audiences_iff :
    (c : Customer) (asked : Option String) (audience : String)
    → (includes (relevant_audiences c asked) audience ≡ true)
      ↔ ((includes c.roles audience ≡ true) × IsAsked asked audience)
unfolding relevant_audiences
relevant_audiences_iff c none audience = (λ h. ground arith, λ h. ground arith)
relevant_audiences_iff c (some asked) audience = elim (Bool-cases (is_truthy (some asked))) [
  | inl t ↦ rw t (
      rw (includes-keep_eq asked audience c.roles)
        (λ h. ground (arith, eq_iff audience asked), λ h. ground (arith, eq_iff audience asked)))
  | inr f ↦ rw f (λ h. (h, λ t. cc), λ h. h.0)
]

-- A customer's row for a version, if there is one, does not block.
abbrev pub IsFree : Option CustomerVersionState → Type 0
IsFree none = Unit
IsFree (some s) = is_blocking s ≡ false

allows_iff : (o : Option CustomerVersionState) → (allows o ≡ true) ↔ IsFree o
unfolding allows
allows_iff none = (λ h. tt, λ h. refl)
allows_iff (some s) = (λ h. ground arith, λ h. ground arith)

compliant_eq :
    (c : Customer) (entries : List CurrentVersionEntry) (states : List CustomerVersionState)
    (asked : Option String)
    → (compute_compliance c entries states asked).compliant ≡ (
        if is_some c.deleted_at
        then true
        else (visit_all c states (relevant_audiences c asked) entries ([], true)).1)
unfolding compute_compliance
compliant_eq c entries states asked = ground arith

open_iff :
    (deleted_at : Option ℕ) (t : Bool) (P : Type 0)
    → ((t ≡ true) ↔ P)
    → ((if is_some deleted_at then true else t) ≡ true) ↔ ((deleted_at ≢ none) ⊎ P)
open_iff none t P e = (λ h. inr (e.0 h), λ h. elim h [ inl n ↦ absurd (n refl) | inr p ↦ e.1 p ])
open_iff (some at) t P e = (λ h. inl (λ n. cc), λ h. refl)

module _ (c : Customer) (states : List CustomerVersionState) (asked : Option String) where
  -- The entry is none of the customer's concern in this query, or its row does not block.
  abbrev pub Permits : CurrentVersionEntry → Type 0
  Permits entry =
      includes c.roles entry.document.audience ≡ true
      → IsAsked asked entry.document.audience
      → IsFree (state_for c states entry.version)

  visit_compliant :
      (entry : CurrentVersionEntry) (tally : Tally)
      → ((visit c states (relevant_audiences c asked) tally entry).1 ≡ true)
        ↔ ((tally.1 ≡ true) × Permits entry)
  unfolding visit
  visit_compliant entry tally =
      let r = relevant_audiences_iff c asked entry.document.audience in
      let a = allows_iff (state_for c states entry.version) in
      elim (Bool-cases (includes (relevant_audiences c asked) entry.document.audience)) [
        | inl t ↦ rw t (
          λ h. (ground arith, λ p q. a.0 (ground arith)),
          λ h. ground (arith, a.1 (h.1 (r.0 t).0 (r.0 t).1)),
        )
        | inr f ↦ rw f (λ h. (h, λ p q. absurd (false≢true (sym f ∙ r.1 (p, q)))), λ h. h.0)
      ]

  visit_all_compliant :
      (entries : List CurrentVersionEntry) (tally : Tally)
      → ((visit_all c states (relevant_audiences c asked) entries tally).1 ≡ true)
        ↔ ((tally.1 ≡ true) × All Permits entries)
  unfolding visit_all
  visit_all_compliant [] tally = (λ h. (h, tt), λ h. h.0)
  visit_all_compliant (entry ∷ entries) tally =
      let one = visit_compliant entry tally in
      let rest =
        visit_all_compliant entries (visit c states (relevant_audiences c asked) tally entry) in
      (
        λ h. ((one.0 (rest.0 h).0).0, ((one.0 (rest.0 h).0).1, (rest.0 h).1)),
        λ h. rest.1 (one.1 (h.0, h.1.0), h.1.1),
      )

  -- The gate opens exactly for a deleted customer, and for one whom no current version concerns and
  -- blocks: neither by EXPIRED_BLOCKING nor by a carried-over block, among the documents of the
  -- customer's audiences that the query asks for. A version without a row does not block.
  pub compute_compliance_iff :
      (entries : List CurrentVersionEntry)
      → ((compute_compliance c entries states asked).compliant ≡ true)
        ↔ ((c.deleted_at ≢ none) ⊎ All Permits entries)
  compute_compliance_iff entries = rw (compliant_eq c entries states asked) (
      open_iff c.deleted_at _ (All Permits entries)
        ((λ h. (all_of.0 h).1), λ h. all_of.1 (refl, h)))
    where
      all_of :
          ((visit_all c states (relevant_audiences c asked) entries ([], true)).1 ≡ true)
          ↔ ((true ≡ true) × All Permits entries)
      all_of = visit_all_compliant entries ([], true)
