-- ===== src/Store/Acceptances/Unique.antt =====
-- One effective acceptance for each customer and version, and no evidence lost.
use clickwrap.Prelude.{
  ◌≡◌, refl, ap, ◌≢◌, ◌⊎◌, String, Bool, false, ◌&&◌, none, some, [], ◌∷◌, arith, ◌==◌, String_eq,
  find, Option-cases, inl, inr, if◌then◌else◌,
}
use text.Mathlib.TextEquality.{eq_iff}
use clickwrap.Prelude.Dict.{values, get, set, has, get-set, get-set_self}
use clickwrap.Prelude.Dict.Distinct.{IsApart, IsWritable, IsTable, set-IsTable, get-IsById}
use clickwrap.Domain.Errors.{ok}
use clickwrap.Domain.Types.{Acceptance}
use clickwrap.Store.Acceptances.{Acceptances, effective_for, append, supersede}

-- Both effective, for the same customer and version.
abbrev pub is_rival : Acceptance → Acceptance → Bool
is_rival a b =
    a.is_effective
    && b.is_effective
    && a.customer_id == b.customer_id
    && a.version_id == b.version_id

-- Ids are unique, and no two effective acceptances are for the same customer and version.
abbrev pub IsUnique : Acceptances → Type 0
IsUnique acceptances = IsTable (λ (a : Acceptance). a.id) is_rival acceptances

is_effective_for : String → String → Acceptance → Bool
is_effective_for customer_id version_id a =
    a.customer_id == customer_id && a.version_id == version_id && a.is_effective

IsApart-of-other :
    (v a : Acceptance)
    → (v.is_effective ≡ false) ⊎ (is_effective_for v.customer_id v.version_id a ≡ false)
    → IsApart is_rival v a
unfolding is_effective_for
IsApart-of-other v a h = ground (
  arith,
  eq_iff a.customer_id v.customer_id,
  eq_iff v.customer_id a.customer_id,
  eq_iff a.version_id v.version_id,
  eq_iff v.version_id a.version_id,
)

-- An acceptance may be written if it is not effective, or if no effective one is found.
IsWritable-of-none :
    (d : Acceptances) (k : String) (v : Acceptance)
    → (v.is_effective ≡ false)
      ⊎ (find (is_effective_for v.customer_id v.version_id) (values d) ≡ none)
    → IsWritable is_rival d k v
unfolding find
IsWritable-of-none [] k v h = tt
IsWritable-of-none ((j, a) ∷ d) k v h =
    (λ f. IsApart-of-other v a (ground arith), IsWritable-of-none d k v (ground arith))

-- An append that returns keeps one effective acceptance for each customer and version.
pub append-IsUnique :
    (d d' : Acceptances) (a : Acceptance) → IsUnique d → append d a ≡ ok d' → IsUnique d'
unfolding append effective_for is_effective_for
append-IsUnique d d' a u h =
    let p : d' ≡ set d a.id a = ground arith in
    rw p (set-IsTable (λ b. b.id) is_rival d a u (IsWritable-of-none d a.id a (ground arith)))

-- A correction that returns keeps it too.
pub supersede-IsUnique :
    (d : Acceptances) (id by : String) (r : Acceptances × Acceptance)
    → IsUnique d
    → supersede d id by ≡ ok r
    → IsUnique r.0
unfolding supersede
supersede-IsUnique d id by r u h = elim (Option-cases (get d id)) [
  | inl e ↦ ground arith
  | inr (a, e) ↦
      let same : id ≡ a.id = get-IsById (λ b. b.id) d id u.by_id e in
      let b : Acceptance = record a {
        is_effective = false;
        superseded_by_acceptance_id = some by;
      } in
      let p : r.0 ≡ set d a.id b = ground arith in
      rw p (set-IsTable (λ c. c.id) is_rival d b u (IsWritable-of-none d b.id b (inl refl)))
]

-- The store only grows: an append that returns leaves every stored acceptance as it was, and stores
-- the new one under an id that was free.
pub append_only :
    (d d' : Acceptances) (a b : Acceptance) (k : String)
    → append d a ≡ ok d'
    → get d k ≡ some b
    → (get d' k ≡ some b) × (get d' a.id ≡ some a) × (k ≢ a.id)
unfolding append
append_only d d' a b k h g =
    let p : d' ≡ set d a.id a = ground arith in
    let q : has d a.id ≡ false = ground arith in
    let n : k ≢ a.id = λ e. ground (arith, ap (get d) e) in
    (rw p (ground (arith, get-set d a.id k a, eq_iff a.id k)), rw p (get-set_self d a.id a), n)

-- A correction changes of the whole store just the two columns of the corrected acceptance.
pub supersede_lem :
    (d : Acceptances) (id by k : String) (r : Acceptances × Acceptance)
    → supersede d id by ≡ ok r
    → (a : Acceptance) × (get d id ≡ some a)
      × (get r.0 k ≡ (
          if id == k
          then some (record a { is_effective = false; superseded_by_acceptance_id = some by })
          else get d k))
unfolding supersede
supersede_lem d id by k r h = elim (Option-cases (get d id)) [
  | inl e ↦ ground arith
  | inr (a, e) ↦
      let b : Acceptance = record a {
        is_effective = false;
        superseded_by_acceptance_id = some by;
      } in
      let p : r.0 ≡ set d id b = ground arith in (a, e, rw p (get-set d id k b))
]
