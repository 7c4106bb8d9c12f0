-- ===== src/Services/LegalEntities/Steady.antt =====
-- What a reconciliation keeps, and when it writes nothing.
use clickwrap.Prelude.{
  ℕ, ◌+◌, ◌≡◌, refl, ap, ◌∙◌, ◌⊎◌, inl, inr, true, false, some, List, [], ◌∷◌, ◌==◌, String_eq, any,
  In, All, Bool-cases,
}
use clickwrap.Prelude.Dict.{values}
use clickwrap.Domain.Errors.{ok}
use clickwrap.Domain.Types.{Audience}
use clickwrap.Store.Entities.{find_audience}
use clickwrap.Store.Entities.References.{IsUnique}
use clickwrap.Runtime.{World, Env}
use clickwrap.Services.LegalEntities.{
  ConfigAudience, ReconcileCounts, no_counts, is_configured_audience, drop_audience,
  drop_audience_unless_named, drop_audiences, put_audience, put_audiences, reconcile_audiences,
}
use clickwrap.Services.LegalEntities.Deletions.{
  IsReferenced, IsDeletion-cases, not_spared, drop_audience-keeps,
}

abbrev IsKept : List ConfigAudience → World → Audience → Type 0
IsKept configured w a = IsReferenced w a ⊎ (is_configured_audience configured a ≡ true)

-- Being configured depends on the key alone.
configured_other :
    (configured : List ConfigAudience) (existing a : Audience)
    → is_configured_audience configured existing ≡ false
    → is_configured_audience configured a ≡ true
    → (existing.key == a.key) ≡ false
configured_other configured existing a f t = elim (Bool-cases (existing.key == a.key)) [
  | inl same ↦
      let e : existing.key ≡ a.key = (String_eq.beq_iff existing.key a.key).0 same in
      let same_test : is_configured_audience configured existing
          ≡ is_configured_audience configured a =
        ap (λ key. any (λ (c : ConfigAudience). c.key == key) configured) e in
      cc
  | inr other ↦ other
]

step_keeps :
    (configured : List ConfigAudience) (existing a : Audience) (counts : ReconcileCounts)
    (w : World)
    → IsUnique w.audiences
    → In a (values w.audiences)
    → IsKept configured w a
    → (let next = (drop_audience_unless_named configured existing counts w).1 in
        In a (values next.audiences)
        × IsUnique next.audiences
        × (next.documents ≡ w.documents)
        × (next.customers ≡ w.customers))
unfolding drop_audience_unless_named
step_keeps configured existing a counts w u m r =
    elim (Bool-cases (is_configured_audience configured existing)) [
      | inl named ↦ rw named (m, u, refl, refl)
      | inr unnamed ↦ rw unnamed (
          drop_audience-keeps counts existing a w u m (elim r [
            | inl ref ↦ inl ref
            | inr named ↦ inr (configured_other configured existing a unnamed named)
          ]))
    ]

-- The clean-up deletes no audience that the configuration names, that a document is for, or that a
-- customer has as a role, whatever rows it visits and in which order.
pub drop_audiences-keeps :
    (configured : List ConfigAudience) (rest : List Audience) (counts : ReconcileCounts)
    (a : Audience) (w : World)
    → IsUnique w.audiences
    → In a (values w.audiences)
    → IsKept configured w a
    → In a (values (drop_audiences configured rest counts w).1.audiences)
unfolding drop_audiences
drop_audiences-keeps configured [] counts a w u m r = m
drop_audiences-keeps configured (existing ∷ rest) counts a w u m r =
    let next = drop_audience_unless_named configured existing counts w in
    let (m1, u1, docs, people) = step_keeps configured existing a counts w u m r in
    drop_audiences-keeps configured rest next.0 a next.1 u1 m1 (rw (docs, people) r)

-- The store agrees with the configuration: each entry is there with its name, and what the configuration
-- does not name is still referred to.
pub record IsSteady (configured : List ConfigAudience) (w : World) : Type 0 where
  pub named :
      All
        (λ (c : ConfigAudience).
          (a : Audience) × (find_audience w.audiences c.key ≡ some a) × ((a.name == c.name) ≡ true))
        configured
  pub kept : All (λ a. IsKept configured w a) (values w.audiences)

abbrev pub only_kept : ℕ → ReconcileCounts
only_kept n = record { created = 0; updated = 0; kept = n; deleted = 0 }

drop_one_steady :
    (configured : List ConfigAudience) (existing : Audience) (n : ℕ) (w : World)
    → IsKept configured w existing
    → (k : ℕ) × (drop_audience_unless_named configured existing (only_kept n) w ≡ (only_kept k, w))
unfolding drop_audience_unless_named drop_audience
drop_one_steady configured existing n w r =
    elim (Bool-cases (is_configured_audience configured existing)) [
      | inl named ↦ (n, rw named refl)
      | inr unnamed ↦ elim r [
        | inr named ↦ cc
        | inl ref ↦ elim (IsDeletion-cases w existing.key) [
          | inl e ↦ (n + 1, rw unnamed (rw e refl))
          | inr del ↦ absurd (not_spared w existing del ref)
        ]
      ]
    ]

drop_steady :
    (configured : List ConfigAudience) (rest : List Audience) (n : ℕ) (w : World)
    → All (λ a. IsKept configured w a) rest
    → (k : ℕ) × (drop_audiences configured rest (only_kept n) w ≡ (only_kept k, w))
unfolding drop_audiences
drop_steady configured [] n w h = (n, refl)
drop_steady configured (existing ∷ rest) n w h =
    let (k, e) = drop_one_steady configured existing n w h.0 in
    let (j, f) = drop_steady configured rest k w h.1 in
    (j, ap (λ p. drop_audiences configured rest p.0 p.1) e ∙ f)

module _ (env : Env) where
  put_steady :
      (configured : List ConfigAudience) (counts : ReconcileCounts) (w : World)
      → All
          (λ (c : ConfigAudience).
            (a : Audience) × (find_audience w.audiences c.key ≡ some a)
            × ((a.name == c.name) ≡ true))
          configured
      → put_audiences env configured counts w ≡ (ok counts, w)
  unfolding put_audiences put_audience
  put_steady [] counts w h = refl
  put_steady (c ∷ rest) counts w h =
      let (a, e, same) = h.0 in rw e (rw same (put_steady rest counts w h.1))

  -- On a store that agrees with the configuration a reconciliation writes nothing: it creates, updates
  -- and deletes no audience, and counts the others as kept.
  pub reconcile_audiences-steady :
      (configured : List ConfigAudience) (w : World)
      → IsSteady configured w
      → (k : ℕ) × (reconcile_audiences env configured w ≡ (ok (only_kept k), w))
  unfolding reconcile_audiences
  reconcile_audiences-steady configured w h =
      let p = put_steady configured no_counts w h.named in
      let (k, q) = drop_steady configured (values w.audiences) 0 w h.kept in (k, rw p (rw q refl))
