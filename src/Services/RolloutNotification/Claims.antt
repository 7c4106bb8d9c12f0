-- ===== src/Services/RolloutNotification/Claims.antt =====
-- The claims and the calls of the notifier in sweeper/rollout-notification.service.ts.
use clickwrap.Prelude.{
  ℕ, ◌≡◌, refl, ap, sym, ◌∙◌, inl, inr, String, false, Option, none, some, List, [], ◌∷◌, arith,
  String_eq, Option-cases, Bool-cases, is_some, In,
}
use text.Mathlib.TextEquality.{eq_iff}
use clickwrap.Prelude.Dict.{get, get-set}
use clickwrap.Domain.Types.{AgreementVersion, Customer, CustomerVersionState}
use clickwrap.Store.Customers
use clickwrap.Store.States
use clickwrap.Store.States.{States, clear_notification_due}
use clickwrap.Runtime.{World}
use clickwrap.Runtime.Exec.{Exec}
use clickwrap.Services.RolloutNotification.{
  VersionCache, claim, notify_customer, notify_one, notify_all, run, remember,
}

-- The row under `id` waits for no mail.
abbrev pub IsClaimed : String → States → Type 0
IsClaimed id d = (s : CustomerVersionState) → get d id ≡ some s → s.notification_due_at ≡ none

-- The notifier leaves the rows of the customers alone, whether it throws or not.
abbrev pub IsQuiet : (Customer → AgreementVersion → Exec (Unit {0})) → Type 0
IsQuiet notify =
    (c : Customer) (v : AgreementVersion) (w : World) → (notify c v w).1.states ≡ w.states

clear-IsClaimed :
    (d : States) (id k : String) → IsClaimed k d → IsClaimed k (clear_notification_due d id)
unfolding clear_notification_due
clear-IsClaimed d id k h s g = elim (Option-cases (get d id)) [
  | inl e ↦ ground (arith, h s)
  | inr (t, e) ↦
      ground (arith, get-set d id k (record t { notification_due_at = none }), h s, eq_iff id k)
]

clear-claims : (d : States) (id : String) → IsClaimed id (clear_notification_due d id)
unfolding clear_notification_due
clear-claims d id s g = elim (Option-cases (get d id)) [
  | inl e ↦ ground arith
  | inr (t, e) ↦
      ground (arith, get-set d id id (record t { notification_due_at = none }), eq_iff id id)
]

-- The customer of some row of the batch that waits for no mail any more.
abbrev pub IsClaimedFor : List CustomerVersionState → Customer → World → Type 0
IsClaimedFor rows c w =
    (s : CustomerVersionState) × In s rows
    × (Customers.find_by_id w.customers s.customer_id ≡ some c)
    × IsClaimed s.id w.states

-- Two notifiers that do the same wherever the row was claimed before, and anything at all elsewhere.
abbrev pub IsAgreed :
    List CustomerVersionState
    → (notify other : Customer → AgreementVersion → Exec (Unit {0})) → Type 0
IsAgreed rows notify other =
    (c : Customer) (v : AgreementVersion) (w : World)
    → IsClaimedFor rows c w
    → notify c v w ≡ other c v w

module _ (notify other : Customer → AgreementVersion → Exec (Unit {0}))
    (batch : List CustomerVersionState) (agreed : IsAgreed batch notify other) where
  notify_customer-same :
      (v : Option AgreementVersion) (s : CustomerVersionState) (o : Option Customer) (w : World)
      → In s batch
      → Customers.find_by_id w.customers s.customer_id ≡ o
      → IsClaimed s.id w.states
      → notify_customer notify v o w ≡ notify_customer other v o w
  unfolding notify_customer
  notify_customer-same none s o w i e k = refl
  notify_customer-same (some v) s none w i e k = refl
  notify_customer-same (some v) s (some c) w i e k = elim (Bool-cases (is_some c.deleted_at)) [
    | inl t ↦ rw t refl
    | inr f ↦ rw f (ap (λ p. p.1) (agreed c v w (s, i, e, k)))
  ]

  notify_all-same :
      (rows : List CustomerVersionState) (cache : VersionCache) (w : World)
      → ((s : CustomerVersionState) → In s rows → In s batch)
      → notify_all notify rows cache w ≡ notify_all other rows cache w
  unfolding notify_all notify_one claim
  notify_all-same [] cache w h = refl
  notify_all-same (s ∷ rest) cache w h =
      let w1 = claim s w in
      let cache' = remember w1 s.version_id cache in
      let same : notify_one notify s cache' w1 ≡ notify_one other s cache' w1 =
        notify_customer-same _ s _ w1 (h s (inl refl)) refl (clear-claims w.states s.id) in
      notify_all-same rest cache' (notify_one notify s cache' w1) (λ t i. h t (inr i))
      ∙ ap (notify_all other rest cache') same

module _ (notify : Customer → AgreementVersion → Exec (Unit {0})) (quiet : IsQuiet notify) where
  notify_customer-states :
      (v : Option AgreementVersion) (c : Option Customer) (w : World)
      → (notify_customer notify v c w).states ≡ w.states
  unfolding notify_customer
  notify_customer-states none c w = refl
  notify_customer-states (some v) none w = refl
  notify_customer-states (some v) (some c) w = elim (Bool-cases (is_some c.deleted_at)) [
    | inl t ↦ rw t refl
    | inr f ↦ rw f (quiet c v w)
  ]

  notify_one-states :
      (s : CustomerVersionState) (cache : VersionCache) (w : World)
      → (notify_one notify s cache w).states ≡ w.states
  unfolding notify_one
  notify_one-states s cache w = notify_customer-states _ _ w

  notify_all-IsClaimed :
      (rows : List CustomerVersionState) (cache : VersionCache) (id : String) (w : World)
      → IsClaimed id w.states
      → IsClaimed id (notify_all notify rows cache w).states
  unfolding notify_all claim
  notify_all-IsClaimed [] cache id w h = h
  notify_all-IsClaimed (s ∷ rest) cache id w h =
      let w1 = claim s w in
      let cache' = remember w1 s.version_id cache in
      let e = notify_one-states s cache' w1 in
      notify_all-IsClaimed rest cache' id (notify_one notify s cache' w1)
        (λ t g. clear-IsClaimed w.states s.id id h t (ap (λ d. get d id) (sym e) ∙ g))

  notify_all-claims :
      (rows : List CustomerVersionState) (cache : VersionCache) (w : World)
      (s : CustomerVersionState)
      → In s rows
      → IsClaimed s.id (notify_all notify rows cache w).states
  unfolding notify_all claim
  notify_all-claims [] cache w s i = elim i [ ]
  notify_all-claims (r ∷ rest) cache w s i =
      let w1 = claim r w in
      let cache' = remember w1 r.version_id cache in
      let w2 = notify_one notify r cache' w1 in
      let e = notify_one-states r cache' w1 in
      elim i [
        | inl p ↦
            let done : IsClaimed r.id (notify_all notify rest cache' w2).states =
              notify_all-IsClaimed rest cache' r.id w2
                (λ t g. clear-claims w.states r.id t (ap (λ d. get d r.id) (sym e) ∙ g)) in
            let q : s.id ≡ r.id = ground (arith, p) in
            λ t g. done t (ap (get (notify_all notify rest cache' w2).states) (sym q) ∙ g)
        | inr j ↦ notify_all-claims rest cache' w2 s j
      ]

  -- Whatever the notifier throws, the row of each entry of the batch has no time of notification when the
  -- run is over. The notifier is called only after the claim: a run is the same with any other notifier
  -- that agrees with it on the states in which a row of the batch, of the customer that the call is
  -- about, has no time of notification any more.
  pub run-claims :
      (other : Customer → AgreementVersion → Exec (Unit {0})) (batch_size : ℕ) (w : World)
      (s t : CustomerVersionState)
      → IsAgreed (States.find_due_for_notification w.states batch_size) notify other
      → In s (States.find_due_for_notification w.states batch_size)
      → get (run notify false batch_size w).states s.id ≡ some t
      → (t.notification_due_at ≡ none)
        × (run notify false batch_size w ≡ run other false batch_size w)
  unfolding run
  run-claims other batch_size w s t agreed i g =
      let batch = States.find_due_for_notification w.states batch_size in
      (
        notify_all-claims batch [] w s i t g,
        notify_all-same notify other batch agreed batch [] w (λ x j. j),
      )
