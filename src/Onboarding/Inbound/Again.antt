-- ===== src/Onboarding/Inbound/Again.antt =====
-- A push (`upsertByExternalRef`) that is sent twice.
use mathlib.Core.Path.{subst}
use clickwrap.Prelude.{
  ◌≡◌, refl, sym, ap, ◌∙◌, inl, inr, Bool, true, String, String_eq, ◌==◌, Option, none, some, List,
  [], arith, is_some, false, length, find-In, keep, keep-In, Bool-cases,
}
use clickwrap.Prelude.Dict.{values, IsKeyed}
use clickwrap.Prelude.Dict.Distinct.{IsById, In-get}
use clickwrap.Domain.Errors.{ok, customer_not_found}
use clickwrap.Domain.Types.{Customer, Actor, AgreementVersion}
use clickwrap.Store.Customers
use clickwrap.Runtime.{World, Env}
use clickwrap.Runtime.Recorder.{record_event}
use clickwrap.Runtime.Exec.{pure, new_id, Exec, bind-ok, bind-through, fetch-ok, query}
use clickwrap.Onboarding.Checks.{overlaps, assert_external_ref_unique}
use clickwrap.Onboarding.Imports.{ImportedAcceptance, validate_imports, merge_imports, import_all}
use clickwrap.Onboarding.Signing.{resolve_signed_documents}
use clickwrap.Onboarding.Rollout.{rollout_current_versions}
use clickwrap.Onboarding.Creation.{
  CreateCustomerInput, UpdateCustomerInput, CreateSource, by_integration, create_checks,
  customer_of, create, updated, update, update_checks, save_customer, kind_of, added_roles,
  record_created, roll_out_added, record_updated,
}
use clickwrap.Onboarding.Inbound.{
  UpsertByExternalRefInput, diff_inbound, is_unchanged, upsert_checks,
  resolve_by_external_ref_and_roles, new_customer, reactivated, reactivate, reactivated_event,
  upsert_existing, create_inbound, upsert_found, upsert_by_external_ref,
}
use clickwrap.Onboarding.Inbound.Differences.{diff-updated, diff-same}

-- Nothing is to be done on the row: it is not deleted, and has all that is pushed.
abbrev IsSettled : (String → String → Bool) → UpsertByExternalRefInput → Customer → Type 0
IsSettled is_before input r =
    (r.deleted_at ≡ none) × (is_unchanged (diff_inbound is_before r input) ≡ true)

resolved-stored :
    (w : World) (input : UpsertByExternalRefInput) (existing : Customer)
    → IsKeyed w.customers
    → IsById (λ (c : Customer). c.id) w.customers
    → resolve_by_external_ref_and_roles w input.external_ref input.roles ≡ some existing
    → Customers.find_by_id w.customers existing.id ≡ some existing
unfolding resolve_by_external_ref_and_roles Customers.find_all_by_external_ref Customers.find_by_id
resolved-stored w input existing keyed ids h =
    let m =
      find-In (λ (c : Customer). overlaps c.roles input.roles)
        (keep (λ c. c.external_ref == input.external_ref) (values w.customers)) h in
    let n = keep-In (λ c. c.external_ref == input.external_ref) (values w.customers) m.0 in
    In-get (λ (c : Customer). c.id) w.customers keyed ids n.0

module _ (env : Env) (is_before : String → String → Bool)
    (notify : Customer → AgreementVersion → Exec (Unit {0})) where
  -- What a creation returns is the customer of its input.
  create-customer :
      (input : CreateCustomerInput) (actor : Actor) (source : CreateSource) (w w' : World)
      (r : Customer × List ImportedAcceptance)
      → create env notify input actor source w ≡ (ok r, w')
      → (id : String) × (r.0 ≡ customer_of input id)
  unfolding create save_customer
  create-customer input actor source w w' r h =
      let checks = query (λ v. create_checks v input) in
      let (u, p, h1) = bind-ok checks _ w w' r h in
      let w1 = (checks w).1 in
      let validate = validate_imports env input.roles [] input.accepted_versions in
      let (validated, p2, h2) = bind-ok validate _ w1 w' r h1 in
      let w2 = (validate w1).1 in
      let sign = query (λ v. resolve_signed_documents v input.signed_documents input.roles) in
      let (signed, p3, h3) = bind-ok sign _ w2 w' r h2 in
      let w3 = (sign w2).1 in
      let (id, p4, h4) = bind-ok (new_id env "c") _ w3 w' r h3 in
      let w4 = (new_id env "c" w3).1 in
      let saved = customer_of input id in
      let w5 = (save_customer saved w4).1 in
      let import = import_all env saved.id (merge_imports validated signed) actor in
      let (imports, p6, h6) = bind-ok import _ w5 w' r h4 in
      let w6 = (import w5).1 in
      let roll_out =
        rollout_current_versions env notify saved saved.roles
          (record { actor_kind = kind_of source; actor_label = actor.user_id }) in
      let (count, p7, h7) = bind-ok roll_out _ w6 w' r h6 in
      let w7 = (roll_out w6).1 in
      let (u8, p8, h8) =
        bind-ok (record_created env notify saved (length imports) count source actor)
          (λ (u : Unit {0}). pure (saved, imports)) w7 w' r h7 in
      (id, ground (arith, h8))

  -- What an update returns is the stored row with the changes.
  update-updated :
      (existing : Customer) (input : UpdateCustomerInput) (actor : Actor) (source : CreateSource)
      (w w' : World) (r : Customer)
      → Customers.find_by_id w.customers existing.id ≡ some existing
      → update env notify existing.id input actor source w ≡ (ok r, w')
      → r ≡ updated existing input
  unfolding update save_customer
  update-updated existing input actor source w w' r e h =
      let (x, p, h1) =
        fetch-ok (λ v. Customers.find_by_id v.customers existing.id) customer_not_found _ w w' r
          h in
      let same : x ≡ existing = ground (arith, e, p) in
      let checks = query (λ v. update_checks v x input) in
      let (u2, p2, h2) = bind-ok checks _ w w' r h1 in
      let w2 = (checks w).1 in
      let saved = updated x input in
      let w3 = (save_customer saved w2).1 in
      let roll_out = roll_out_added env notify saved (added_roles x input.roles) actor in
      let (count, p4, h4) = bind-ok roll_out _ w3 w' r h2 in
      let w4 = (roll_out w3).1 in
      let (u5, p5, h5) =
        bind-ok (record_updated env notify saved count source actor) (λ (u : Unit {0}). pure saved)
          w4 w' r h4 in
      let made : updated x input ≡ r = ground (arith, h5) in
      sym made ∙ ap (λ c. updated c input) same

  reactivate-reactivated :
      (existing : Customer) (input : UpsertByExternalRefInput) (actor : Actor) (w w' : World)
      (r : Customer)
      → reactivate env existing input actor w ≡ (ok r, w')
      → r ≡ reactivated existing input
  unfolding reactivate save_customer
  reactivate-reactivated existing input actor w w' r h =
      let back = reactivated existing input in
      let checks = query (λ v.
        assert_external_ref_unique v.customers existing.external_ref input.roles
          (some existing.id)) in
      let (u1, p1, h1) = bind-ok checks _ w w' r h in
      let w1 = (checks w).1 in
      let w2 = (save_customer back w1).1 in
      let (u3, p3, h3) =
        bind-ok (record_event env (reactivated_event back actor)) (λ (u : Unit {0}). pure back) w2
          w' r h1 in
      ground (arith, h3)

  upsert_existing-IsSettled :
      (existing : Customer) (input : UpsertByExternalRefInput) (actor : Actor) (w w' : World)
      (r : Customer)
      → Customers.find_by_id w.customers existing.id ≡ some existing
      → upsert_existing env is_before notify existing input actor w ≡ (ok r, w')
      → IsSettled is_before input r
  unfolding upsert_existing
  upsert_existing-IsSettled existing input actor w w' r e h =
      let changes = diff_inbound is_before existing input in
      elim (Bool-cases (is_some existing.deleted_at)) [
        | inl gone ↦
            let made = reactivate-reactivated existing input actor w w' r (rw gone at h) in
            rw made (
              refl,
              diff-same is_before input (reactivated existing input) refl refl refl refl refl,
            )
        | inr there ↦
            let kept : existing.deleted_at ≡ none = ground (arith, there) in
            elim (Bool-cases (is_unchanged changes)) [
              | inl t ↦
                  let same : existing ≡ r = ground (arith, rw (there, t) at h) in
                  subst (IsSettled is_before input) same (kept, t)
              | inr f ↦
                  let made =
                    update-updated existing changes actor by_integration w w' r e
                      (rw (there, f) at h) in
                  rw made (unfold updated in kept, diff-updated is_before input existing)
            ]
      ]

  upsert_found-IsSettled :
      (o : Option Customer) (input : UpsertByExternalRefInput) (actor : Actor) (w w' : World)
      (r : Customer)
      → ((existing : Customer)
          → o ≡ some existing
          → Customers.find_by_id w.customers existing.id ≡ some existing)
      → upsert_found env is_before notify o input actor w ≡ (ok r, w')
      → IsSettled is_before input r
  unfolding upsert_found create_inbound
  upsert_found-IsSettled none input actor w w' r e h =
      let (made, p, h1) =
        bind-ok (create env notify (new_customer input) actor by_integration) _ w w' r h in
      let w1 = (create env notify (new_customer input) actor by_integration w).1 in
      let (id, q) =
        create-customer (new_customer input) actor by_integration w w1 made (ap (λ x. (x, w1)) p) in
      let same : r ≡ customer_of (new_customer input) id = ground (arith, h1, q) in
      rw same (
        refl,
        diff-same is_before input (customer_of (new_customer input) id) refl refl refl refl refl,
      )
  upsert_found-IsSettled (some existing) input actor w w' r e h =
      upsert_existing-IsSettled existing input actor w w' r (e existing refl) h

  settled-again :
      (r : Customer) (input : UpsertByExternalRefInput) (actor : Actor) (w : World)
      → IsSettled is_before input r
      → upsert_found env is_before notify (some r) input actor w ≡ (ok r, w)
  unfolding upsert_found upsert_existing
  settled-again r input actor w s =
      let there : is_some r.deleted_at ≡ false = ap is_some s.0 in rw (there, s.1) refl

  pub upsert_by_external_ref_again :
      (input : UpsertByExternalRefInput) (actor : Actor) (w w' : World) (r : Customer)
      → IsKeyed w.customers
      → IsById (λ (c : Customer). c.id) w.customers
      → upsert_by_external_ref env is_before notify input actor w ≡ (ok r, w')
      → upsert_checks w' input ≡ ok tt
      → resolve_by_external_ref_and_roles w' input.external_ref input.roles ≡ some r
      → upsert_by_external_ref env is_before notify input actor w' ≡ (ok r, w')
  unfolding upsert_by_external_ref
  upsert_by_external_ref_again input actor w w' r keyed ids h checks found =
      let (u, p, h1) = bind-ok (query (λ v. upsert_checks v input)) _ w w' r h in
      let settled =
        upsert_found-IsSettled (resolve_by_external_ref_and_roles w input.external_ref input.roles)
          input actor w w' r (λ existing e. resolved-stored w input existing keyed ids e) h1 in
      bind-through (query (λ v. upsert_checks v input)) _ w' w' tt _ (ap (λ x. (x, w')) checks) (
        ap (λ o. upsert_found env is_before notify o input actor w') found
        ∙ settled-again r input actor w' settled)
