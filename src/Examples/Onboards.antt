-- ===== src/Examples/Onboards.antt =====
-- Customers that are stored and pushed, at concrete inputs.
use Prim.Native.String.append
use clickwrap.Prelude.{
  ℕ, zero, suc, ap, codes, ◌+◌, length, ◌<>◌, includes, Bool-cases, ◌==◌, arith, ◌≡◌, refl, ◌⊎◌,
  inl, inr, Bool, String, true, false, Option, none, some, [], ◌∷◌, List, String_eq, In,
}
use clickwrap.Prelude.Dict.{get, values}
use clickwrap.Domain.Errors.{ok, err, invalid_state}
use clickwrap.Domain.Types.{EventActorKind, CustomerVersionState, Customer, AgreementVersion}
use clickwrap.Store.Customers
use clickwrap.Runtime.{World, Env}
use clickwrap.Runtime.Exec.{Exec, pure}
use clickwrap.Onboarding.Checks.{assert_external_ref_unique, is_email}
use clickwrap.Onboarding.Checks.Overlap.{IsUnambiguous, assert_external_ref_unique-save}
use clickwrap.Onboarding.Creation.{customer_of, updated}
use clickwrap.Onboarding.Inbound.{
  UpsertByExternalRefInput, diff_inbound, upsert_checks, resolve_by_external_ref_and_roles,
  upsert_by_external_ref,
}
use clickwrap.Onboarding.Inbound.Again.{upsert_by_external_ref_again}
use clickwrap.Onboarding.Rollout.Kept.{IsLeft}
use clickwrap.Onboarding.Rollout.{Trigger, rollout_versions, roll_out_documents}
use clickwrap.Onboarding.Rollout.Complete.{
  row_id, is_ok, HasRow, IsFresh, roll_out_documents-HasRow,
}
use clickwrap.Examples.{
  demo_env, demo_actor, demo_world, active_version, passive_version, fresh_row, terms, tenant,
}

abbrev known : Customers.Customers
known = ("c-1", tenant) ∷ []

-- The same external reference in another audience.
abbrev partner : Customer
partner = record tenant { id = "c-2"; roles = "partner" ∷ [] }

same_row : (a b : Customer) → In a (values known) → In b (values known) → a.id ≡ b.id
same_row a b (inl p) (inl q) = cc
same_row a b (inl p) (inr n) = elim n [ ]
same_row a b (inr n) m = elim n [ ]

known-IsUnambiguous : IsUnambiguous known
known-IsUnambiguous = record { same = λ a b m n e o. same_row a b m n }

partner-passes : assert_external_ref_unique known partner.external_ref partner.roles none ≡ ok tt
unfolding Customers.find_all_by_external_ref assert_external_ref_unique clickwrap.Prelude.find
    clickwrap.Prelude.includes clickwrap.Prelude.keep
partner-passes = refl

assert_external_ref_unique-save_example : IsUnambiguous (Customers.save known partner)
assert_external_ref_unique-save_example =
    assert_external_ref_unique-save known partner none known-IsUnambiguous (inl refl) partner-passes

twin-is-refused :
    assert_external_ref_unique known "x-1" ("partner" ∷ "tenant" ∷ []) none ≡ err invalid_state
unfolding Customers.find_all_by_external_ref assert_external_ref_unique clickwrap.Prelude.find
    clickwrap.Prelude.includes clickwrap.Prelude.keep
twin-is-refused = refl

addresses :
    (is_email "ada@example.org" ≡ true)
    × (is_email "ada@example" ≡ false)
    × (is_email "a b@x.y" ≡ false)
unfolding is_email
addresses = (refl, refl, refl)

abbrev push : UpsertByExternalRefInput
push = record {
  external_ref = "x-1";
  first_name = some "Ada";
  last_name = none;
  company_name = some "King Ltd";
  contact_emails = "ada@example.org" ∷ [];
  roles = "tenant" ∷ [];
  source = none;
}

abbrev any_order : String → String → Bool
any_order a b = true

abbrev no_mail : Customer → AgreementVersion → Exec (Unit {0})
no_mail customer version = pure tt

abbrev push_world : World
push_world = demo_world (active_version ∷ []) []

-- The tenant, with other names.
abbrev ada_world : World
ada_world = record push_world {
  customers = ("c-1", tenant) ∷ [];
  audiences = ("aud-1", record { id = "aud-1"; key = "tenant"; name = "Tenant" }) ∷ [];
}

abbrev ada_done : World
ada_done = (upsert_by_external_ref demo_env any_order no_mail push demo_actor ada_world).1

abbrev ada : Customer
ada = updated tenant (diff_inbound any_order tenant push)

ada-pushed :
    upsert_by_external_ref demo_env any_order no_mail push demo_actor ada_world ≡ (ok ada, ada_done)
unfolding Customers.find_all_by_external_ref Customers.find_by_id
    clickwrap.Onboarding.Checks.assert_emails_valid clickwrap.Onboarding.Checks.assert_roles_known
    clickwrap.Onboarding.Creation.update clickwrap.Prelude.Sort.sort clickwrap.Prelude.find
    clickwrap.Prelude.keep clickwrap.Prelude.trim clickwrap.Runtime.Audit.audit_now
    clickwrap.Runtime.Recorder.record_event clickwrap.Store.Entities.find_audience diff_inbound get
    includes upsert_by_external_ref
ada-pushed = refl

ada-passes : upsert_checks ada_done push ≡ ok tt
unfolding Customers.find_all_by_external_ref Customers.find_by_id
    clickwrap.Onboarding.Checks.assert_emails_valid clickwrap.Onboarding.Checks.assert_roles_known
    clickwrap.Onboarding.Creation.update clickwrap.Prelude.Sort.sort clickwrap.Prelude.find
    clickwrap.Prelude.keep clickwrap.Prelude.trim clickwrap.Runtime.Audit.audit_now
    clickwrap.Runtime.Recorder.record_event clickwrap.Store.Entities.find_audience diff_inbound get
    includes upsert_by_external_ref upsert_checks
ada-passes = refl

ada-resolved : resolve_by_external_ref_and_roles ada_done "x-1" ("tenant" ∷ []) ≡ some ada
unfolding Customers.find_all_by_external_ref Customers.find_by_id Customers.save
    assert_external_ref_unique clickwrap.Domain.Customers.customer_display_name
    clickwrap.Domain.Lifecycle.rollout_deadline_for clickwrap.Onboarding.Checks.assert_emails_valid
    clickwrap.Onboarding.Checks.assert_roles_known clickwrap.Onboarding.Creation.create
    clickwrap.Onboarding.Creation.create_checks clickwrap.Onboarding.Creation.save_customer
    clickwrap.Onboarding.Creation.update clickwrap.Onboarding.Creation.update_checks
    clickwrap.Onboarding.Imports.import_acceptance clickwrap.Onboarding.Imports.import_all
    clickwrap.Onboarding.Imports.import_checks clickwrap.Onboarding.Imports.merge_imports
    clickwrap.Onboarding.Imports.validate_imports clickwrap.Onboarding.Inbound.create_inbound
    clickwrap.Onboarding.Inbound.reactivate clickwrap.Onboarding.Inbound.same_string_set
    clickwrap.Onboarding.Inbound.upsert_existing clickwrap.Onboarding.Inbound.upsert_found
    clickwrap.Onboarding.Rollout.notify_rolled_out clickwrap.Onboarding.Rollout.roll_out_document
    clickwrap.Onboarding.Rollout.roll_out_version clickwrap.Onboarding.Rollout.roll_out_versions
    clickwrap.Onboarding.Rollout.rollout_current_versions
    clickwrap.Onboarding.Signing.resolve_effective_version_at
    clickwrap.Onboarding.Signing.resolve_signed_documents clickwrap.Onboarding.Signing.sign_roles
    clickwrap.Onboarding.Signing.sign_types clickwrap.Prelude.Dict.set
    clickwrap.Prelude.Scan.drop_while clickwrap.Prelude.Scan.take_while
    clickwrap.Prelude.Sort.insert clickwrap.Prelude.Sort.sort clickwrap.Prelude.find
    clickwrap.Prelude.is_space clickwrap.Prelude.keep clickwrap.Prelude.trim
    clickwrap.Prelude.trim_end clickwrap.Prelude.trim_start clickwrap.Runtime.Audit.append_audit
    clickwrap.Runtime.Audit.audit_now clickwrap.Runtime.Exec.for_each_isolated
    clickwrap.Runtime.Exec.new_id clickwrap.Runtime.Exec.now clickwrap.Runtime.Recorder.record_event
    clickwrap.Runtime.Recorder.resolve_denormalized clickwrap.Services.Acceptance.Checks.required
    clickwrap.Services.Acceptance.append_acceptance clickwrap.Store.Acceptances.append
    clickwrap.Store.Acceptances.effective_for clickwrap.Store.Documents.find_all
    clickwrap.Store.Documents.find_by_id clickwrap.Store.Documents.find_by_type_and_audience
    clickwrap.Store.Entities.find_audience clickwrap.Store.States.find_by_customer_and_version
    clickwrap.Store.States.save clickwrap.Store.Versions.find_by_document
    clickwrap.Store.Versions.find_by_id clickwrap.Store.Versions.find_current_published
    clickwrap.Store.Versions.find_upcoming_published_list clickwrap.Store.Versions.newest_first
    clickwrap.Store.Versions.soonest_first diff_inbound get includes is_email
    resolve_by_external_ref_and_roles roll_out_documents rollout_versions updated
    upsert_by_external_ref upsert_checks
ada-resolved = refl

upsert_by_external_ref_again_example :
    upsert_by_external_ref demo_env any_order no_mail push demo_actor ada_done ≡ (ok ada, ada_done)
unfolding get
upsert_by_external_ref_again_example =
    upsert_by_external_ref_again demo_env any_order no_mail push demo_actor ada_world ada_done ada
      (refl, tt) (refl, tt) ada-pushed ada-passes ada-resolved

-- Ids that differ.
strokes : ℕ → String
strokes zero = ""
strokes (suc n) = "i" <> strokes n

abbrev stroke_env : Env
stroke_env = record demo_env { uuid = strokes }

length-codes : (s t : String) → length (codes (s <> t)) ≡ length (codes s) + length (codes t)
length-codes String.[] t = omega (arith, ap (λ u. length (codes u)) (append.nil t))
length-codes (String.◌∷◌ c s) t =
    omega (arith, ap (λ u. length (codes u)) (append.cons c s t), length-codes s t)

length-strokes : (n : ℕ) → length (codes (strokes n)) ≡ n
unfolding strokes
length-strokes zero = refl
length-strokes (suc n) = omega (arith, length-codes "i" (strokes n), length-strokes n)

-- The row of another version is there already.
abbrev old_row : CustomerVersionState
old_row = record (fresh_row passive_version) { id = "old" }

abbrev rollout_world : World
rollout_world = record (demo_world (active_version ∷ []) []) { states = ("old", old_row) ∷ [] }

length-row_id : (n : ℕ) → length (codes (row_id stroke_env n)) ≡ 4 + n
length-row_id n =
    omega
      (arith, length-strokes n, length-codes "-" (strokes n), length-codes "cvs" ("-" <> strokes n))

old-is-apart : (n : ℕ) → ("old" == row_id stroke_env n) ≡ false
old-is-apart n = elim (Bool-cases ("old" == row_id stroke_env n)) [
  | inr f ↦ f
  | inl t ↦
      let same = ap (λ s. length (codes s)) ((String_eq.beq_iff "old" (row_id stroke_env n)).0 t) in
      absurd (omega (arith, same, length-row_id n))
]

strokes_apart : (i j : ℕ) → row_id stroke_env i ≡ row_id stroke_env j → i ≡ j
strokes_apart i j h =
    let same = ap (λ s. length (codes s)) h in omega (arith, same, length-row_id i, length-row_id j)

rollout-IsFresh : IsFresh stroke_env rollout_world
unfolding get
rollout-IsFresh = record { apart = strokes_apart; unused = λ n le. rw (old-is-apart n) refl }

abbrev demo_trigger : Trigger
demo_trigger = record { actor_kind = EventActorKind.admin; actor_label = "admin" }

for-tenants : includes tenant.roles terms.audience ≡ true
unfolding includes
for-tenants = refl

is-current : In active_version (rollout_versions rollout_world terms 2000)
unfolding clickwrap.Prelude.Sort.sort clickwrap.Prelude.find clickwrap.Prelude.keep
    clickwrap.Store.Documents.find_by_type_and_audience
    clickwrap.Store.Versions.find_current_published rollout_versions
is-current = inl refl

roll_out_documents-HasRow_example :
    (let after =
        roll_out_documents stroke_env demo_trigger tenant tenant.roles 2000
          (terms ∷ [])
          rollout_world in
      (is_ok after.0 ≡ true)
      × HasRow after.1 tenant active_version
      × IsLeft "old" rollout_world.states after.1.states)
roll_out_documents-HasRow_example =
    roll_out_documents-HasRow stroke_env demo_trigger tenant tenant.roles 2000 (terms ∷ []) terms
      active_version "old" rollout_world rollout-IsFresh (inl refl) for-tenants is-current
