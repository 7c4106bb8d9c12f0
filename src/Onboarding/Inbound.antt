-- ===== src/Onboarding/Inbound.antt =====
-- customers/customer-admin.service.ts: customers that another system pushes, `upsertByExternalRef` and
-- `deactivateByExternalRef`. The order by which texts are sorted is the argument `is_before`.
pub mod Differences
pub mod Again
use clickwrap.Prelude.{
  ℕ, Bool, true, false, not, ◌&&◌, String, String_eq, ◌==◌, ◌<>◌, Option, none, some, List, [], ◌∷◌,
  includes, find, is_none, is_some, nat_eq, length, or_else, trim, if◌then◌else◌,
}
use clickwrap.Prelude.Sort.{sort}
use clickwrap.Domain.Errors
use clickwrap.Domain.Errors.{Result, ok, err, invalid_state}
use clickwrap.Domain.Types.{
  Customer, Actor, system, administration, text, text?, flag, customer_updated, customer_deleted,
  AgreementVersion,
}
use clickwrap.Domain.Consent.{require}
use clickwrap.Domain.Customers.{customer_display_name}
use clickwrap.Store.Customers
use clickwrap.Runtime.{World, Env}
use clickwrap.Runtime.Exec.{Exec, pure, modify, gets, query, ◌>>=◌, ◌>>◌, now}
use clickwrap.Runtime.Recorder.{EventInput, event_input, record_event}
use clickwrap.Onboarding.Checks.{
  assert_roles_known, assert_emails_valid, assert_external_ref_unique, overlaps, text_or,
}
use clickwrap.Onboarding.Creation.{
  CreateCustomerInput, UpdateCustomerInput, by_integration, create, update, save_customer,
}

pub record UpsertByExternalRefInput : Type 0 where
  pub external_ref : String
  pub first_name : Option String
  pub last_name : Option String
  pub company_name : Option String
  pub contact_emails : List String
  pub roles : List String
  pub source : Option String

abbrev pub default_inbound_source : String
default_inbound_source = "external"

abbrev pub same_texts : List String → List String → Bool
same_texts [] [] = true
same_texts [] (b ∷ bs) = false
same_texts (a ∷ rest) [] = false
same_texts (a ∷ rest) (b ∷ bs) = a == b && same_texts rest bs

unfoldable pub same_string_set : (String → String → Bool) → (a b : List String) → Bool
same_string_set is_before a b =
    if nat_eq (length a) (length b) then same_texts (sort is_before a) (sort is_before b) else false

abbrev pub same_text : Option String → Option String → Bool
same_text none none = true
same_text none (some b) = false
same_text (some a) none = false
same_text (some a) (some b) = a == b

-- A field of the changes: not set if the values are the same.
abbrev pub change {ℓ} : {A : Type ℓ} → Bool → A → Option A
change true value = none
change false value = some value

unfoldable pub diff_inbound :
    (String → String → Bool) → Customer → UpsertByExternalRefInput → UpdateCustomerInput
unfolding same_string_set
diff_inbound is_before existing input =
    let first_name = or_else input.first_name "" in
    let last_name = or_else input.last_name "" in
    let company_name = text_or input.company_name none in
    record {
      first_name = change (first_name == existing.first_name) first_name;
      last_name = change (last_name == existing.last_name) last_name;
      company_name =
          change (same_text company_name existing.company_name) (or_else company_name "");
      roles = change (same_string_set is_before input.roles existing.roles) input.roles;
      contact_emails =
          change (same_string_set is_before input.contact_emails existing.contact_emails)
            input.contact_emails;
    }

-- `Object.keys(changes).length === 0`
abbrev pub is_unchanged : UpdateCustomerInput → Bool
is_unchanged changes =
    is_none changes.first_name
    && is_none changes.last_name
    && is_none changes.company_name
    && is_none changes.roles
    && is_none changes.contact_emails

unfoldable pub upsert_checks : World → UpsertByExternalRefInput → Result (Unit {0})
upsert_checks w input =
    Errors.◌>>◌ (require (not (trim input.external_ref == "")) invalid_state)
      (Errors.◌>>◌ (assert_roles_known w input.roles) (assert_emails_valid input.contact_emails))

unfoldable pub resolve_by_external_ref_and_roles : World → String → List String → Option Customer
resolve_by_external_ref_and_roles w external_ref roles =
    find (λ (c : Customer). overlaps c.roles roles)
      (Customers.find_all_by_external_ref w.customers external_ref)

abbrev pub new_customer : UpsertByExternalRefInput → CreateCustomerInput
new_customer input = record {
  external_ref = input.external_ref;
  first_name = input.first_name;
  last_name = input.last_name;
  company_name = input.company_name;
  roles = input.roles;
  contact_emails = input.contact_emails;
  accepted_versions = [];
  signed_documents = none;
  source = text_or input.source (some default_inbound_source);
}

abbrev pub reactivated : Customer → UpsertByExternalRefInput → Customer
reactivated existing input = record existing {
  deleted_at = none;
  first_name = or_else input.first_name "";
  last_name = or_else input.last_name "";
  company_name = text_or input.company_name none;
  contact_emails = input.contact_emails;
  roles = input.roles;
}

pub reactivated_event : Customer → Actor → EventInput
reactivated_event saved actor =
    record (event_input customer_updated administration system actor.user_id (
      "Customer "
      <> customer_display_name saved
      <> " reactivated (re-pushed to source "
      <> or_else saved.source "undefined"
      <> ")")) {
        customer_id = some saved.id;
        customer_name = some (customer_display_name saved);
        metadata = some (
            ("source", text? saved.source)
            ∷ ("externalRef", text saved.external_ref)
            ∷ ("reactivated", flag true)
            ∷ []);
      }

deactivated_event : Customer → String → Actor → EventInput
deactivated_event existing audience actor =
    record (event_input customer_deleted administration system actor.user_id (
      "Customer "
      <> customer_display_name existing
      <> " deactivated (removed for audience "
      <> audience
      <> ")")) {
        customer_id = some existing.id;
        customer_name = some (customer_display_name existing);
        metadata =
            some (("audience", text audience) ∷ ("externalRef", text existing.external_ref) ∷ []);
      }

module _ (env : Env) where
  unfoldable pub reactivate : Customer → UpsertByExternalRefInput → Actor → Exec Customer
  unfolding reactivated_event save_customer
  reactivate existing input actor = do
    query (λ w.
        assert_external_ref_unique w.customers existing.external_ref input.roles (some existing.id))
    save_customer (reactivated existing input)
    record_event env (reactivated_event (reactivated existing input) actor)
    pure (reactivated existing input)

  deactivate : Option Customer → String → Actor → Exec (Unit {0})
  unfolding deactivated_event
  deactivate none audience actor = pure tt
  deactivate (some existing) audience actor = do
    at ← now env
    modify (λ w. record w { customers = Customers.soft_delete w.customers existing.id at })
    record_event env (deactivated_event existing audience actor)

  unfoldable pub deactivate_by_external_ref :
      (external_ref audience : String) → Actor → Exec (Unit {0})
  unfolding deactivate
  deactivate_by_external_ref external_ref audience actor w =
      deactivate
        (find (λ (c : Customer). is_none c.deleted_at && includes c.roles audience)
          (Customers.find_all_by_external_ref w.customers external_ref))
        audience actor w

  module _ (is_before : String → String → Bool)
      (notify_version_published : Customer → AgreementVersion → Exec (Unit {0})) where
    -- A customer that is there: reactivated, changed, or left alone.
    unfoldable pub upsert_existing : Customer → UpsertByExternalRefInput → Actor → Exec Customer
    unfolding reactivate
    upsert_existing existing input actor =
        let changes = diff_inbound is_before existing input in
        if is_some existing.deleted_at
        then reactivate existing input actor
        else if is_unchanged changes
        then pure existing
        else update env notify_version_published existing.id changes actor by_integration

    unfoldable pub create_inbound : UpsertByExternalRefInput → Actor → Exec Customer
    create_inbound input actor = do
      made ← create env notify_version_published (new_customer input) actor by_integration
      pure made.0

    unfoldable pub upsert_found : Option Customer → UpsertByExternalRefInput → Actor → Exec Customer
    unfolding upsert_existing create_inbound
    upsert_found none input actor = create_inbound input actor
    upsert_found (some existing) input actor = upsert_existing existing input actor

    unfoldable pub upsert_by_external_ref : UpsertByExternalRefInput → Actor → Exec Customer
    unfolding upsert_found upsert_checks resolve_by_external_ref_and_roles
    upsert_by_external_ref input actor = do
      query (λ w. upsert_checks w input)
      existing ← gets (λ w. resolve_by_external_ref_and_roles w input.external_ref input.roles)
      upsert_found existing input actor
