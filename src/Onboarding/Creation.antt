-- ===== src/Onboarding/Creation.antt =====
-- customers/customer-admin.service.ts: `create` and `update`. They return the customer, of which the API
-- shows the row that `to_row` makes.
use clickwrap.Prelude.{
  ℕ, not, String, String_eq, ◌==◌, ◌<>◌, Option, none, some, List, [], ◌∷◌, includes, is_none, keep,
  length, or_else, trim,
}
use clickwrap.Domain.Errors
use clickwrap.Domain.Errors.{Result, ok, err, invalid_state, customer_not_found}
use clickwrap.Domain.Types.{
  Customer, Actor, EventActorKind, admin, system, administration, Metadata, text, texts, number,
  customer_create, customer_update, customer_created, customer_updated, AgreementVersion, EventType,
}
use clickwrap.Domain.Consent.{require}
use clickwrap.Domain.Customers.{customer_display_name}
use clickwrap.Store.Customers
use clickwrap.Runtime.{World, Env}
use clickwrap.Runtime.Exec.{Exec, pure, modify, fetch, query, ◌>>=◌, ◌>>◌, new_id}
use clickwrap.Runtime.Recorder.{EventInput, event_input, record_event}
use clickwrap.Runtime.Audit.{audit_now}
use clickwrap.Onboarding.Checks.{
  assert_roles_known, assert_emails_valid, assert_external_ref_unique, text_or,
}
use clickwrap.Onboarding.Imports.{
  AcceptedVersionImport, ImportedAcceptance, validate_imports, merge_imports, import_all,
}
use clickwrap.Onboarding.Signing.{SignedTypes, resolve_signed_documents}
use clickwrap.Onboarding.Rollout.{rollout_current_versions}

pub record CreateCustomerInput : Type 0 where
  pub external_ref : String
  pub first_name : Option String
  pub last_name : Option String
  pub company_name : Option String
  pub roles : List String
  pub contact_emails : List String
  pub accepted_versions : List AcceptedVersionImport
  pub signed_documents : Option SignedTypes
  pub source : Option String

pub record UpdateCustomerInput : Type 0 where
  pub first_name : Option String
  pub last_name : Option String
  pub company_name : Option String
  pub roles : Option (List String)
  pub contact_emails : Option (List String)

-- CustomerCreateSource
pub data CreateSource : Type 0 where
  by_admin by_integration : CreateSource

abbrev pub source_text : CreateSource → String
source_text by_admin = "admin"
source_text by_integration = "integration"

abbrev pub kind_of : CreateSource → EventActorKind
kind_of by_admin = admin
kind_of by_integration = system

unfoldable pub create_checks : World → CreateCustomerInput → Result (Unit {0})
create_checks w input = Errors.◌>>◌ (require (not (trim input.external_ref == "")) invalid_state) (
    Errors.◌>>◌ (assert_roles_known w input.roles) (
      Errors.◌>>◌ (assert_emails_valid input.contact_emails)
        (assert_external_ref_unique w.customers input.external_ref input.roles none)))

abbrev pub customer_of : CreateCustomerInput → String → Customer
customer_of input id = record {
  id = id;
  external_ref = input.external_ref;
  first_name = or_else input.first_name "";
  last_name = or_else input.last_name "";
  company_name = text_or input.company_name none;
  roles = input.roles;
  contact_emails = input.contact_emails;
  source = text_or input.source (some "manual");
  deleted_at = none;
}

-- The checks of the new roles, which leave the customer itself out.
role_checks : World → Customer → Option (List String) → Result (Unit {0})
role_checks w existing none = ok tt
role_checks w existing (some roles) =
    Errors.◌>>◌ (assert_roles_known w roles)
      (assert_external_ref_unique w.customers existing.external_ref roles (some existing.id))

email_checks : Option (List String) → Result (Unit {0})
email_checks none = ok tt
email_checks (some emails) = assert_emails_valid emails

unfoldable pub update_checks : World → Customer → UpdateCustomerInput → Result (Unit {0})
unfolding role_checks email_checks
update_checks w existing input =
    Errors.◌>>◌ (require (is_none existing.deleted_at) invalid_state)
      (Errors.◌>>◌ (role_checks w existing input.roles) (email_checks input.contact_emails))

abbrev pub new_company : Option String → Option String → Option String
new_company current none = current
new_company current (some name) = text_or (some name) none

unfoldable pub updated : Customer → UpdateCustomerInput → Customer
updated existing input = record existing {
  first_name = or_else input.first_name existing.first_name;
  last_name = or_else input.last_name existing.last_name;
  company_name = new_company existing.company_name input.company_name;
  roles = or_else input.roles existing.roles;
  contact_emails = or_else input.contact_emails existing.contact_emails;
}

abbrev pub added_roles : Customer → Option (List String) → List String
added_roles existing none = []
added_roles existing (some roles) = keep (λ role. not (includes existing.roles role)) roles

event_about : EventType → CreateSource → Actor → Customer → String → Metadata → EventInput
event_about type source actor saved verb metadata =
    record (event_input type administration (kind_of source) actor.user_id
      ("Customer " <> customer_display_name saved <> verb)) {
        customer_id = some saved.id;
        customer_name = some (customer_display_name saved);
        metadata = some metadata;
      }

unfoldable pub save_customer : Customer → Exec (Unit {0})
save_customer customer = modify (λ w. record w { customers = Customers.save w.customers customer })

module _ (env : Env)
    (notify_version_published : Customer → AgreementVersion → Exec (Unit {0})) where
  pub record_created : Customer → ℕ → ℕ → CreateSource → Actor → Exec (Unit {0})
  unfolding event_about
  record_created saved import_count rollout_states source actor = do
    audit_now env customer_create actor.user_id "Customer" saved.id none (
        some (
          ("source", text (source_text source))
          ∷ ("externalRef", text saved.external_ref)
          ∷ ("importedAcceptances", number import_count)
          ∷ ("rolloutStates", number rollout_states)
          ∷ []))
    record_event env (
        event_about customer_created source actor saved " created" (
          ("source", text (source_text source))
          ∷ ("externalRef", text saved.external_ref)
          ∷ ("roles", texts saved.roles)
          ∷ []))

  -- The imports come before the rollout, which leaves out what they have accepted.
  unfoldable pub create :
      CreateCustomerInput → Actor → CreateSource → Exec (Customer × List ImportedAcceptance)
  unfolding create_checks validate_imports save_customer import_all rollout_current_versions
      record_created
  create input actor source = do
    query (λ w. create_checks w input)
    validated ← validate_imports env input.roles [] input.accepted_versions
    signed ← query (λ w. resolve_signed_documents w input.signed_documents input.roles)
    id ← new_id env "c"
    let saved = customer_of input id
    save_customer saved
    imports ← import_all env saved.id (merge_imports validated signed) actor
    rollout_states ←
        rollout_current_versions env notify_version_published saved saved.roles
          (record { actor_kind = kind_of source; actor_label = actor.user_id })
    record_created saved (length imports) rollout_states source actor
    pure (saved, imports)

  -- The rollout of added roles only.
  pub roll_out_added : Customer → List String → Actor → Exec ℕ
  roll_out_added saved [] actor = pure 0
  roll_out_added saved (role ∷ roles) actor =
      rollout_current_versions env notify_version_published saved (role ∷ roles)
        (record { actor_kind = admin; actor_label = actor.user_id })

  pub record_updated : Customer → ℕ → CreateSource → Actor → Exec (Unit {0})
  unfolding event_about
  record_updated saved rollout_states source actor = do
    audit_now env customer_update actor.user_id "Customer" saved.id none (
        some (
          ("firstName", text saved.first_name)
          ∷ ("lastName", text saved.last_name)
          ∷ ("companyName", text (or_else saved.company_name ""))
          ∷ ("roles", texts saved.roles)
          ∷ ("contactEmails", texts saved.contact_emails)
          ∷ ("rolloutStates", number rollout_states)
          ∷ []))
    record_event env (
        event_about customer_updated source actor saved " updated"
          (("roles", texts saved.roles) ∷ []))

  unfoldable pub update : (id : String) → UpdateCustomerInput → Actor → CreateSource → Exec Customer
  unfolding update_checks updated save_customer roll_out_added record_updated
  update id input actor source = do
    existing ← fetch (λ w. Customers.find_by_id w.customers id) customer_not_found
    query (λ w. update_checks w existing input)
    let saved = updated existing input
    save_customer saved
    rollout_states ← roll_out_added saved (added_roles existing input.roles) actor
    record_updated saved rollout_states source actor
    pure saved
