-- ===== src/Admin/Audiences.antt =====
-- admin/audience-admin.service.ts
use clickwrap.Prelude.{
  String, Bool, true, false, not, none, some, List, [], ◌∷◌, ◌<>◌, ◌==◌, String_eq, trim, find,
}
use clickwrap.Prelude.Sort.{sort}
use clickwrap.Prelude.Dict.{values}
use clickwrap.Domain.Errors.{invalid_state, not_found}
use clickwrap.Domain.Types.{
  Audience, EventType, Metadata, administration, admin, text, audience_create, audience_update,
  audience_delete, audience_created, audience_updated, audience_deleted,
}
use clickwrap.Domain.Consent.{require}
use clickwrap.Store.Entities
use clickwrap.Runtime.{World, Env}
use clickwrap.Runtime.Exec.{Exec, pure, lift, modify, fetch, ◌>>=◌, ◌>>◌, new_id}
use clickwrap.Runtime.Recorder.{EventInput, event_input, record_event}
use clickwrap.Runtime.Audit.{audit_now}
use clickwrap.Services.LegalEntities.{save_audience}
use clickwrap.Admin.Body.{Field, is_present, name_or}

-- `list`, sorted by key; the collation of the keys is the argument `is_before`.
unfoldable pub list : (String → String → Bool) → World → List Audience
list is_before w = sort (λ (a b : Audience). is_before a.key b.key) (values w.audiences)

unfoldable pub find_by_id_or_throw : String → Exec Audience
find_by_id_or_throw id =
    fetch (λ w. find (λ (a : Audience). a.id == id) (values w.audiences)) not_found

-- The deletion, if the repository made it.
unfoldable pub apply_deletion : Entities.Audiences × Bool → Exec (Unit {0})
apply_deletion (audiences, true) = modify (λ w. record w { audiences = audiences })
apply_deletion (audiences, false) = lift (require false invalid_state)

unfoldable pub delete_unused : String → Exec (Unit {0})
unfolding apply_deletion
delete_unused key w =
    apply_deletion (Entities.delete_audience_if_unused w.audiences w.documents w.customers key) w

event_about : EventType → String → String → Audience → Metadata → EventInput
event_about type actor verb audience metadata =
    record (event_input type administration admin actor
      ("Audience \"" <> audience.name <> "\" " <> verb)) {
        audience = some audience.key;
        metadata = some metadata;
      }

module _ (env : Env) where
  unfoldable pub create : (key name actor : String) → Exec Audience
  unfolding event_about
  create key name actor = do
    lift (require (not (trim name == "")) invalid_state)
    id ← new_id env "aud"
    let saved : Audience = record { id = id; key = key; name = name }
    save_audience saved
    audit_now env audience_create actor "Audience" saved.id none
        (some (("key", text saved.key) ∷ ("name", text saved.name) ∷ []))
    record_event env (
        event_about audience_created actor "created" saved
          (("key", text saved.key) ∷ ("name", text saved.name) ∷ []))
    pure saved

  unfoldable pub update : (id : String) (key name : Field) (actor : String) → Exec Audience
  unfolding event_about find_by_id_or_throw name_or
  update id key name actor = do
    lift (require (not (is_present key)) invalid_state)
    existing ← find_by_id_or_throw id
    let updated : Audience = record existing { name = name_or name existing.name }
    save_audience updated
    audit_now env audience_update actor "Audience" id none (some (("name", text updated.name) ∷ []))
    record_event env
        (event_about audience_updated actor "updated" updated (("name", text updated.name) ∷ []))
    pure updated

  unfoldable pub remove : (id actor : String) → Exec (Unit {0})
  unfolding event_about find_by_id_or_throw delete_unused
  remove id actor = do
    existing ← find_by_id_or_throw id
    delete_unused existing.key
    audit_now env audience_delete actor "Audience" id none (some (("key", text existing.key) ∷ []))
    record_event env
        (event_about audience_deleted actor "deleted" existing (("key", text existing.key) ∷ []))
