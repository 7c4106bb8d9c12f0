-- ===== src/Store/Templates.antt =====
-- persistence/inmemory/email-template.repo.ts
pub mod Dangling
use clickwrap.Prelude.{
  String, Bool, true, false, ◌||◌, Option, none, some, List, ◌==◌, String_eq, if◌then◌else◌, any,
}
use clickwrap.Prelude.Dict.{Dict, values, get, set, delete, has}
use clickwrap.Domain.Types.{EmailTemplate, DocumentTypeDef}
use clickwrap.Store.Entities.{DocumentTypes}

abbrev pub Templates : Type 0
Templates = Dict String EmailTemplate

unfoldable pub save : Templates → EmailTemplate → Templates
save templates template = set templates template.id template

unfoldable pub find_by_id : Templates → String → Option EmailTemplate
find_by_id templates id = get templates id

unfoldable pub find_all : Templates → List EmailTemplate
find_all templates = values templates

-- `assigned === id`, of an assignment that may be undefined
abbrev pub is_assigned : String → Option String → Bool
is_assigned id none = false
is_assigned id (some assigned) = assigned == id

-- The templates after the call, and whether one was deleted.
unfoldable pub delete_if_unused : Templates → DocumentTypes → String → Templates × Bool
delete_if_unused templates types id =
    if has templates id
    then (if any
          (λ t. is_assigned id t.notification_template_id || is_assigned id t.reminder_template_id)
          (values types)
        then (templates, false)
        else (delete templates id, true))
    else (templates, false)
