-- ===== src/Store/Templates/Dangling.antt =====
-- Which templates are deleted.
use clickwrap.Prelude.{
  ◌≡◌, refl, String, true, false, ◌||◌, some, arith, String_eq, any, any-false, In, inl, inr,
  Bool-cases,
}
use clickwrap.Prelude.Dict.{values, has, delete}
use clickwrap.Domain.Types.{DocumentTypeDef}
use clickwrap.Store.Entities.{DocumentTypes}
use clickwrap.Store.Templates.{Templates, is_assigned, delete_if_unused}

-- A template is deleted if no type names it for its notifications or reminders, so no such assignment
-- is left without its template. That a type names it for its confirmations does not keep it.
pub delete_if_unused_confirmation :
    (templates : Templates) (types : DocumentTypes) (id : String) (t : DocumentTypeDef)
    → In t (values types)
    → has templates id ≡ true
    → ((delete_if_unused templates types id).1 ≡ true
        → (is_assigned id t.notification_template_id ≡ false)
          × (is_assigned id t.reminder_template_id ≡ false))
      × (any
              (λ (x : DocumentTypeDef).
                is_assigned id x.notification_template_id || is_assigned id x.reminder_template_id)
              (values types)
            ≡ false
          → t.acceptance_confirmation_template_id ≡ some id
          → delete_if_unused templates types id ≡ (delete templates id, true))
unfolding delete_if_unused
delete_if_unused_confirmation templates types id t m h =
    let p = λ (x : DocumentTypeDef).
      is_assigned id x.notification_template_id || is_assigned id x.reminder_template_id in
    (
      λ deleted. elim (Bool-cases (any p (values types))) [
        | inl used ↦ ground arith
        | inr unused ↦ let free : p t ≡ false = any-false p (values types) unused m in ground arith
      ],
      λ unused c. rw (h, unused) refl,
    )
