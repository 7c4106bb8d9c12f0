-- ===== src/Admin/DocumentTypes/Assignments.antt =====
-- The templates that document types name, in admin/document-type-admin.service.ts.
use clickwrap.Prelude.{
  ◌≡◌, refl, sym, ap, ◌∙◌, inl, inr, String, not, ◌&&◌, Option, none, some, arith, ◌==◌, String_eq,
  find, find-In, All, All-at, Bool-cases, Option-cases,
}
use mathlib.Core.Path.{subst}
use clickwrap.Prelude.Dict.{values, set, set-All}
use clickwrap.Domain.Errors.{ok, Result-cases, invalid_state, not_found}
use clickwrap.Domain.Types.{
  DocumentTypeDef, EmailTemplate, EmailTemplateKind, EmailTemplateKind_eq, template_kind_eq_iff,
  version_notification, reminder, acceptance_confirmation,
}
use clickwrap.Domain.Consent.{require}
use clickwrap.Domain.Keys.{assert_valid_entity_key}
use clickwrap.Store.Entities
use clickwrap.Store.Templates
use clickwrap.Runtime.{World, Env}
use clickwrap.Runtime.Exec.{query, lift, now, new_id, bind-ok, fetch-ok}
use clickwrap.Runtime.Recorder.{record_event}
use clickwrap.Runtime.Audit.{audit_now, append_audit}
use clickwrap.Services.LegalEntities.{save_document_type}
use clickwrap.Admin.Body
use clickwrap.Admin.Body.{Field, absent, null, other, is_present, name_or}
use clickwrap.Admin.DocumentTypes.{
  UpdateBody, find_by_id_or_throw, resolve_assignment, save_update, update,
}

-- An assignment that is made names a stored template of the kind.
abbrev pub IsFor : Templates.Templates → EmailTemplateKind → Option String → Type 0
IsFor templates kind none = Unit
IsFor templates kind (some id) =
    (e : EmailTemplate) × (Templates.find_by_id templates id ≡ some e) × (e.kind ≡ kind)

pub record IsWired (templates : Templates.Templates) (t : DocumentTypeDef) : Type 0 where
  pub notification : IsFor templates version_notification t.notification_template_id
  pub reminding : IsFor templates reminder t.reminder_template_id
  pub confirmation : IsFor templates acceptance_confirmation t.acceptance_confirmation_template_id

resolve-IsFor :
    (w : World) (field : Field) (kind : EmailTemplateKind) (current o : Option String)
    → IsFor w.templates kind current
    → resolve_assignment w field kind current ≡ ok o
    → IsFor w.templates kind o
unfolding resolve_assignment
resolve-IsFor w absent kind current o f h =
    let e : current ≡ o = ground arith in subst (IsFor w.templates kind) e f
resolve-IsFor w null kind current o f h =
    let e : none ≡ o = ground arith in subst (IsFor w.templates kind) e tt
resolve-IsFor w other kind current o f h = cc
resolve-IsFor w (Body.text id) kind current o f h =
    elim (Option-cases (Templates.find_by_id w.templates id)) [
      | inl e ↦ ground arith
      | inr (t, e) ↦ elim (Bool-cases (t.kind == kind)) [
        | inl same ↦
            let p : some id ≡ o = ground arith in
            subst (IsFor w.templates kind) p (t, e, (template_kind_eq_iff t.kind kind).0 same)
        | inr differs ↦ ground arith
      ]
    ]

stored_type :
    (d d' : Entities.DocumentTypes) (t : DocumentTypeDef)
    → Entities.save_document_type d t ≡ ok d'
    → d' ≡ set d t.id t
unfolding Entities.save_document_type
stored_type d d' t h = elim (Result-cases (assert_valid_entity_key t.key)) [
  | inl (e, p) ↦ ground arith
  | inr (u, p) ↦ elim (Option-cases (find (λ x. not (x.id == t.id) && x.key == t.key) (values d))) [
    | inl e ↦ ground arith
    | inr (x, e) ↦ ground arith
  ]
]

save_type :
    (t : DocumentTypeDef) (w : World)
    → (save_document_type t w).0 ≡ ok tt
    → ((save_document_type t w).1.document_types ≡ set w.document_types t.id t)
      × ((save_document_type t w).1.templates ≡ w.templates)
unfolding save_document_type
save_type t w h = elim (Result-cases (Entities.save_document_type w.document_types t)) [
  | inl (e, p) ↦ ground arith
  | inr (d, p) ↦ let q = stored_type w.document_types d t p in (rw p q, rw p refl)
]

save_update-ok :
    (env : Env) (id actor : String) (t d : DocumentTypeDef) (w w' : World)
    → save_update env id actor t w ≡ (ok d, w')
    → (w'.document_types ≡ set w.document_types t.id t) × (w'.templates ≡ w.templates)
unfolding save_update now new_id record_event audit_now append_audit
save_update-ok env id actor t d w w' h =
    let (u, p, q) = bind-ok (save_document_type t) _ w w' d h in
    let (types, templates) = save_type t w p in
    (ap (λ z. z.1.document_types) (sym q) ∙ types, ap (λ z. z.1.templates) (sym q) ∙ templates)

IsWired-after :
    (t : DocumentTypeDef) (w w' : World)
    → IsWired w.templates t
    → All (IsWired w.templates) (values w.document_types)
    → (w'.document_types ≡ set w.document_types t.id t) × (w'.templates ≡ w.templates)
    → All (IsWired w'.templates) (values w'.document_types) × (w'.templates ≡ w.templates)
IsWired-after t w w' new wired (types, templates) = (
  rw (types, templates) (set-All (IsWired w.templates) w.document_types t.id t new wired),
  templates,
)

-- A change of a document type that returns keeps all assignments of all types right, if they were.
pub update-IsWired :
    (env : Env) (id : String) (body : UpdateBody) (actor : String) (w w' : World)
    (d : DocumentTypeDef)
    → All (IsWired w.templates) (values w.document_types)
    → update env id body actor w ≡ (ok d, w')
    → All (IsWired w'.templates) (values w'.document_types) × (w'.templates ≡ w.templates)
unfolding update find_by_id_or_throw
update-IsWired env id body actor w w' d wired h =
    let (u1, p1, h1) =
      bind-ok (lift (require (not (is_present body.key)) invalid_state)) _ w w' d h in
    let (u2, p2, h2) =
      bind-ok (lift (require (not (is_present body.external)) invalid_state)) _ w w' d h1 in
    let (existing, p3, h3) =
      fetch-ok (λ v. find (λ (t : DocumentTypeDef). t.id == id) (values v.document_types)) not_found
        _ w w' d h2 in
    let was =
      All-at (IsWired w.templates) (values w.document_types) wired
        (find-In (λ (t : DocumentTypeDef). t.id == id) (values w.document_types) p3).0 in
    let (n, p4, h4) =
      bind-ok
        (query (λ v.
          resolve_assignment v body.notification_template_id version_notification
            existing.notification_template_id))
        _ w w' d h3 in
    let (r, p5, h5) =
      bind-ok
        (query (λ v.
          resolve_assignment v body.reminder_template_id reminder existing.reminder_template_id))
        _ w w' d h4 in
    let (c, p6, h6) =
      bind-ok
        (query (λ v.
          resolve_assignment v body.acceptance_confirmation_template_id acceptance_confirmation
            existing.acceptance_confirmation_template_id))
        _ w w' d h5 in
    let updated : DocumentTypeDef = record existing {
      name = name_or body.name existing.name;
      notification_template_id = n;
      reminder_template_id = r;
      acceptance_confirmation_template_id = c;
    } in
    let new : IsWired w.templates updated = record {
      notification =
          resolve-IsFor w body.notification_template_id version_notification
            existing.notification_template_id n was.notification p4;
      reminding =
          resolve-IsFor w body.reminder_template_id reminder existing.reminder_template_id r
            was.reminding p5;
      confirmation =
          resolve-IsFor w body.acceptance_confirmation_template_id acceptance_confirmation
            existing.acceptance_confirmation_template_id c was.confirmation p6;
    } in
    IsWired-after updated w w' new wired (save_update-ok env id actor updated d w w' h6)
