-- ===== src/Services/LegalEntities.antt =====
-- legal-entities/legal-entities.reconciler.ts: at the start, audiences and document types are made to
-- agree with the configuration, which is the source of truth. The log lines are left out.
pub mod Deletions
pub mod Steady
use clickwrap.Prelude.{
  ℕ, ◌+◌, String, Bool, true, false, not, ◌||◌, Option, none, some, List, [], ◌∷◌, ◌==◌, Eq,
  String_eq, or_else, any, if◌then◌else◌,
}
use clickwrap.Prelude.Dict.{values}
use clickwrap.Domain.Types.{Audience, DocumentTypeDef}
use clickwrap.Store.Entities
use clickwrap.Runtime.{World, Env}
use clickwrap.Runtime.Exec.{Exec, pure, gets, modify, query, ◌>>=◌, ◌>>◌, new_id}

-- LegalEntitiesConfigAudience and LegalEntitiesConfigDocumentType; null and undefined are `none`
pub record ConfigAudience : Type 0 where
  pub key : String
  pub name : String

pub record ConfigDocumentType : Type 0 where
  pub key : String
  pub name : String
  pub external : Bool
  pub notification_template_id : Option String
  pub reminder_template_id : Option String
  pub acceptance_confirmation_template_id : Option String

pub record LegalEntitiesConfig : Type 0 where
  pub audiences : List ConfigAudience
  pub document_types : List ConfigDocumentType

pub record ReconcileCounts : Type 0 where
  pub created : ℕ
  pub updated : ℕ
  pub kept : ℕ
  pub deleted : ℕ

abbrev pub no_counts : ReconcileCounts
no_counts = record { created = 0; updated = 0; kept = 0; deleted = 0 }

-- `===` of two texts that may be undefined
abbrev pub same_text : Option String → Option String → Bool
same_text none none = true
same_text none (some b) = false
same_text (some a) none = false
same_text (some a) (some b) = a == b

abbrev pub same_flag : Bool → Bool → Bool
same_flag true b = b
same_flag false b = not b

abbrev pub audience_changed : Audience → ConfigAudience → Bool
audience_changed existing entry = not (existing.name == entry.name)

abbrev pub document_type_changed : DocumentTypeDef → ConfigDocumentType → Bool
document_type_changed existing entry =
    not (existing.name == entry.name)
    || not (same_flag (or_else existing.external false) entry.external)
    || not (same_text existing.notification_template_id entry.notification_template_id)
    || not (same_text existing.reminder_template_id entry.reminder_template_id)
    || not (
        same_text existing.acceptance_confirmation_template_id
          entry.acceptance_confirmation_template_id)

abbrev pub is_configured_audience : List ConfigAudience → Audience → Bool
is_configured_audience configured existing =
    any (λ (c : ConfigAudience). c.key == existing.key) configured

abbrev pub is_configured_type : List ConfigDocumentType → DocumentTypeDef → Bool
is_configured_type configured existing =
    any (λ (c : ConfigDocumentType). c.key == existing.key) configured

unfoldable pub save_audience : Audience → Exec (Unit {0})
save_audience audience = do
  audiences ← query (λ w. Entities.save_audience w.audiences audience)
  modify (λ w. record w { audiences = audiences })

unfoldable pub save_document_type : DocumentTypeDef → Exec (Unit {0})
save_document_type document_type = do
  types ← query (λ w. Entities.save_document_type w.document_types document_type)
  modify (λ w. record w { document_types = types })

abbrev pub desired_type : ConfigDocumentType → String → DocumentTypeDef
desired_type entry id = record {
  id = id;
  key = entry.key;
  name = entry.name;
  notification_template_id = entry.notification_template_id;
  reminder_template_id = entry.reminder_template_id;
  acceptance_confirmation_template_id = entry.acceptance_confirmation_template_id;
  external = some entry.external;
}

-- An entity that the configuration does not name: deleted, unless something refers to it.
abbrev pub count_deletion : ReconcileCounts → Bool → ReconcileCounts
count_deletion counts true = record counts { deleted = counts.deleted + 1 }
count_deletion counts false = record counts { kept = counts.kept + 1 }

unfoldable pub drop_audience : ReconcileCounts → Audience → World → ReconcileCounts × World
drop_audience counts existing w =
    let after =
      Entities.delete_audience_if_unused w.audiences w.documents w.customers existing.key in
    (count_deletion counts after.1, record w { audiences = after.0 })

unfoldable pub drop_audience_unless_named :
    List ConfigAudience → Audience → ReconcileCounts → World → ReconcileCounts × World
drop_audience_unless_named configured existing counts w =
    if is_configured_audience configured existing
    then (counts, w)
    else drop_audience counts existing w

unfoldable pub drop_audiences :
    List ConfigAudience → List Audience → ReconcileCounts → World → ReconcileCounts × World
unfolding drop_audience drop_audience_unless_named
drop_audiences configured [] counts w = (counts, w)
drop_audiences configured (existing ∷ rest) counts w =
    drop_audiences configured rest (drop_audience_unless_named configured existing counts w).0
      (drop_audience_unless_named configured existing counts w).1

unfoldable pub drop_document_type :
    ReconcileCounts → DocumentTypeDef → World → ReconcileCounts × World
drop_document_type counts existing w =
    let after = Entities.delete_document_type_if_unused w.document_types w.documents existing.key in
    (count_deletion counts after.1, record w { document_types = after.0 })

unfoldable pub drop_document_type_unless_named :
    List ConfigDocumentType → DocumentTypeDef → ReconcileCounts → World → ReconcileCounts × World
drop_document_type_unless_named configured existing counts w =
    if is_configured_type configured existing
    then (counts, w)
    else drop_document_type counts existing w

unfoldable pub drop_document_types :
    List ConfigDocumentType
    → List DocumentTypeDef
    → ReconcileCounts
    → World
    → ReconcileCounts × World
unfolding drop_document_type drop_document_type_unless_named
drop_document_types configured [] counts w = (counts, w)
drop_document_types configured (existing ∷ rest) counts w =
    drop_document_types configured rest
      (drop_document_type_unless_named configured existing counts w).0
      (drop_document_type_unless_named configured existing counts w).1

module _ (env : Env) where
  unfoldable pub put_audience :
      ReconcileCounts → ConfigAudience → Option Audience → Exec ReconcileCounts
  put_audience counts entry none = do
    id ← new_id env "aud"
    save_audience (record { id = id; key = entry.key; name = entry.name })
    pure (record counts { created = counts.created + 1 })
  put_audience counts entry (some existing) =
      if audience_changed existing entry
      then (do
        save_audience (record existing { name = entry.name })
        pure (record counts { updated = counts.updated + 1 }))
      else pure counts

  unfoldable pub put_audiences : List ConfigAudience → ReconcileCounts → Exec ReconcileCounts
  unfolding put_audience save_audience
  put_audiences [] counts = pure counts
  put_audiences (entry ∷ rest) counts = do
    existing ← gets (λ w. Entities.find_audience w.audiences entry.key)
    next ← put_audience counts entry existing
    put_audiences rest next

  unfoldable pub reconcile_audiences : List ConfigAudience → Exec ReconcileCounts
  unfolding put_audiences drop_audiences
  reconcile_audiences configured = do
    counts ← put_audiences configured no_counts
    λ w. (let done = drop_audiences configured (values w.audiences) counts w in pure done.0 done.1)

  -- `toDocumentType` makes an id for a new type only.
  unfoldable pub put_document_type :
      ReconcileCounts → ConfigDocumentType → Option DocumentTypeDef → Exec ReconcileCounts
  put_document_type counts entry none = do
    id ← new_id env "dt"
    save_document_type (desired_type entry id)
    pure (record counts { created = counts.created + 1 })
  put_document_type counts entry (some existing) =
      if document_type_changed existing entry
      then (do
        save_document_type (desired_type entry existing.id)
        pure (record counts { updated = counts.updated + 1 }))
      else pure counts

  unfoldable pub put_document_types :
      List ConfigDocumentType → ReconcileCounts → Exec ReconcileCounts
  unfolding put_document_type save_document_type
  put_document_types [] counts = pure counts
  put_document_types (entry ∷ rest) counts = do
    existing ← gets (λ w. Entities.find_document_type w.document_types entry.key)
    next ← put_document_type counts entry existing
    put_document_types rest next

  unfoldable pub reconcile_document_types : List ConfigDocumentType → Exec ReconcileCounts
  unfolding put_document_types drop_document_types
  reconcile_document_types configured = do
    counts ← put_document_types configured no_counts
    λ w.
        (let done = drop_document_types configured (values w.document_types) counts w in
          pure done.0 done.1)

  -- The summary is the pair of the counts.
  unfoldable pub reconcile : LegalEntitiesConfig → Exec (ReconcileCounts × ReconcileCounts)
  reconcile config = do
    audiences ← reconcile_audiences config.audiences
    document_types ← reconcile_document_types config.document_types
    pure (audiences, document_types)
