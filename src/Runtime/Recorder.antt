-- ===== src/Runtime/Recorder.antt =====
-- events/event-recorder.ts: one entry of the event log for each action, with the names filled in.
use clickwrap.Prelude.{
  ℕ, ◌+◌, String, ◌||◌, ◌<>◌, Option, none, some, is_none, String_eq, if◌then◌else◌,
}
use clickwrap.Prelude.Dict.{Dict, set, has}
use clickwrap.Domain.Errors.{ok}
use clickwrap.Domain.Types.{
  EventType, EventCategory, EventActorKind, Metadata, DomainEvent, AgreementVersion,
  AgreementDocument, Customer,
}
use clickwrap.Domain.Customers.{customer_display_name}
use clickwrap.Store.Documents
use clickwrap.Store.Versions
use clickwrap.Store.Customers
use clickwrap.Runtime.Shared.{World, Env}
use clickwrap.Runtime.Exec.{Exec}

-- RecordEventInput: a DomainEvent without `id` and `occurredAt`.
pub record EventInput : Type 0 where
  pub type : EventType
  pub category : EventCategory
  pub actor_kind : EventActorKind
  pub actor_label : String
  pub customer_id : Option String
  pub customer_name : Option String
  pub version_id : Option String
  pub document_type : Option String
  pub audience : Option String
  pub version_label : Option String
  pub channel : Option String
  pub recipient : Option String
  pub summary : String
  pub metadata : Option Metadata

-- An input with the required fields alone, to be written over.
abbrev pub event_input : EventType → EventCategory → EventActorKind → String → String → EventInput
event_input type category actor_kind actor_label summary = record {
  type = type;
  category = category;
  actor_kind = actor_kind;
  actor_label = actor_label;
  customer_id = none;
  customer_name = none;
  version_id = none;
  document_type = none;
  audience = none;
  version_label = none;
  channel = none;
  recipient = none;
  summary = summary;
  metadata = none;
}

-- `a ??= b`
abbrev or_fill : Option String → String → Option String
or_fill none b = some b
or_fill (some a) b = some a

with_document : Option AgreementDocument → EventInput → EventInput
with_document none input = input
with_document (some document) input = record input {
  document_type = or_fill input.document_type document.type;
  audience = or_fill input.audience document.audience;
}

with_version : World → Option AgreementVersion → EventInput → EventInput
unfolding with_document
with_version w none input = input
with_version w (some version) input =
    let labelled : EventInput = record input {
      version_label = or_fill input.version_label version.version_label;
    } in
    if is_none input.document_type || is_none input.audience
    then with_document (Documents.find_by_id w.documents version.document_id) labelled
    else labelled

with_customer : Option Customer → EventInput → EventInput
with_customer none input = input
with_customer (some customer) input = record input {
  customer_name = some (customer_display_name customer);
}

resolve_version : World → EventInput → EventInput
unfolding with_version
resolve_version w input = elim input.version_id [
  | none ↦ input
  | some id ↦
      if is_none input.document_type || is_none input.audience || is_none input.version_label
      then with_version w (Versions.find_by_id w.versions id) input
      else input
]

resolve_customer : World → EventInput → EventInput
unfolding with_customer
resolve_customer w input = elim input.customer_id [
  | none ↦ input
  | some id ↦
      if is_none input.customer_name
      then with_customer (Customers.find_by_id w.customers id) input
      else input
]

unfoldable pub resolve_denormalized : World → EventInput → EventInput
unfolding resolve_version resolve_customer
resolve_denormalized w input = resolve_customer w (resolve_version w input)

abbrev pub event_of : EventInput → String → ℕ → DomainEvent
event_of input id at = record {
  id = id;
  type = input.type;
  category = input.category;
  occurred_at = at;
  actor_kind = input.actor_kind;
  actor_label = input.actor_label;
  customer_id = input.customer_id;
  customer_name = input.customer_name;
  version_id = input.version_id;
  document_type = input.document_type;
  audience = input.audience;
  version_label = input.version_label;
  channel = input.channel;
  recipient = input.recipient;
  summary = input.summary;
  metadata = input.metadata;
}

-- EventRepo.append, whose refusal of a used id is swallowed.
append_event : Dict String DomainEvent → DomainEvent → Dict String DomainEvent
append_event events event = if has events event.id then events else set events event.id event

module _ (env : Env) where
  recorded : EventInput → World → World
  unfolding append_event
  recorded input w =
      let id = "evt-" <> env.uuid w.minted in
      record w {
        events =
            append_event w.events (event_of (resolve_denormalized w input) id (env.clock w.ticks));
        ticks = w.ticks + 1;
        minted = w.minted + 1;
      }

  -- `record`, which never throws.
  unfoldable pub record_event : EventInput → Exec (Unit {0})
  unfolding recorded
  record_event input w = (ok tt, recorded input w)
