-- ===== src/Examples/Mails.antt =====
-- Mails, their links and their reports at concrete inputs.
use clickwrap.Prelude.{
  arith, ℕ, ◌≡◌, ◌≢◌, ◌≤◌, ◌*◌, ◌↔◌, refl, Bool, String, true, false, Option, none, some, [], ◌∷◌,
  List, String_eq, codes, nat_eq, All, In, length, keep, Codes_eq,
}
use clickwrap.Prelude.Sort.{sort}
use clickwrap.Prelude.Dict.{Dict, get, values}
use clickwrap.Domain.Errors.{ok}
use clickwrap.Domain.Types.{
  AcceptanceLink, CustomerVersionState, OutboundEmail, DomainEvent, consent, system,
  reminder_triggered,
}
use clickwrap.Domain.EmailTemplate.{
  TemplateVars, escape_html, decode_entities, substitute, write_value,
}
use clickwrap.Domain.EmailTemplate.Placeholders.{
  Part, char, hole, print, meaning_of, IsPrintable, substitute-print,
}
use clickwrap.Store.Links
use clickwrap.Store.EventLog.{EventFilters, events_page_size, matches, query}
use clickwrap.Store.EventLog.Fitting.{IsFitting}
use clickwrap.Store.EventLog.Pages.{IsNewToOld, IsCollation, pages, query-pages}
use clickwrap.Runtime.{World}
use clickwrap.Runtime.Recorder.{event_input, event_of}
use clickwrap.Mail.Delivery.{delivered, handle}
use clickwrap.Mail.Delivery.Effects.{handle-keeps}
use clickwrap.Mail.PermanentLinks.{permanent_link, ensure_for_customer, hash_for}
use clickwrap.Mail.PermanentLinks.Once.{ensure_again}
use clickwrap.Examples.{demo_env, passive_version, seen_row, demo_world}

-- "Hi {{ name }}!" and the value of the name
abbrev greeting : List Part
greeting =
    char b'H'
    ∷ char b'i'
    ∷ char b' '
    ∷ hole (codes " ") b'n' (codes "ame") (codes " ")
    ∷ char b'!'
    ∷ []

abbrev names : TemplateVars
names = (codes "name", codes "A & B") ∷ []

greeting-IsPrintable : All IsPrintable greeting
unfolding clickwrap.Prelude.is_space clickwrap.Domain.EmailTemplate.is_name_unit
greeting-IsPrintable = ground arith

substitute-print_example :
    substitute (print greeting) names true ≡ meaning_of (write_value names true) greeting
substitute-print_example = substitute-print greeting names true greeting-IsPrintable

greets : substitute (codes "Hi {{ name }}!") names true ≡ codes "Hi A &amp; B!"
unfolding clickwrap.Prelude.code_lists_eq substitute
greets = refl

-- The decoder reads an entity that stood in the value itself.
decodes-twice : decode_entities (escape_html (codes "&lt;")) ≡ codes "<"
unfolding decode_entities escape_html
decodes-twice = refl

abbrev event : String → ℕ → DomainEvent
event id at = event_of (event_input reminder_triggered consent system "system" "Reminder") id at

abbrev log : Dict String DomainEvent
log = ("e-1", event "e-1" 10) ∷ ("e-2", event "e-2" 30) ∷ ("e-3", event "e-3" 20) ∷ []

-- From 15 on.
abbrev recent : EventFilters
recent = record {
  customer_id = none;
  from = some 15;
  to = none;
  category = none;
  document_type = none;
  version_id = none;
}

abbrev any_order : String → String → Bool
any_order a b = true

any_order-IsCollation : IsCollation any_order
any_order-IsCollation = record { total = λ a b h. refl; transitive = λ a b c h k. refl }

counts-two : (query any_order log recent none).1 ≡ 2
unfolding keep query sort
counts-two = refl

log-fits : (query any_order log recent none).1 ≤ 1 * events_page_size
log-fits = ground (arith, counts-two)

query-pages_example :
    IsNewToOld any_order (pages any_order log recent 1)
    × (In (event "e-2" 30) (pages any_order log recent 1)
        ↔ (In (event "e-2" 30) (values log) × IsFitting recent (event "e-2" 30)))
    × ((query any_order log recent none).1 ≡ length (pages any_order log recent 1))
    × ((query any_order log recent none).1 ≡ length (keep (matches recent) (values log)))
    × (length (query any_order log recent none).0 ≤ events_page_size)
query-pages_example =
    query-pages any_order any_order-IsCollation log recent 1 none (event "e-2" 30) log-fits

finds-newest : (query any_order log recent none).0 ≡ event "e-2" 30 ∷ event "e-3" 20 ∷ []
unfolding keep query sort
finds-newest = refl

abbrev mail : OutboundEmail
mail = record {
  provider_ref = "pm-1";
  customer_id = "c-1";
  version_id = "v-2";
  recipient = "ada@example.org";
  sent_at = 1400;
  delivered_at = none;
}

abbrev noted_row : CustomerVersionState
noted_row = seen_row passive_version (some 3000)

abbrev mail_world : World
mail_world = record (demo_world (passive_version ∷ []) (noted_row ∷ [])) {
  outbound = ("pm-1", mail) ∷ [];
}

is-noted : noted_row.notified_at ≢ none
is-noted h = ground arith

noted-is-stored : get mail_world.states "cvs-1" ≡ some noted_row
unfolding get
noted-is-stored = refl

handle-keeps_example :
    get (handle demo_env (delivered "pm-1") mail_world).1.states "cvs-1" ≡ some noted_row
handle-keeps_example =
    handle-keeps demo_env (delivered "pm-1") noted_row "cvs-1" mail_world noted-is-stored is-noted

abbrev token_for : String → String
token_for customer_id = customer_id

abbrev link_world : World
link_world = demo_world [] []

abbrev linked : World
linked = (ensure_for_customer demo_env token_for "c-1" link_world).1

abbrev made_link : AcceptanceLink
made_link = permanent_link "c-1" "sha-c-1" "al-u0" 2000

makes-link : ensure_for_customer demo_env token_for "c-1" link_world ≡ (ok made_link, linked)
unfolding Links.create Links.find_by_token_hash clickwrap.Mail.PermanentLinks.create_link
    clickwrap.Prelude.find clickwrap.Runtime.Exec.new_id clickwrap.Runtime.Exec.now
    clickwrap.Runtime.Recorder.record_event ensure_for_customer get
makes-link = refl

ensure_again_example :
    (ensure_for_customer demo_env token_for "c-1" linked ≡ (ok made_link, linked))
    × (Links.find_by_token_hash linked.links (hash_for demo_env token_for "c-1") ≡ some made_link)
ensure_again_example = ensure_again demo_env token_for "c-1" link_world linked made_link makes-link
