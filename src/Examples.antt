-- ===== src/Examples.antt =====
-- A small store, an environment and requests, on which the theorems are applied and the code is run.
pub mod Requests
pub mod Displays
pub mod Jobs
pub mod Rows
pub mod Answers
pub mod Onboards
pub mod Limits
pub mod Admins
pub mod Catalog
pub mod Mails
pub mod Boot
use clickwrap.Prelude.{
  ℕ, ◌+◌, String, true, Option, none, some, List, [], ◌∷◌, ◌<>◌, ◌==◌, ℕ_eq, if◌then◌else◌,
}
use clickwrap.Domain.Types.{
  draft, published, active, passive, StateValue, pending_notification, notified, Actor,
  CustomerContext, AgreementDocument, AgreementVersion, Customer, CustomerVersionState,
}
use clickwrap.Runtime.{World, Env}

abbrev uuid : ℕ → String
uuid n =
    if n == 0
    then "u0"
    else if n == 1
    then "u1"
    else if n == 2
    then "u2"
    else if n == 3
    then "u3"
    else "u4"

abbrev pub demo_env : Env
demo_env = record {
  clock = λ n. 2000 + n;
  uuid = uuid;
  sha256_hex = λ t. "sha-" <> t;
  is_sweeper_enabled = true;
  others = λ n w. w;
}

abbrev pub terms : AgreementDocument
terms = record { id = "doc-1"; type = "tos"; audience = "tenant"; name = "Terms" }

abbrev pub active_version : AgreementVersion
active_version = record {
  id = "v-1";
  document_id = "doc-1";
  version_label = "1.0";
  status = published;
  acceptance_mode = active;
  objection_period_days = none;
  objection_consequence = none;
  grace_period_days = none;
  hard_deadline_at = some 5000;
  change_summary = "First version";
  consent_text = some "I agree";
  storage_key = "k";
  file_name = "f.pdf";
  content_hash = "c1";
  file_size = 10;
  valid_from = 1000;
  published_at = some 900;
  published_by = some "admin";
}

abbrev pub passive_version : AgreementVersion
passive_version = record active_version {
  id = "v-2";
  acceptance_mode = passive;
  objection_period_days = some 14;
  hard_deadline_at = none;
  consent_text = none;
}

abbrev pub draft_version : AgreementVersion
draft_version = record active_version {
  id = "v-3";
  status = draft;
  published_at = none;
  published_by = none;
}

abbrev pub tenant : Customer
tenant = record {
  id = "c-1";
  external_ref = "x-1";
  first_name = "Ada";
  last_name = "King";
  company_name = none;
  roles = "tenant" ∷ [];
  contact_emails = [];
  source = none;
  deleted_at = none;
}

abbrev pub row_of : AgreementVersion → StateValue → Option ℕ → CustomerVersionState
row_of version state deadline_at = record {
  id = "cvs-1";
  customer_id = "c-1";
  version_id = version.id;
  state = state;
  notified_at = none;
  deadline_at = deadline_at;
  reminders_sent = 0;
  carry_over_blocking = none;
  notification_due_at = none;
}

abbrev pub fresh_row : AgreementVersion → CustomerVersionState
fresh_row version = row_of version pending_notification none

-- A row that was displayed at 1500.
abbrev pub seen_row : AgreementVersion → Option ℕ → CustomerVersionState
seen_row version deadline_at = record (row_of version notified deadline_at) {
  notified_at = some 1500;
}

abbrev pub demo_actor : Actor
demo_actor = record { user_id = "user-1"; name = some "Ada"; email = none; portal_role = none }

abbrev pub demo_context : CustomerContext
demo_context = record {
  customer_id = "c-1";
  actor = demo_actor;
  ip_address = none;
  user_agent = none;
}

abbrev pub demo_world : List AgreementVersion → List CustomerVersionState → World
demo_world versions rows = record {
  documents = ("doc-1", terms) ∷ [];
  versions = keyed_versions versions;
  customers = ("c-1", tenant) ∷ [];
  audiences = [];
  document_types = [];
  templates = [];
  links = [];
  signed_documents = [];
  outbound = [];
  states = keyed_rows rows;
  acceptances = [];
  objections = [];
  notifications = [];
  replies = [];
  events = [];
  audit = [];
  escalations = [];
  confirmations = [];
  notices = [];
  ticks = 0;
  minted = 0;
}
  where
    keyed_versions : List AgreementVersion → List (String × AgreementVersion)
    keyed_versions [] = []
    keyed_versions (v ∷ vs) = (v.id, v) ∷ keyed_versions vs

    keyed_rows : List CustomerVersionState → List (String × CustomerVersionState)
    keyed_rows [] = []
    keyed_rows (s ∷ rows) = (s.id, s) ∷ keyed_rows rows
