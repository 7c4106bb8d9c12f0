-- ===== src/Examples/Answers.antt =====
-- The gate's answer, the batches of a rollout and the reminders at concrete inputs.
use clickwrap.Prelude.{
  arith, length, ℕ, ◌-◌, ◌==◌, if◌then◌else◌, ◌≡◌, ◌≢◌, ◌↔◌, ◌⊎◌, ◌+◌, refl, sym, ap, ◌∙◌,
  Option-cases, inl, inr, String, true, false, Option, none, some, [], ◌∷◌, String_eq, In, All,
}
use clickwrap.Prelude.Dict.{get}
use clickwrap.Domain.Errors.{ok, err, invalid_state}
use clickwrap.Domain.Keys.{detail_key}
use clickwrap.Domain.Types.{pending_notification, AgreementVersion, Customer, CustomerVersionState}
use clickwrap.Store.Customers
use clickwrap.Store.Documents
use clickwrap.Store.States
use clickwrap.Runtime.{World}
use clickwrap.Runtime.Exec.{Exec}
use clickwrap.Services.Compliance.{ComplianceResponse, ComplianceDetailResponse, get_compliance}
use clickwrap.Services.Compliance.Answer.{PermitsAt, get_compliance_iff}
use clickwrap.Services.PendingAgreements.{all_items}
use clickwrap.Services.PendingAgreements.Offers.{IsAcceptable, all_items-IsAcceptable}
use clickwrap.Services.RolloutNotification
use clickwrap.Services.RolloutNotification.Claims.{IsQuiet, IsAgreed, run-claims}
use clickwrap.Services.Reminder.{ReminderCandidate, remind_active}
use clickwrap.Services.Reminder.Counter.{Delivers, mails, counter_after, remind_active_counter}
use clickwrap.Examples.{demo_env, tenant, active_version, fresh_row, demo_world}

abbrev asked_world : World
asked_world = demo_world (active_version ∷ []) (fresh_row active_version ∷ [])

abbrev answer_of : ComplianceDetailResponse → ComplianceResponse
answer_of detail = record {
  customer_id = "c-1";
  audience = none;
  roles = "tenant" ∷ [];
  compliant = true;
  details = (detail_key "tos" "tenant", detail) ∷ [];
}

abbrev demo_answer : ComplianceResponse
demo_answer = answer_of (record {
  required_version_id = "v-1";
  required_version_label = "1.0";
  accepted_version_id = none;
  state = some pending_notification;
  method = none;
  deadline_at = none;
  pending_mode = none;
})

answers-run :
    get_compliance demo_env "c-1" none asked_world
    ≡ (ok demo_answer, record asked_world { ticks = 1 })
unfolding Customers.find_by_id Documents.find_all Documents.find_by_type_and_audience
    States.find_by_customer clickwrap.Domain.Compliance.compute_compliance
    clickwrap.Domain.Compliance.relevant_audiences clickwrap.Domain.Keys.upper
    clickwrap.Domain.Lifecycle.is_blocking clickwrap.Prelude.Dict.set clickwrap.Prelude.Sort.insert
    clickwrap.Prelude.Sort.sort clickwrap.Prelude.code_lists_eq clickwrap.Prelude.find
    clickwrap.Prelude.includes clickwrap.Prelude.keep clickwrap.Runtime.Exec.now
    clickwrap.Services.Compliance.current_entries clickwrap.Services.Compliance.enrich_all
    clickwrap.Services.Compliance.enrich_detail clickwrap.Services.Compliance.latest_consent
    clickwrap.Services.Compliance.load_current_versions
    clickwrap.Services.Compliance.resolve_audience_key clickwrap.Services.Compliance.response_of
    clickwrap.Store.Acceptances.effective_for clickwrap.Store.Acceptances.find_effective
    clickwrap.Store.Entities.find_audience clickwrap.Store.Versions.find_by_document
    clickwrap.Store.Versions.find_current_published clickwrap.Store.Versions.newest_first detail_key
    get get_compliance
answers-run = refl

get_compliance_iff_example :
    (customer : Customer) × (Customers.find_by_id asked_world.customers "c-1" ≡ some customer)
    × (demo_answer.customer_id ≡ customer.id)
    × (demo_answer.audience ≡ none)
    × (demo_answer.roles ≡ customer.roles)
    × ((true ≡ true) ↔ (
        (customer.deleted_at ≢ none)
        ⊎ All
            (PermitsAt asked_world 2000 "c-1" customer none)
            (Documents.find_all asked_world.documents)))
    × (record asked_world { ticks = 1 } ≡ record asked_world { ticks = 0 + 1 })
get_compliance_iff_example =
    get_compliance_iff demo_env "c-1" none asked_world (record asked_world { ticks = 1 })
      demo_answer answers-run

abbrev notifier : Customer → AgreementVersion → Exec (Unit {0})
notifier customer version w = (ok tt, w)

notifier-IsQuiet : IsQuiet notifier
notifier-IsQuiet c v w = refl

abbrev waiting_row : CustomerVersionState
waiting_row = record (fresh_row active_version) { notification_due_at = some 1500 }

abbrev waiting_world : World
waiting_world = demo_world (active_version ∷ []) (waiting_row ∷ [])

-- A notifier that refuses to send before the row is claimed.
abbrev cautious : Customer → AgreementVersion → Exec (Unit {0})
cautious customer version w = elim (get w.states "cvs-1") [
  | none ↦ (ok tt, w)
  | some s ↦ elim s.notification_due_at [ none ↦ (ok tt, w) | some at ↦ (err invalid_state, w) ]
]

cautious-IsAgreed :
    IsAgreed (States.find_due_for_notification waiting_world.states 100) notifier cautious
unfolding States.find_due_for_notification clickwrap.Prelude.Sort.sort clickwrap.Prelude.keep
cautious-IsAgreed c v w (s, inr m, e, k) = elim m [ ]
cautious-IsAgreed c v w (s, inl m, e, k) =
    let at : s.id ≡ "cvs-1" = ap (λ (x : CustomerVersionState). x.id) (sym m) in
    elim (Option-cases (get w.states "cvs-1")) [
      | inl f ↦ rw (cautious, f) refl
      | inr (t, f) ↦
          let due : t.notification_due_at ≡ none = k t (ap (get w.states) at ∙ f) in
          rw (cautious, f, due) refl
    ]

In-batch : In waiting_row (States.find_due_for_notification waiting_world.states 100)
unfolding States.find_due_for_notification clickwrap.Prelude.Sort.sort clickwrap.Prelude.keep
In-batch = inl refl

after-run :
    get (RolloutNotification.run notifier false 100 waiting_world).states "cvs-1"
    ≡ some (fresh_row active_version)
unfolding Customers.find_by_id RolloutNotification.claim RolloutNotification.notify_all
    RolloutNotification.notify_customer RolloutNotification.notify_one RolloutNotification.remember
    RolloutNotification.run States.clear_notification_due States.find_due_for_notification
    clickwrap.Prelude.Dict.set clickwrap.Prelude.Sort.sort clickwrap.Prelude.keep
    clickwrap.Store.Versions.find_by_id get
after-run = refl

run-claims_example :
    ((fresh_row active_version).notification_due_at ≡ none)
    × (RolloutNotification.run notifier false 100 waiting_world
        ≡ RolloutNotification.run cautious false 100 waiting_world)
run-claims_example =
    run-claims notifier notifier-IsQuiet cautious 100 waiting_world waiting_row
      (fresh_row active_version) cautious-IsAgreed In-batch after-run

abbrev mailed : Customer → String → AgreementVersion → ℕ → World → World
mailed customer recipient version deadline w = record w { ticks = w.ticks + 1 }

abbrev mailer : Customer → String → AgreementVersion → ℕ → Exec (Unit {0})
mailer customer recipient version deadline w = (ok tt, mailed customer recipient version deadline w)

mailer-Delivers : Delivers mailer mailed
mailer-Delivers = record { sends = λ c to v deadline w. refl; rows = λ c to v deadline w. refl }

abbrev due_candidate : ReminderCandidate
due_candidate = record {
  state = fresh_row active_version;
  customer = tenant;
  version = active_version;
  recipient = "ada@example.org";
}

is-stored : get asked_world.states "cvs-1" ≡ some (fresh_row active_version)
unfolding get
is-stored = refl

remind_active_counter_example :
    (let after = remind_active mailer due_candidate 2000 (some 5000) asked_world in
      (after.0 ≡ ok tt)
      × (after.1
          ≡ record (mails mailed due_candidate 5000 (counter_after 0 5000 2000 - 0) asked_world) {
            states = after.1.states;
          })
      × (get after.1.states "cvs-1" ≡ (
          if due_candidate.state.id == "cvs-1"
          then some (record due_candidate.state { reminders_sent = counter_after 0 5000 2000 })
          else get asked_world.states "cvs-1")))
remind_active_counter_example =
    remind_active_counter mailer mailed mailer-Delivers due_candidate 5000 2000 "cvs-1" asked_world
      is-stored

abbrev url_of : String → String
url_of key = key

all_items-IsAcceptable_example : All (IsAcceptable asked_world "c-1" ("tenant" ∷ []) 2000) (
    all_items url_of asked_world "c-1" 2000
      ("tenant" ∷ [])
      (Documents.find_all asked_world.documents))
all_items-IsAcceptable_example =
    all_items-IsAcceptable url_of asked_world "c-1" ("tenant" ∷ []) 2000
      (Documents.find_all asked_world.documents)

offers-one :
    length (
      all_items url_of asked_world "c-1" 2000
        ("tenant" ∷ [])
        (Documents.find_all asked_world.documents))
    ≡ 1
unfolding Documents.find_all Documents.find_by_type_and_audience States.find_by_customer_and_version
    all_items clickwrap.Prelude.Sort.sort clickwrap.Prelude.find clickwrap.Prelude.includes
    clickwrap.Prelude.keep clickwrap.Services.PendingAgreements.current_items
    clickwrap.Services.PendingAgreements.document_items
    clickwrap.Services.PendingAgreements.open_item clickwrap.Store.Versions.find_current_published
    clickwrap.Services.PendingAgreements.upcoming_items
    clickwrap.Store.Versions.find_upcoming_published_list
offers-one = refl
