-- ===== src/Services/Acceptance/Records.antt =====
-- The texts, the new row and the error of an acceptance.
use clickwrap.Prelude.{
  String, Option, none, some, is_truthy, or_else, String_eq, if◌then◌else◌, ◌<>◌,
}
use clickwrap.Domain.Errors.{ErrorCode, already_accepted, invalid_state}
use clickwrap.Domain.Types.{pending_notification, accepted, Actor, CustomerVersionState}
use clickwrap.Services.Acceptance.Checks.{InteractiveChannel, portal, link, AcceptanceInput}

abbrev pub channel_text : InteractiveChannel → String
channel_text portal = "PORTAL"
channel_text link = "LINK"

abbrev passive_early_affirmation : String
passive_early_affirmation = "Actively accepted before the objection deadline"

-- `[input.evidenceNote, PASSIVE_EARLY_AFFIRMATION].filter(Boolean).join(' — ')`
unfoldable pub early_note : Option String → String
early_note note =
    if is_truthy note
    then or_else note "" <> " — " <> passive_early_affirmation
    else passive_early_affirmation

-- `actor.name ?? actor.email ?? fallback`
abbrev pub actor_label : Actor → String → String
actor_label actor fallback = or_else actor.name (or_else actor.email fallback)

-- The row of the customer for the version: the stored one, or a new one.
abbrev pub fresh_state : AcceptanceInput → String → CustomerVersionState
fresh_state input id = record {
  id = id;
  customer_id = input.customer_id;
  version_id = input.version_id;
  state = pending_notification;
  notified_at = none;
  deadline_at = none;
  reminders_sent = 0;
  carry_over_blocking = none;
  notification_due_at = none;
}

-- The conditional transition missed: the error says what is stored now.
abbrev pub stale_code : Option CustomerVersionState → ErrorCode
stale_code none = invalid_state
stale_code (some current) = elim current.state [ accepted ↦ already_accepted | _ ↦ invalid_state ]
