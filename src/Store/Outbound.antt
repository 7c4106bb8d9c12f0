-- ===== src/Store/Outbound.antt =====
-- plugins/email/core/outbound-email.repo.inmemory.ts: the mails that were sent, by the reference of
-- the provider.
use clickwrap.Prelude.{
  ℕ, String, ◌&&◌, Option, none, some, List, ltb, is_none, String_eq, if◌then◌else◌, keep,
}
use clickwrap.Prelude.Dict.{Dict, values, get, set}
use clickwrap.Domain.Types.{OutboundEmail}

abbrev pub OutboundEmails : Type 0
OutboundEmails = Dict String OutboundEmail

unfoldable pub save : OutboundEmails → OutboundEmail → OutboundEmails
save emails email = set emails email.provider_ref email

unfoldable pub find_by_provider_ref : OutboundEmails → String → Option OutboundEmail
find_by_provider_ref emails provider_ref = get emails provider_ref

-- The first time is kept. The row that the source returns is not used by its callers.
unfoldable pub mark_delivered : OutboundEmails → String → ℕ → OutboundEmails
mark_delivered emails provider_ref delivered_at = elim (get emails provider_ref) [
  | none ↦ emails
  | some stored ↦
      if is_none stored.delivered_at
      then set emails provider_ref (record stored { delivered_at = some delivered_at })
      else emails
]

unfoldable pub find_pending_older_than : OutboundEmails → ℕ → List OutboundEmail
find_pending_older_than emails older_than =
    keep (λ e. is_none e.delivered_at && ltb e.sent_at older_than) (values emails)
