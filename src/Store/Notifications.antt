-- ===== src/Store/Notifications.antt =====
-- persistence/inmemory/notification-event.repo.ts
use clickwrap.Prelude.{
  Bool, false, String, Option, none, some, List, ◌==◌, String_eq, if◌then◌else◌, keep, find,
}
use clickwrap.Prelude.Dict.{Dict, values, set, has}
use clickwrap.Domain.Errors.{Result, ok, err, invalid_state}
use clickwrap.Domain.Types.{NotificationEvent}

abbrev pub Notifications : Type 0
Notifications = Dict String NotificationEvent

unfoldable pub append : Notifications → NotificationEvent → Result Notifications
append events event =
    if has events event.id then err invalid_state else ok (set events event.id event)

unfoldable pub find_by_state : Notifications → String → List NotificationEvent
find_by_state events state_id = keep (λ e. e.customer_version_state_id == state_id) (values events)

-- `undefined === providerRef` is false for the text that is asked for.
is_ref : String → Option String → Bool
is_ref provider_ref none = false
is_ref provider_ref (some r) = r == provider_ref

unfoldable pub find_by_provider_ref : Notifications → String → Option NotificationEvent
unfolding is_ref
find_by_provider_ref events provider_ref =
    find (λ e. is_ref provider_ref e.provider_ref) (values events)

unfoldable pub find_all : Notifications → List NotificationEvent
find_all events = values events
