-- ===== src/Services/RolloutNotification.antt =====
-- sweeper/rollout-notification.service.ts: the mails of a rollout, in batches.
pub mod Claims
use clickwrap.Prelude.{
  ℕ, String, Bool, true, false, Option, none, some, List, [], ◌∷◌, String_eq, if◌then◌else◌,
  is_some, or_else,
}
use clickwrap.Prelude.Dict.{Dict, get, set, has}
use clickwrap.Domain.Types.{AgreementVersion, Customer, CustomerVersionState}
use clickwrap.Store.Versions
use clickwrap.Store.Customers
use clickwrap.Store.States
use clickwrap.Runtime.{World}
use clickwrap.Runtime.Exec.{Exec}

-- `versionCache`, which also remembers that a version is missing.
abbrev pub VersionCache : Type 0
VersionCache = Dict String (Option AgreementVersion)

unfoldable pub remember : World → String → VersionCache → VersionCache
remember w version_id cache =
    if has cache version_id
    then cache
    else set cache version_id (Versions.find_by_id w.versions version_id)

cached : VersionCache → String → Option AgreementVersion
cached cache version_id = or_else (get cache version_id) none

-- `clearNotificationDue`, the claim.
unfoldable pub claim : CustomerVersionState → World → World
claim state w = record w { states = States.clear_notification_due w.states state.id }

-- `notifyVersionPublished` of the notifier, which may throw.
module _ (notify_version_published : Customer → AgreementVersion → Exec (Unit {0})) where
  unfoldable pub notify_customer : Option AgreementVersion → Option Customer → World → World
  notify_customer none customer w = w
  notify_customer (some version) none w = w
  notify_customer (some version) (some customer) w =
      if is_some customer.deleted_at then w else (notify_version_published customer version w).1

  -- One round, whose errors are logged: the version is looked up in the cache.
  unfoldable pub notify_one : CustomerVersionState → VersionCache → World → World
  unfolding cached
  notify_one state cache w =
      notify_customer (cached cache state.version_id)
        (Customers.find_by_id w.customers state.customer_id) w

  unfoldable pub notify_all : List CustomerVersionState → VersionCache → World → World
  notify_all [] cache w = w
  notify_all (state ∷ rest) cache w =
      let claimed = claim state w in
      let cache' = remember claimed state.version_id cache in
      notify_all rest cache' (notify_one state cache' claimed)

  unfoldable pub run : (is_disabled : Bool) (batch_size : ℕ) → World → World
  run true batch_size w = w
  run false batch_size w = notify_all (States.find_due_for_notification w.states batch_size) [] w
