-- ===== src/Services/ActivationSweeper.antt =====
-- sweeper/activation-sweeper.service.ts: the deferred half of a scheduled publication.
pub mod Carry
use clickwrap.Prelude.{
  ℕ, ◌+◌, Bool, true, false, ◌&&◌, ◌||◌, not, String, Option, none, some, List, [], ◌∷◌, ◌<>◌, ◌==◌,
  String_eq, if◌then◌else◌, keep, leb, is_true, includes,
}
use clickwrap.Domain.Errors.{ok}
use clickwrap.Domain.Types.{
  VersionStatus_eq, StateValue_eq, published, pending_notification, notified, AgreementDocument,
  AgreementVersion, CustomerVersionState, consent, administration, system, version_activated,
  version_retired, obligation_rolled_out, block_carried_over,
}
use clickwrap.Domain.Lifecycle
use clickwrap.Domain.Lifecycle.{rollout_deadline_for}
use clickwrap.Store.Documents
use clickwrap.Store.Versions
use clickwrap.Store.States
use clickwrap.Runtime.{World, Env}
use clickwrap.Runtime.Exec.{
  Exec, pure, lift, gets, ◌>>=◌, ◌>>◌, for_each, for_each_isolated, now, new_id,
}
use clickwrap.Runtime.Recorder.{EventInput, event_input, record_event}
use clickwrap.Services.Publish.{save_version, save_state, retired_of}

abbrev activation_sweeper_actor : String
activation_sweeper_actor = "system:activation-sweeper"

-- Other published versions that are in effect at `t`.
unfoldable pub flipped_predecessors :
    AgreementVersion → ℕ → List AgreementVersion → List AgreementVersion
flipped_predecessors current t siblings =
    keep (λ v. not (v.id == current.id) && v.status == published && leb v.valid_from t) siblings

-- `isOpenForCarryOver && successor.carryOverBlocking !== true`
unfoldable pub takes_block : CustomerVersionState → Bool
takes_block successor =
    (successor.state == pending_notification || successor.state == notified)
    && not (is_true successor.carry_over_blocking)

-- The row that is created defensively, so that the block does not disappear.
unfoldable pub block_state : String → AgreementVersion → String → CustomerVersionState
block_state customer_id current id = record {
  id = id;
  customer_id = customer_id;
  version_id = current.id;
  state = pending_notification;
  notified_at = none;
  deadline_at = rollout_deadline_for current;
  reminders_sent = 0;
  carry_over_blocking = some true;
  notification_due_at = none;
}

customer_event : EventInput → String → AgreementVersion → EventInput
customer_event base customer_id current = record base {
  customer_id = some customer_id;
  version_id = some current.id;
  version_label = some current.version_label;
}

rolled_out_event : String → AgreementVersion → EventInput
unfolding customer_event
rolled_out_event customer_id current =
    customer_event
      (event_input obligation_rolled_out consent system activation_sweeper_actor
        ("Customer put under obligation for version " <> current.version_label))
      customer_id current

carried_over_event : String → AgreementVersion → EventInput
unfolding customer_event
carried_over_event customer_id current =
    customer_event
      (event_input block_carried_over consent system activation_sweeper_actor
        "Predecessor block carried over")
      customer_id current

version_event : EventInput → AgreementDocument → AgreementVersion → EventInput
version_event base document version = record base {
  version_id = some version.id;
  document_type = some document.type;
  audience = some document.audience;
  version_label = some version.version_label;
}

activated_event : AgreementDocument → AgreementVersion → EventInput
unfolding version_event
activated_event document current =
    version_event
      (event_input version_activated administration system activation_sweeper_actor
        ("Version " <> current.version_label <> " activated (scheduled publish became effective)"))
      document current

retired_event : AgreementDocument → AgreementVersion → EventInput
unfolding version_event
retired_event document predecessor =
    version_event
      (event_input version_retired administration system activation_sweeper_actor
        ("Version " <> predecessor.version_label <> " retired"))
      document predecessor

module _ (env : Env) where
  unfoldable pub record_block_carried_over : String → AgreementVersion → Exec (Unit {0})
  unfolding carried_over_event
  record_block_carried_over customer_id current =
      record_event env (carried_over_event customer_id current)

  -- `carryBlockOver`, from the successor's row, if there is one.
  unfoldable pub carry_to :
      String → AgreementVersion → Option CustomerVersionState → Exec (Unit {0})
  unfolding record_block_carried_over rolled_out_event
  carry_to customer_id current none w =
      (do
        id ← new_id env "cvs"
        save_state (block_state customer_id current id)
        record_event env (rolled_out_event customer_id current)
        record_block_carried_over customer_id current)
        w
  carry_to customer_id current (some successor) w =
      if takes_block successor
      then (do
        save_state (record successor { carry_over_blocking = some true })
        record_block_carried_over customer_id current)
          w
      else (ok tt, w)

  unfoldable pub carry_block_over : String → AgreementVersion → Exec (Unit {0})
  carry_block_over customer_id current w =
      carry_to customer_id current
        (States.find_by_customer_and_version w.states customer_id current.id) w

  carry_if : Bool → String → AgreementVersion → Exec (Unit {0})
  carry_if was_blocking customer_id current w =
      if was_blocking then carry_block_over customer_id current w else (ok tt, w)

  -- One open row of a predecessor.
  unfoldable pub supersede_one : AgreementVersion → CustomerVersionState → Exec (Unit {0})
  unfolding carry_if
  supersede_one current open_state = do
    result ← lift (Lifecycle.supersede open_state)
    save_state result.0
    carry_if result.1 open_state.customer_id current

  unfoldable pub retire_one :
      AgreementDocument → AgreementVersion → AgreementVersion → Exec (Unit {0})
  unfolding retired_event
  retire_one document current predecessor = do
    save_version (retired_of predecessor)
    record_event env (retired_event document predecessor)
    open_states ← gets (λ w. States.find_open_by_version w.states predecessor.id)
    for_each open_states (supersede_one current)

  unfoldable pub retire_flipped :
      AgreementDocument → AgreementVersion → List AgreementVersion → Exec (Unit {0})
  unfolding activated_event
  retire_flipped document current [] = pure tt
  retire_flipped document current (predecessor ∷ rest) = do
    record_event env (activated_event document current)
    for_each (predecessor ∷ rest) (retire_one document current)

  unfoldable pub activate_current :
      AgreementDocument → ℕ → Option AgreementVersion → Exec (Unit {0})
  activate_current document t none = pure tt
  activate_current document t (some current) = do
    siblings ← gets (λ w. Versions.find_by_document w.versions document.id)
    retire_flipped document current (flipped_predecessors current t siblings)

  unfoldable pub activate_one : AgreementDocument → Exec (Unit {0})
  activate_one document = do
    t ← now env
    current ← gets (λ w.
        Versions.find_current_published w.documents w.versions document.type document.audience t)
    activate_current document t current

  unfoldable pub run : Exec (Unit {0})
  run w =
      if env.is_sweeper_enabled
      then for_each_isolated (Documents.find_all w.documents) activate_one w
      else (ok tt, w)
