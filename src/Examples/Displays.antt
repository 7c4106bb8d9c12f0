-- ===== src/Examples/Displays.antt =====
-- Objections and displays at concrete inputs.
use clickwrap.Prelude.{arith, ◌≡◌, refl, none, some, [], ◌∷◌, String_eq}
use clickwrap.Prelude.Dict.{get}
use clickwrap.Domain.Errors.{ok}
use clickwrap.Domain.Types.{CustomerVersionState}
use clickwrap.Store.States
use clickwrap.Domain.Lifecycle
use clickwrap.Runtime.{World, acceptance_response, objection_response}
use clickwrap.Services.Objection.{ObjectionInput, object, object_state, escalation_of}
use clickwrap.Services.Objection.Outcome.{IsObjectable, IsObjected, object_state-ok}
use clickwrap.Services.Notification.{DisplayChannel, NotificationInput, notify}
use clickwrap.Services.Notification.Access.{notify-keeps}
use clickwrap.Examples.{demo_env, passive_version, seen_row, demo_context, demo_world}

abbrev objection_input : ObjectionInput
objection_input = record {
  customer_id = "c-1";
  version_id = "v-2";
  reason = some "no";
  idempotency_key = "k2";
  context = demo_context;
}

abbrev early_row : CustomerVersionState
early_row = seen_row passive_version (some 3000)

abbrev early_world : World
early_world = demo_world (passive_version ∷ []) (early_row ∷ [])

objection-runs : object_state demo_env objection_input passive_version early_row early_world ≡ (
  ok (objection_response "o-u0"),
  (object_state demo_env objection_input passive_version early_row early_world).1,
)
unfolding Lifecycle.object States.transition clickwrap.Runtime.Exec.new_id
    clickwrap.Runtime.Exec.now clickwrap.Runtime.Recorder.record_event
    clickwrap.Services.Objection.append_objection clickwrap.Services.Objection.apply_objection
    clickwrap.Services.Objection.objection_of clickwrap.Services.Objection.record_objection
    clickwrap.Services.Objection.try_object clickwrap.Services.Objection.write_objected
    clickwrap.Store.Objections.append get object_state
objection-runs = refl

object_state-ok_example :
    IsObjectable early_row passive_version 2000
    × IsObjected objection_input "cvs-1" "cvs-1" early_world
        (object_state demo_env objection_input passive_version early_row early_world).1
        (objection_response "o-u0")
object_state-ok_example =
    object_state-ok demo_env objection_input passive_version early_row "cvs-1" early_world
      (object_state demo_env objection_input passive_version early_row early_world).1
      (objection_response "o-u0") objection-runs

abbrev display_input : NotificationInput
display_input = record {
  customer_id = "c-1";
  version_id = "v-2";
  channel = DisplayChannel.portal;
  displayed_at = none;
  context = demo_context;
}

stored-early : get early_world.states "cvs-1" ≡ some early_row
unfolding get
stored-early = refl

seen-early : ¬ (early_row.notified_at ≡ none)
seen-early p = ground (arith, p)

notify-keeps_example :
    get (notify demo_env display_input early_world).1.states "cvs-1" ≡ some early_row
notify-keeps_example =
    notify-keeps demo_env display_input early_row "cvs-1" early_world stored-early seen-early
