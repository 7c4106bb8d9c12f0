-- ===== src/Examples/Admins.antt =====
-- The work of administrators at concrete inputs.
use clickwrap.Prelude.{
  arith, ℕ, ◌≡◌, ◌≢◌, refl, String, true, false, Option, none, some, [], ◌∷◌, List, String_eq,
  is_true, inl, inr, In, any, ◌||◌,
}
use clickwrap.Prelude.Dict.{get, values, delete}
use clickwrap.Domain.Errors.{ok, err, objection_period_expired}
use clickwrap.Domain.Types.{notified, objected, accepted, CustomerVersionState}
use clickwrap.Domain.Lifecycle
use clickwrap.Domain.Lifecycle.{sweep, tacit_accepted}
use clickwrap.Store.States
use clickwrap.Runtime.{World}
use clickwrap.Runtime.Files.{PdfUpload, PdfStorage}
use clickwrap.Services.Acceptance.Checks.{Checked}
use clickwrap.Services.Acceptance.Moves.{IsMoved}
use clickwrap.Admin.ManualAcceptance.{
  ManualAcceptanceInput, ManualAcceptanceResult, by_consent, record_acceptance,
}
use clickwrap.Admin.ManualAcceptance.Outcome.{IsManual, IsWritten, record_acceptance-ok}
use clickwrap.Admin.Rows.{PatchStateInput, patched, patch}
use clickwrap.Admin.Rows.Patches.{IsPatched, patch-ok, reopened-sweep}
use clickwrap.Examples.{
  demo_env, active_version, passive_version, fresh_row, row_of, demo_actor, demo_world,
}

abbrev letter : PdfUpload
letter = record { buffer = 37 ∷ 80 ∷ []; file_name = "letter.pdf" }

abbrev pub demo_pdf : PdfStorage
demo_pdf = record {
  store = λ upload. record {
    storage_key = "key-1";
    content_hash = "hash-1";
    file_name = upload.file_name;
    file_size = 2;
  };
  get_presigned_url = λ key call. key;
}

abbrev letter_input : ManualAcceptanceInput
letter_input = record {
  version_id = "v-1";
  method = by_consent;
  reason = "signed on paper";
  evidence_document = letter;
}

abbrev letter_world : World
letter_world = demo_world (active_version ∷ []) (fresh_row active_version ∷ [])

abbrev letter_done : World
letter_done = (record_acceptance demo_env demo_pdf "c-1" letter_input demo_actor letter_world).1

abbrev letter_result : ManualAcceptanceResult
letter_result = record { acceptance_id = "a-u0"; state = accepted }

letter-runs :
    record_acceptance demo_env demo_pdf "c-1" letter_input demo_actor letter_world
    ≡ (ok letter_result, letter_done)
unfolding Lifecycle.accept States.find_by_customer_and_version States.find_by_id States.save
    States.transition clickwrap.Admin.ManualAcceptance.accept_manually
    clickwrap.Admin.ManualAcceptance.ensure_row clickwrap.Admin.ManualAcceptance.manual_checks
    clickwrap.Admin.ManualAcceptance.manual_hash clickwrap.Admin.ManualAcceptance.move_row
    clickwrap.Admin.ManualAcceptance.record_manual clickwrap.Domain.Consent.assert_customer_has_role
    clickwrap.Domain.Consent.assert_method_channel_allowed
    clickwrap.Domain.Consent.consent_text_hash_for clickwrap.Domain.Customers.customer_display_name
    clickwrap.Prelude.Dict.set clickwrap.Prelude.find clickwrap.Prelude.includes
    clickwrap.Prelude.is_space clickwrap.Prelude.trim clickwrap.Prelude.trim_end
    clickwrap.Prelude.trim_start clickwrap.Runtime.Audit.append_audit
    clickwrap.Runtime.Audit.audit_now clickwrap.Runtime.Exec.new_id clickwrap.Runtime.Exec.now
    clickwrap.Runtime.Recorder.record_event clickwrap.Runtime.Recorder.resolve_denormalized
    clickwrap.Services.Acceptance.Checks.required clickwrap.Services.Acceptance.append_acceptance
    clickwrap.Services.Acceptance.apply_transition
    clickwrap.Services.Acceptance.throw_stale_state_error clickwrap.Store.Acceptances.append
    clickwrap.Store.Acceptances.effective_for clickwrap.Store.Customers.find_by_id
    clickwrap.Store.Documents.find_by_id clickwrap.Store.Versions.find_by_id get record_acceptance
letter-runs = refl

record_acceptance-ok_example :
    (c : Checked) × IsManual letter_world "c-1" letter_input c
    × IsMoved
        (States.find_by_customer_and_version letter_world.states "c-1" c.version.id)
        "c-1"
        c.version.id
        letter_world.states
        letter_done.states
    × IsWritten "c-1" letter_input demo_actor c "a-u0" letter_world letter_done
    × (letter_result.state ≡ accepted)
record_acceptance-ok_example =
    record_acceptance-ok demo_env demo_pdf "c-1" letter_input demo_actor letter_world letter_done
      letter_result letter-runs

abbrev reopen : PatchStateInput
reopen = record {
  deadline_at = none;
  suspend_block = none;
  reopen_objection = some true;
  reason = "resolved by phone";
}

-- A row whose objection was raised before the deadline of 1800.
abbrev objected_row : CustomerVersionState
objected_row = row_of passive_version objected (some 1800)

abbrev reopened_row : CustomerVersionState
reopened_row = record objected_row { state = notified }

abbrev patch_world : World
patch_world = demo_world (passive_version ∷ []) (objected_row ∷ [])

abbrev patch_done : World
patch_done = (patch demo_env "cvs-1" reopen "admin" patch_world).1

patch-runs : patch demo_env "cvs-1" reopen "admin" patch_world ≡ (ok reopened_row, patch_done)
unfolding States.find_by_id clickwrap.Admin.Rows.get_state clickwrap.Admin.Rows.record_patch
    clickwrap.Admin.Rows.save_state clickwrap.Prelude.trim clickwrap.Runtime.Audit.audit_now
    clickwrap.Runtime.Recorder.record_event get patch patched
patch-runs = refl

patch-ok_example :
    (s : CustomerVersionState) × IsPatched "cvs-1" reopen "admin" s reopened_row patch_world
      patch_done
patch-ok_example =
    patch-ok demo_env "cvs-1" reopen "admin" patch_world patch_done reopened_row patch-runs

reopens : patched reopen objected_row ≡ ok reopened_row
unfolding patched
reopens = refl

reopened-sweep_example :
    (sweep reopened_row passive_version 1900
      ≡ (record reopened_row { state = accepted }, tacit_accepted))
    × (Lifecycle.object reopened_row passive_version 1900 ≡ err objection_period_expired)
reopened-sweep_example =
    reopened-sweep reopen objected_row reopened_row passive_version 1800 1900 refl reopens refl refl
      (ground arith)
