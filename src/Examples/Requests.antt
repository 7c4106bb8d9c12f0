-- ===== src/Examples/Requests.antt =====
-- Consents at concrete inputs.
use clickwrap.Prelude.{
  arith, ◌≡◌, refl, String, true, false, none, some, [], ◌∷◌, ◌⊎◌, ◌↔◌, ◌++◌, String_eq,
}
use clickwrap.Prelude.Dict.{get, has}
use clickwrap.Domain.Errors.{ok, err, consent_text_mismatch, already_accepted}
use clickwrap.Domain.Types.{pending_notification, accepted, CustomerVersionState}
use clickwrap.Store.States
use clickwrap.Store.Acceptances.Unique.{IsUnique}
use clickwrap.Runtime.{World, acceptance_response}
use clickwrap.Services.Acceptance.{process, accept, write_acceptance}
use clickwrap.Services.Acceptance.Checks.{AcceptanceInput, Checked, checks}
use clickwrap.Services.Acceptance.Admission.{IsAdmitted, checks_iff}
use clickwrap.Services.Acceptance.Evidence.{SameEvidence, process-err}
use clickwrap.Services.Acceptance.Outcome.{IsOutcome, process-ok, process-IsUnique}
use clickwrap.Services.Acceptance.Race.{write_acceptance_once}
use clickwrap.Services.Acceptance.Requests.{accept_idem, accept-err}
use clickwrap.Examples.{
  demo_env, active_version, terms, tenant, fresh_row, demo_context, demo_world,
}

abbrev consent_input : AcceptanceInput
consent_input = record {
  customer_id = "c-1";
  version_id = "v-1";
  displayed_consent_text = some "I agree";
  idempotency_key = "k1";
  context = demo_context;
  channel = none;
  evidence_note = none;
}

-- Another text was displayed than the version has.
abbrev wrong_input : AcceptanceInput
wrong_input = record consent_input { displayed_consent_text = some "I disagree" }

abbrev consent_world : World
consent_world = demo_world (active_version ∷ []) (fresh_row active_version ∷ [])

abbrev consent_done : World
consent_done = (process demo_env consent_input consent_world).1

abbrev demo_checked : Checked
demo_checked = record { version = active_version; document = terms; customer = tenant }

consent-runs :
    process demo_env consent_input consent_world ≡ (ok (acceptance_response "a-u0"), consent_done)
unfolding States.find_by_customer_and_version States.find_by_id States.save States.transition checks
    clickwrap.Domain.Consent.assert_customer_has_role
    clickwrap.Domain.Consent.assert_displayed_consent_text_matches
    clickwrap.Domain.Consent.assert_method_channel_allowed
    clickwrap.Domain.Consent.assert_version_current clickwrap.Domain.Consent.consent_text_hash_for
    clickwrap.Domain.Customers.customer_display_name clickwrap.Domain.Lifecycle.accept
    clickwrap.Prelude.Dict.set clickwrap.Prelude.Sort.insert clickwrap.Prelude.Sort.sort
    clickwrap.Prelude.find clickwrap.Prelude.includes clickwrap.Prelude.keep clickwrap.Prelude.trim
    clickwrap.Prelude.trim_end clickwrap.Prelude.trim_start clickwrap.Runtime.Exec.new_id
    clickwrap.Runtime.Exec.now clickwrap.Runtime.Recorder.record_event
    clickwrap.Runtime.Recorder.resolve_denormalized
    clickwrap.Services.Acceptance.Checks.check_consent_text
    clickwrap.Services.Acceptance.Checks.required clickwrap.Services.Acceptance.accept_row
    clickwrap.Services.Acceptance.after_checks clickwrap.Services.Acceptance.append_acceptance
    clickwrap.Services.Acceptance.apply_transition clickwrap.Services.Acceptance.evidence_hash
    clickwrap.Services.Acceptance.evidence_of clickwrap.Services.Acceptance.record_evidence
    clickwrap.Services.Acceptance.throw_stale_state_error clickwrap.Services.Acceptance.write_state
    clickwrap.Store.Acceptances.append clickwrap.Store.Acceptances.effective_for
    clickwrap.Store.Customers.find_by_id clickwrap.Store.Documents.find_by_id
    clickwrap.Store.Documents.find_by_type_and_audience clickwrap.Store.Versions.find_by_id
    clickwrap.Store.Versions.find_current_published clickwrap.Store.Versions.newest_first get
    process write_acceptance
consent-runs = refl

wrong-runs :
    process demo_env wrong_input consent_world
    ≡ (err consent_text_mismatch, (process demo_env wrong_input consent_world).1)
unfolding States.find_by_customer_and_version States.find_by_id States.save States.transition checks
    clickwrap.Domain.Consent.assert_customer_has_role
    clickwrap.Domain.Consent.assert_displayed_consent_text_matches
    clickwrap.Domain.Consent.assert_method_channel_allowed
    clickwrap.Domain.Consent.assert_version_current clickwrap.Domain.Consent.consent_text_hash_for
    clickwrap.Domain.Customers.customer_display_name clickwrap.Domain.Lifecycle.accept
    clickwrap.Prelude.Dict.set clickwrap.Prelude.Sort.insert clickwrap.Prelude.Sort.sort
    clickwrap.Prelude.find clickwrap.Prelude.includes clickwrap.Prelude.keep clickwrap.Prelude.trim
    clickwrap.Prelude.trim_end clickwrap.Prelude.trim_start clickwrap.Runtime.Exec.new_id
    clickwrap.Runtime.Exec.now clickwrap.Runtime.Recorder.record_event
    clickwrap.Runtime.Recorder.resolve_denormalized
    clickwrap.Services.Acceptance.Checks.check_consent_text
    clickwrap.Services.Acceptance.Checks.required clickwrap.Services.Acceptance.accept_row
    clickwrap.Services.Acceptance.after_checks clickwrap.Services.Acceptance.append_acceptance
    clickwrap.Services.Acceptance.apply_transition clickwrap.Services.Acceptance.evidence_hash
    clickwrap.Services.Acceptance.evidence_of clickwrap.Services.Acceptance.record_evidence
    clickwrap.Services.Acceptance.throw_stale_state_error clickwrap.Services.Acceptance.write_state
    clickwrap.Store.Acceptances.append clickwrap.Store.Acceptances.effective_for
    clickwrap.Store.Customers.find_by_id clickwrap.Store.Documents.find_by_id
    clickwrap.Store.Documents.find_by_type_and_audience clickwrap.Store.Versions.find_by_id
    clickwrap.Store.Versions.find_current_published clickwrap.Store.Versions.newest_first get
    process write_acceptance
wrong-runs = refl

process-ok_example :
    (c : Checked) × IsAdmitted consent_world 2000 consent_input c
    × IsOutcome consent_input c
        (States.find_by_customer_and_version consent_world.states "c-1" "v-1")
        consent_world
        consent_done
        (acceptance_response "a-u0")
process-ok_example =
    process-ok demo_env consent_input consent_world consent_done (acceptance_response "a-u0")
      consent-runs

process-err_example : SameEvidence consent_world (process demo_env wrong_input consent_world).1
process-err_example =
    process-err demo_env wrong_input consent_world (process demo_env wrong_input consent_world).1
      consent_text_mismatch wrong-runs

no-acceptances : IsUnique []
no-acceptances = record { keyed = tt; by_id = tt; distinct = tt }

process-IsUnique_example : IsUnique consent_done.acceptances
process-IsUnique_example = process-IsUnique demo_env consent_input consent_world no-acceptances

checks_iff_example :
    (checks consent_world 2000 consent_input ≡ ok demo_checked)
    ↔ IsAdmitted consent_world 2000 consent_input demo_checked
checks_iff_example = checks_iff consent_world 2000 consent_input demo_checked

accept-runs :
    accept demo_env consent_input consent_world
    ≡ (ok (acceptance_response "a-u0"), (accept demo_env consent_input consent_world).1)
unfolding States.find_by_customer_and_version States.find_by_id States.save States.transition accept
    checks clickwrap.Domain.Consent.assert_customer_has_role
    clickwrap.Domain.Consent.assert_displayed_consent_text_matches
    clickwrap.Domain.Consent.assert_method_channel_allowed
    clickwrap.Domain.Consent.assert_version_current clickwrap.Domain.Consent.consent_text_hash_for
    clickwrap.Domain.Customers.customer_display_name clickwrap.Domain.Lifecycle.accept
    clickwrap.Prelude.Dict.delete clickwrap.Prelude.Dict.set clickwrap.Prelude.Sort.insert
    clickwrap.Prelude.Sort.sort clickwrap.Prelude.find clickwrap.Prelude.includes
    clickwrap.Prelude.keep clickwrap.Prelude.trim clickwrap.Prelude.trim_end
    clickwrap.Prelude.trim_start clickwrap.Runtime.Exec.new_id clickwrap.Runtime.Exec.now
    clickwrap.Runtime.Recorder.record_event clickwrap.Runtime.Recorder.resolve_denormalized
    clickwrap.Runtime.Replies.release clickwrap.Services.Acceptance.Checks.check_consent_text
    clickwrap.Services.Acceptance.Checks.required clickwrap.Services.Acceptance.accept_row
    clickwrap.Services.Acceptance.after_checks clickwrap.Services.Acceptance.append_acceptance
    clickwrap.Services.Acceptance.apply_transition clickwrap.Services.Acceptance.await_attempts
    clickwrap.Services.Acceptance.await_replay clickwrap.Services.Acceptance.evidence_hash
    clickwrap.Services.Acceptance.evidence_of clickwrap.Services.Acceptance.process_reserved
    clickwrap.Services.Acceptance.record_evidence
    clickwrap.Services.Acceptance.throw_stale_state_error clickwrap.Services.Acceptance.write_state
    clickwrap.Store.Acceptances.append clickwrap.Store.Acceptances.effective_for
    clickwrap.Store.Customers.find_by_id clickwrap.Store.Documents.find_by_id
    clickwrap.Store.Documents.find_by_type_and_audience clickwrap.Store.Versions.find_by_id
    clickwrap.Store.Versions.find_current_published clickwrap.Store.Versions.newest_first get
    process write_acceptance
accept-runs = refl

accept_idem_example :
    accept demo_env consent_input (accept demo_env consent_input consent_world).1
    ≡ (ok (acceptance_response "a-u0"), (accept demo_env consent_input consent_world).1)
accept_idem_example =
    accept_idem demo_env consent_input consent_world (accept demo_env consent_input consent_world).1
      (acceptance_response "a-u0") accept-runs

accept-fails :
    accept demo_env wrong_input consent_world
    ≡ (err consent_text_mismatch, (accept demo_env wrong_input consent_world).1)
unfolding States.find_by_customer_and_version States.find_by_id States.save States.transition accept
    checks clickwrap.Domain.Consent.assert_customer_has_role
    clickwrap.Domain.Consent.assert_displayed_consent_text_matches
    clickwrap.Domain.Consent.assert_method_channel_allowed
    clickwrap.Domain.Consent.assert_version_current clickwrap.Domain.Consent.consent_text_hash_for
    clickwrap.Domain.Customers.customer_display_name clickwrap.Domain.Lifecycle.accept
    clickwrap.Prelude.Dict.delete clickwrap.Prelude.Dict.set clickwrap.Prelude.Sort.insert
    clickwrap.Prelude.Sort.sort clickwrap.Prelude.find clickwrap.Prelude.includes
    clickwrap.Prelude.keep clickwrap.Prelude.trim clickwrap.Prelude.trim_end
    clickwrap.Prelude.trim_start clickwrap.Runtime.Exec.new_id clickwrap.Runtime.Exec.now
    clickwrap.Runtime.Recorder.record_event clickwrap.Runtime.Recorder.resolve_denormalized
    clickwrap.Runtime.Replies.release clickwrap.Services.Acceptance.Checks.check_consent_text
    clickwrap.Services.Acceptance.Checks.required clickwrap.Services.Acceptance.accept_row
    clickwrap.Services.Acceptance.after_checks clickwrap.Services.Acceptance.append_acceptance
    clickwrap.Services.Acceptance.apply_transition clickwrap.Services.Acceptance.await_attempts
    clickwrap.Services.Acceptance.await_replay clickwrap.Services.Acceptance.evidence_hash
    clickwrap.Services.Acceptance.evidence_of clickwrap.Services.Acceptance.process_reserved
    clickwrap.Services.Acceptance.record_evidence
    clickwrap.Services.Acceptance.throw_stale_state_error clickwrap.Services.Acceptance.write_state
    clickwrap.Store.Acceptances.append clickwrap.Store.Acceptances.effective_for
    clickwrap.Store.Customers.find_by_id clickwrap.Store.Documents.find_by_id
    clickwrap.Store.Documents.find_by_type_and_audience clickwrap.Store.Versions.find_by_id
    clickwrap.Store.Versions.find_current_published clickwrap.Store.Versions.newest_first get
    process write_acceptance
accept-fails = refl

no-reply : has consent_world.replies "acceptance:c-1:k1" ≡ false
unfolding get
no-reply = refl

accept-err_example : SameEvidence consent_world (accept demo_env wrong_input consent_world).1
accept-err_example =
    accept-err demo_env wrong_input consent_world (accept demo_env wrong_input consent_world).1
      consent_text_mismatch no-reply accept-fails

abbrev accepted_row : CustomerVersionState
accepted_row = record (fresh_row active_version) { state = accepted }

abbrev won_world : World
won_world =
    (write_acceptance demo_env consent_input demo_checked (some (fresh_row active_version))
      accepted_row consent_world).1

first-wins :
    write_acceptance demo_env consent_input demo_checked
      (some (fresh_row active_version))
      accepted_row
      consent_world
    ≡ (ok (acceptance_response "a-u0"), won_world)
unfolding States.transition clickwrap.Domain.Consent.consent_text_hash_for clickwrap.Prelude.find
    clickwrap.Runtime.Exec.new_id clickwrap.Runtime.Exec.now clickwrap.Runtime.Recorder.record_event
    clickwrap.Services.Acceptance.record_evidence clickwrap.Services.Acceptance.write_state
    clickwrap.Store.Acceptances.append clickwrap.Store.Acceptances.effective_for get
    write_acceptance
first-wins = refl

not-yet : ¬ (pending_notification ≡ accepted)
not-yet p = ground (arith, p)

write_acceptance_once_example :
    write_acceptance demo_env wrong_input demo_checked
      (some (fresh_row active_version))
      accepted_row
      won_world
    ≡ (err already_accepted, won_world)
write_acceptance_once_example =
    write_acceptance_once demo_env consent_input wrong_input demo_checked demo_checked
      (fresh_row active_version) accepted_row accepted_row consent_world won_world
      (acceptance_response "a-u0") not-yet refl first-wins
