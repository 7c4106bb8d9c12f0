-- ===== src/Admin/Rows/Patches.antt =====
-- What a patch does to the rows, and what becomes of an objection that is reopened too late.
use clickwrap.Prelude.{
  ℕ, ◌≤◌, ◌≡◌, refl, String, true, false, not, some, [], ◌∷◌, ◌++◌, inl, inr, arith, String_eq,
  ◌==◌, ◌<>◌, trim, is_true, Bool-cases, Option-cases,
}
use mathlib.Core.Path.{subst}
use clickwrap.Domain.Errors.{ok, err, objection_period_expired, invalid_state}
use clickwrap.Domain.Types.{
  StateValue_eq, state_eq_iff, passive, notified, objected, expired_blocking, accepted,
  AgreementVersion, flag, CustomerVersionState, AdminAuditLog, customer_version_state_patch,
}
use clickwrap.Domain.Consent.{require}
use clickwrap.Domain.Lifecycle
use clickwrap.Domain.Lifecycle.{sweep, tacit_accepted, before_deadline}
use clickwrap.Store.States
use clickwrap.Runtime.{World, Env}
use clickwrap.Runtime.Exec.{now, new_id, bind-ok, fetch-ok, lift}
use clickwrap.Runtime.Recorder.{record_event}
use clickwrap.Runtime.Audit.{append_audit, audit_now, audit_entry}
use clickwrap.Admin.Rows.{
  PatchStateInput, patched, get_state, save_state, record_patch, patch, moment,
}

-- The three ways to patch a row.
pub data Patched (input : PatchStateInput) (s : CustomerVersionState)
    : CustomerVersionState → Type 0 where
  reopened :
      is_true input.reopen_objection ≡ true
      → s.state ≡ objected
      → Patched input s (record s { state = notified })
  suspended :
      (deadline : ℕ)
      → is_true input.reopen_objection ≡ false
      → is_true input.suspend_block ≡ true
      → input.deadline_at ≡ some deadline
      → s.state ≡ expired_blocking
      → Patched input s (record s { state = notified; deadline_at = some deadline })
  extended :
      (deadline : ℕ)
      → is_true input.reopen_objection ≡ false
      → is_true input.suspend_block ≡ false
      → input.deadline_at ≡ some deadline
      → Patched input s (record s { deadline_at = some deadline })

patched-Patched :
    (input : PatchStateInput) (s s' : CustomerVersionState)
    → patched input s ≡ ok s'
    → Patched input s s'
unfolding patched
patched-Patched input s s' h = elim (Bool-cases (is_true input.reopen_objection)) [
  | inl a ↦ elim (Bool-cases (s.state == objected)) [
    | inl e ↦
        let p : record s { state = notified } ≡ s' = ground arith in
        subst (Patched input s) p (reopened a ((state_eq_iff s.state objected).0 e))
    | inr e ↦ ground arith
  ]
  | inr a ↦ elim (Bool-cases (is_true input.suspend_block)) [
    | inl b ↦ elim (Option-cases input.deadline_at) [
      | inl c ↦ ground arith
      | inr (d, c) ↦ elim (Bool-cases (s.state == expired_blocking)) [
        | inl e ↦
            let p : record s { state = notified; deadline_at = some d } ≡ s' = ground arith in
            subst (Patched input s) p
              (suspended d a b c ((state_eq_iff s.state expired_blocking).0 e))
        | inr e ↦ ground arith
      ]
    ]
    | inr b ↦ elim (Option-cases input.deadline_at) [
      | inl c ↦ ground arith
      | inr (d, c) ↦
          let p : record s { deadline_at = some d } ≡ s' = ground arith in
          subst (Patched input s) p (extended d a b c)
    ]
  ]
]

-- An objection that is reopened when its deadline has passed is accepted tacitly by the next sweep, and
-- cannot be raised anew.
pub reopened-sweep :
    (input : PatchStateInput) (s s' : CustomerVersionState) (version : AgreementVersion)
    (deadline now : ℕ)
    → is_true input.reopen_objection ≡ true
    → patched input s ≡ ok s'
    → version.acceptance_mode ≡ passive
    → s.deadline_at ≡ some deadline
    → deadline ≤ now
    → (sweep s' version now ≡ (record s' { state = accepted }, tacit_accepted))
      × (Lifecycle.object s' version now ≡ err objection_period_expired)
unfolding patched sweep Lifecycle.object before_deadline
reopened-sweep input s s' version deadline now r h m d le = (ground arith, ground arith)

-- What a patch leaves behind: its row written under the row's id, one audit entry with the reason, and
-- no change to acceptances and objections.
pub record IsPatched (state_id : String) (input : PatchStateInput) (admin_user_id : String)
    (s s' : CustomerVersionState) (w w' : World) : Type 0 where
  pub reason : (trim input.reason == "") ≡ false
  pub read : States.find_by_id w.states state_id ≡ some s
  pub request : Patched input s s'
  pub states : w'.states ≡ States.save w.states s'
  pub acceptances : w'.acceptances ≡ w.acceptances
  pub objections : w'.objections ≡ w.objections
  pub entry : AdminAuditLog
  pub audited : w'.audit ≡ w.audit ++ entry ∷ []
  pub by_admin : entry.actor ≡ admin_user_id
  pub target : entry.target_id ≡ state_id
  pub entry_reason : entry.reason ≡ some input.reason

module _ (env : Env) where
  entry_of : String → PatchStateInput → String → World → AdminAuditLog
  entry_of state_id input admin_user_id w =
      audit_entry customer_version_state_patch admin_user_id "CustomerVersionState" state_id
        (some input.reason)
        (some (
          ("deadlineAt", moment input.deadline_at)
          ∷ ("suspendBlock", flag (is_true input.suspend_block))
          ∷ ("reopenObjection", flag (is_true input.reopen_objection))
          ∷ []))
        ("audit" <> "-" <> env.uuid w.minted) (env.clock w.ticks)

  -- A patch that returns had a reason, and did to the stored row one of three things: from OBJECTED to
  -- NOTIFIED with all dates kept, from EXPIRED_BLOCKING to NOTIFIED with a new deadline, or a new
  -- deadline alone. It wrote that row and one audit entry with the reason, and neither an acceptance nor
  -- an objection.
  pub patch-ok :
      (state_id : String) (input : PatchStateInput) (admin_user_id : String) (w w' : World)
      (s' : CustomerVersionState)
      → patch env state_id input admin_user_id w ≡ (ok s', w')
      → (s : CustomerVersionState) × IsPatched state_id input admin_user_id s s' w w'
  unfolding patch get_state save_state record_patch now new_id record_event audit_now append_audit
      entry_of
  patch-ok state_id input admin_user_id w w' s' h =
      let reason = lift (require (not (trim input.reason == "")) invalid_state) in
      let (u, p, h1) = bind-ok reason _ w w' s' h in
      let (s, q, h2) =
        fetch-ok (λ v. States.find_by_id v.states state_id) invalid_state _ w w' s' h1 in
      let (t, r, h3) = bind-ok (lift (patched input s)) _ w w' s' h2 in
      let same : t ≡ s' = ground (arith, h3) in
      (
        s,
        record {
          reason = ground (arith, p);
          read = q;
          request = subst (Patched input s) same (patched-Patched input s t r);
          states = ground (arith, h3);
          acceptances = ground (arith, h3);
          objections = ground (arith, h3);
          entry = entry_of state_id input admin_user_id w;
          audited = ground (arith, h3);
          by_admin = refl;
          target = refl;
          entry_reason = refl;
        },
      )
