-- ===== src/Admin/ManualAcceptance/Outcome.antt =====
-- What a manual recording that returned was admitted by and has written.
use clickwrap.Prelude.{
  [], ◌∷◌, ◌++◌, ◌+◌, ◌≡◌, refl, ◌∙◌, sym, ap, inl, inr, String, true, false, some, arith, trim,
  String_eq, ◌<>◌, ◌==◌, includes, Option-cases,
}
use mathlib.Core.Path.{subst}
use clickwrap.Domain.Errors.{ok, Result-cases}
use clickwrap.Domain.Types.{
  accepted, AcceptanceChannel, Actor, Acceptance, AdminAuditLog, manual_acceptance,
}
use clickwrap.Domain.Consent.{assert_customer_has_role}
use clickwrap.Domain.Lifecycle
use clickwrap.Store.Versions
use clickwrap.Store.Documents
use clickwrap.Store.Customers
use clickwrap.Store.States
use clickwrap.Store.Acceptances
use clickwrap.Runtime.{World, Env}
use clickwrap.Runtime.Exec.{now, new_id, bind-ok, lift, query}
use clickwrap.Runtime.Recorder.{record_event}
use clickwrap.Runtime.Audit.{append_audit, audit_now, audit_entry}
use clickwrap.Runtime.Files.{is_empty_upload, PdfStorage, StoredPdf}
use clickwrap.Services.Acceptance.{append_acceptance}
use clickwrap.Services.Acceptance.Checks.{Checked, required}
use clickwrap.Services.Acceptance.Moves.{IsMoved}
use clickwrap.Admin.ManualAcceptance.Row.{
  ensure_row-row, accept-manual, IsMoved-at, IsQuiet, ensure_row-IsQuiet, move_row-IsQuiet,
}
use clickwrap.Admin.ManualAcceptance.{
  ManualAcceptanceInput, ManualAcceptanceResult, as_method, manual_checks, ensure_row, manual_hash,
  manual_evidence, record_manual, move_row, accept_manually, record_acceptance, manual_metadata,
}

-- A reason, an evidence file, and a customer with the role of the version's document.
pub record IsManual (w : World) (customer_id : String) (input : ManualAcceptanceInput) (c : Checked)
    : Type 0 where
  pub reason : (trim input.reason == "") ≡ false
  pub evidence : is_empty_upload input.evidence_document ≡ false
  pub customer : Customers.find_by_id w.customers customer_id ≡ some c.customer
  pub version : Versions.find_by_id w.versions input.version_id ≡ some c.version
  pub document : Documents.find_by_id w.documents c.version.document_id ≡ some c.document
  pub role : includes c.customer.roles c.document.audience ≡ true

manual_checks-ok :
    (w : World) (customer_id : String) (input : ManualAcceptanceInput) (c : Checked)
    → manual_checks w customer_id input ≡ ok c
    → IsManual w customer_id input c
unfolding manual_checks required assert_customer_has_role
manual_checks-ok w customer_id input c h =
    elim (Option-cases (Customers.find_by_id w.customers customer_id)) [
      | inl e ↦ ground arith
      | inr (customer, e) ↦ elim (Option-cases (Versions.find_by_id w.versions input.version_id)) [
        | inl f ↦ ground arith
        | inr (version, f) ↦
            elim (Option-cases (Documents.find_by_id w.documents version.document_id)) [
              | inl g ↦ ground arith
              | inr (document, g) ↦ record {
                reason = ground arith;
                evidence = ground arith;
                customer = ground arith;
                version = ground arith;
                document = ground arith;
                role = ground arith;
              }
            ]
      ]
    ]

-- One effective acceptance was appended, of the customer for the version, through the channel ADMIN, in
-- the administrator's name, and one audit entry about it with the reason.
pub record IsWritten (customer_id : String) (input : ManualAcceptanceInput) (actor : Actor)
    (c : Checked) (id : String) (w w' : World) : Type 0 where
  pub acceptance : Acceptance
  pub same_id : acceptance.id ≡ id
  pub appended : Acceptances.append w.acceptances acceptance ≡ ok w'.acceptances
  pub of_customer : acceptance.customer_id ≡ customer_id
  pub of_version : acceptance.version_id ≡ c.version.id
  pub is_effective : acceptance.is_effective ≡ true
  pub method : acceptance.method ≡ as_method input.method
  pub channel : acceptance.channel ≡ AcceptanceChannel.admin
  pub by_actor : acceptance.actor ≡ actor
  pub content_hash : acceptance.content_hash ≡ some c.version.content_hash
  pub entry : AdminAuditLog
  pub audited : w'.audit ≡ w.audit ++ entry ∷ []
  pub target : entry.target_id ≡ id
  pub entry_reason : entry.reason ≡ some input.reason
  pub objections : w'.objections ≡ w.objections

module _ (env : Env) where
  record_manual-ok :
      (customer_id : String) (input : ManualAcceptanceInput) (actor : Actor) (c : Checked)
      (file : StoredPdf) (w w' : World) (a : Acceptance)
      → record_manual env customer_id input actor c file w ≡ (ok a, w')
      → IsWritten customer_id input actor c a.id w w' × (w'.states ≡ w.states)
  unfolding record_manual now new_id record_event append_acceptance audit_now append_audit
  record_manual-ok customer_id input actor c file w w' r h =
      elim (Result-cases (manual_hash env input.method c.version)) [
        | inl (e, p) ↦ ground arith
        | inr (hash, p) ↦
            let a =
              manual_evidence env customer_id input actor c.version
                ("a" <> "-" <> env.uuid w.minted) (env.clock w.ticks) hash in
            elim (Result-cases (Acceptances.append w.acceptances a)) [
              | inl (e, q) ↦ ground arith
              | inr (d, q) ↦ (
                record {
                  acceptance = a;
                  same_id = ground arith;
                  appended = ground arith;
                  of_customer = refl;
                  of_version = refl;
                  is_effective = refl;
                  method = refl;
                  channel = refl;
                  by_actor = refl;
                  content_hash = refl;
                  entry =
                      audit_entry manual_acceptance actor.user_id "Acceptance" a.id
                        (some input.reason) (some (manual_metadata customer_id input c file))
                        ("audit" <> "-" <> env.uuid (w.minted + 1)) (env.clock (w.ticks + 1));
                  audited = ground arith;
                  target = ground arith;
                  entry_reason = ground arith;
                  objections = ground arith;
                },
                ground arith,
              )
            ]
      ]

  IsWritten-of :
      (customer_id : String) (input : ManualAcceptanceInput) (actor : Actor) (c : Checked)
      (id : String) (w w1 w2 w' : World)
      → IsQuiet w w1
      → IsQuiet w1 w2
      → IsWritten customer_id input actor c id w2 w'
      → IsWritten customer_id input actor c id w w'
  unfolding IsQuiet
  IsWritten-of customer_id input actor c id w w1 w2 w' p q k = record {
    acceptance = k.acceptance;
    same_id = k.same_id;
    appended = ap (λ d. Acceptances.append d k.acceptance) (sym (q.0 ∙ p.0)) ∙ k.appended;
    of_customer = k.of_customer;
    of_version = k.of_version;
    is_effective = k.is_effective;
    method = k.method;
    channel = k.channel;
    by_actor = k.by_actor;
    content_hash = k.content_hash;
    entry = k.entry;
    audited = k.audited ∙ ap (λ d. d ++ k.entry ∷ []) (q.1 ∙ p.1);
    target = k.target;
    entry_reason = k.entry_reason;
    objections = k.objections ∙ q.2 ∙ p.2;
  }

  accept_manually-ok :
      (pdf : PdfStorage) (customer_id : String) (input : ManualAcceptanceInput) (actor : Actor)
      (c : Checked) (w w' : World) (r : ManualAcceptanceResult)
      → accept_manually env pdf customer_id input actor c w ≡ (ok r, w')
      → IsMoved
          (States.find_by_customer_and_version w.states customer_id c.version.id)
          customer_id
          c.version.id
          w.states
          w'.states
        × IsWritten customer_id input actor c r.acceptance_id w w'
        × (r.state ≡ accepted)
  unfolding accept_manually
  accept_manually-ok pdf customer_id input actor c w w' r h =
      let file = pdf.store input.evidence_document in
      let found = States.find_by_customer_and_version w.states customer_id c.version.id in
      let (row, p, h1) = bind-ok (ensure_row env customer_id c.version.id found) _ w w' r h in
      let w1 = (ensure_row env customer_id c.version.id found w).1 in
      let (next, q, h2) =
        bind-ok (lift (Lifecycle.accept row (as_method input.method))) _ w1 w' r h1 in
      let n = accept-manual input.method row next q in
      let (u, m, h3) = bind-ok (move_row env row next.state) _ w1 w' r h2 in
      let w2 = (move_row env row next.state w1).1 in
      let (a, e, h4) = bind-ok (record_manual env customer_id input actor c file) _ w2 w' r h3 in
      let w3 = (record_manual env customer_id input actor c file w2).1 in
      let o = record_manual-ok customer_id input actor c file w2 w3 a (ap (λ x. (x, w3)) e) in
      let same : w3 ≡ w' = ap (λ x. x.1) h4 in
      let id : a.id ≡ r.acceptance_id = ground (arith, h4) in
      let d = ensure_row-row env customer_id c.version.id found w w1 row (ap (λ x. (x, w1)) p) in
      (
        subst (λ states. IsMoved found customer_id c.version.id w.states states)
            (sym o.1 ∙ ap (λ v. v.states) same)
            (IsMoved-at env found row next.state customer_id c.version.id w w1 n d m),
        subst (λ v. IsWritten customer_id input actor c r.acceptance_id w v) same
            (subst (λ i. IsWritten customer_id input actor c i w w3) id
              (IsWritten-of customer_id input actor c a.id w w1 w2 w3
                (ensure_row-IsQuiet env customer_id c.version.id found w)
                (move_row-IsQuiet env row next.state w1) o.0)),
        ground (arith, h4, n),
      )

  -- A manual recording that returns had a reason and a file, and was for a customer with the role of the
  -- document; it moved the customer's row for the version to ACCEPTED, with nothing else changed, or stored a new row
  -- with the ids of the customer and the version; every other row is as it was; and it
  -- appended exactly one effective acceptance of channel ADMIN in the administrator's name and one
  -- audit entry that has the reason.
  pub record_acceptance-ok :
      (pdf : PdfStorage) (customer_id : String) (input : ManualAcceptanceInput) (actor : Actor)
      (w w' : World) (r : ManualAcceptanceResult)
      → record_acceptance env pdf customer_id input actor w ≡ (ok r, w')
      → (c : Checked) × IsManual w customer_id input c
        × IsMoved
            (States.find_by_customer_and_version w.states customer_id c.version.id)
            customer_id
            c.version.id
            w.states
            w'.states
        × IsWritten customer_id input actor c r.acceptance_id w w'
        × (r.state ≡ accepted)
  unfolding record_acceptance
  record_acceptance-ok pdf customer_id input actor w w' r h =
      let (c, p, h1) = bind-ok (query (λ v. manual_checks v customer_id input)) _ w w' r h in
      let o = accept_manually-ok pdf customer_id input actor c w w' r h1 in
      (c, manual_checks-ok w customer_id input c p, o.0, o.1, o.2)
