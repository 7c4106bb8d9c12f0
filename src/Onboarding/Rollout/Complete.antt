-- ===== src/Onboarding/Rollout/Complete.antt =====
-- The rows after a rollout to one customer (customers/customer-admin.service.ts).
use mathlib.Core.Path.{subst}
use clickwrap.Prelude.{
  ℕ, ◌+◌, ◌≤◌, ◌≡◌, refl, ◌∙◌, ap, sym, inl, inr, Bool, true, false, ◌&&◌, String, String_eq, ◌==◌,
  ◌<>◌, ◌++◌, List, [], ◌∷◌, arith, find, includes, is_some, In, Bool-cases,
}
use clickwrap.Prelude.Dict.{values, set, has, get-set}
use clickwrap.Domain.Errors.{Result, ok, err}
use clickwrap.Domain.Types.{AgreementDocument, AgreementVersion, Customer, CustomerVersionState}
use clickwrap.Store.States
use clickwrap.Runtime.{World, Env}
use clickwrap.Runtime.Exec.{Exec, pure, ◌>>=◌, new_id, bind-through}
use clickwrap.Runtime.Recorder.{record_event}
use clickwrap.Onboarding.Rollout.{
  Trigger, rollout_versions, obligation_row, roll_out_version, roll_out_versions, roll_out_document,
  roll_out_documents,
}
use clickwrap.Onboarding.Rollout.Kept.{
  IsLeft, IsLeft-after, set-IsLeft, find-set_kept, find-set_new,
}

abbrev pub is_ok {ℓ} : {A : Type ℓ} → Result A → Bool
is_ok (ok a) = true
is_ok (err code) = false

abbrev pub HasRow : World → Customer → AgreementVersion → Type 0
HasRow w customer version =
    is_some (States.find_by_customer_and_version w.states customer.id version.id) ≡ true

module _ (env : Env) where
  abbrev pub row_id : ℕ → String
  row_id n = "cvs" <> "-" <> env.uuid n

  -- The random ids differ, and no row has one of those that are still to come.
  pub record IsFresh (w : World) : Type 0 where
    pub apart : (i j : ℕ) → row_id i ≡ row_id j → i ≡ j
    pub unused : (n : ℕ) → w.minted ≤ n → has w.states (row_id n) ≡ false

  IsFresh-after :
      (w u : World) (row : CustomerVersionState)
      → IsFresh w
      → u.states ≡ set w.states (row_id w.minted) row
      → u.minted ≡ w.minted + 1 + 1
      → IsFresh u
  IsFresh-after w u row f states minted = record {
    apart = f.apart;
    unused = λ n le. elim (Bool-cases (row_id w.minted == row_id n)) [
      | inl t ↦
          let same = f.apart w.minted n ((String_eq.beq_iff (row_id w.minted) (row_id n)).0 t) in
          absurd (omega (arith, same, minted, le))
      | inr e ↦
          let old = f.unused n (omega (arith, minted, le)) in
          rw states (rw (get-set w.states (row_id w.minted) (row_id n) row) (rw e old))
    ];
  }

  module _ (trigger : Trigger) (customer : Customer) where
    -- What a step leaves: the tables that it reads, rows that are there, and fresh ids.
    record IsStep (w u : World) : Type 0 where
      pub documents : u.documents ≡ w.documents
      pub versions : u.versions ≡ w.versions
      pub fresh : IsFresh u
      pub kept : (v : AgreementVersion) → HasRow w customer v → HasRow u customer v
      pub rows : (id : String) → IsLeft id w.states u.states

    stay : (w : World) → IsFresh w → IsStep w w
    stay w f = record {
      documents = refl;
      versions = refl;
      fresh = f;
      kept = λ v h. h;
      rows = λ id. inr refl;
    }

    after : (w u t : World) → IsStep w u → IsStep u t → IsStep w t
    after w u t a b = record {
      documents = b.documents ∙ a.documents;
      versions = b.versions ∙ a.versions;
      fresh = b.fresh;
      kept = λ v h. b.kept v (a.kept v h);
      rows = λ id. IsLeft-after id w.states u.states t.states (a.rows id) (b.rows id);
    }

    -- A call that returns and is a step.
    record Steps {ℓ} {A : Type ℓ} (m : Exec A) (w : World) : Type ℓ where
      pub result : A
      pub next : World
      pub runs : m w ≡ (ok result, next)
      pub step : IsStep w next

    -- Two calls after each other, with their results put together.
    step_append :
        (m n : Exec (List AgreementVersion)) (w : World) (a : Steps m w)
        → Steps n a.next
        → Steps (m >>= λ x. n >>= λ y. pure (x ++ y)) w
    step_append m n w a b = record {
      result = a.result ++ b.result;
      next = b.next;
      runs =
          bind-through m (λ x. n >>= λ y. pure (x ++ y)) w a.next a.result
            (ok (a.result ++ b.result), b.next) a.runs
            (bind-through n (λ y. pure (a.result ++ y)) a.next b.next b.result
              (ok (a.result ++ b.result), b.next) b.runs refl);
      step = after w a.next b.next a.step b.step;
    }

    step_version :
        (document : AgreementDocument) (version : AgreementVersion) (w : World)
        → IsFresh w
        → (s : Steps (roll_out_version env trigger customer document version) w) × HasRow s.next
            customer version
    unfolding roll_out_version new_id record_event States.save States.find_by_customer_and_version
    step_version document version w f =
        let p = λ (x : CustomerVersionState).
          x.customer_id == customer.id && x.version_id == version.id in
        elim (Bool-cases (is_some (find p (values w.states)))) [
          | inl t ↦ (record { result = []; next = w; runs = rw t refl; step = stay w f }, t)
          | inr n ↦
              let next = (roll_out_version env trigger customer document version w).1 in
              let id = row_id w.minted in
              let row = obligation_row customer version id in
              let states : next.states ≡ set w.states id row = rw n refl in
              let minted : next.minted ≡ w.minted + 1 + 1 = rw n refl in
              let free = f.unused w.minted (omega arith) in
              let here : p row ≡ true = ground (
                arith,
                String_eq.beq_iff customer.id customer.id,
                String_eq.beq_iff version.id version.id,
              ) in
              (
                record {
                  result = version ∷ [];
                  next = next;
                  runs = rw n refl;
                  step = record {
                    documents = rw n refl;
                    versions = rw n refl;
                    fresh = IsFresh-after w next row f states minted;
                    kept = λ v h. rw states (find-set_kept _ w.states id row free h);
                    rows = λ k. rw states (set-IsLeft w.states id k row free);
                  };
                },
                rw states (find-set_new p w.states id row here),
              )
        ]

    step_versions :
        (document : AgreementDocument) (versions : List AgreementVersion) (w : World)
        → IsFresh w
        → (s : Steps (roll_out_versions env trigger customer document versions) w)
          × ((v : AgreementVersion) → In v versions → HasRow s.next customer v)
    unfolding roll_out_versions step_append
    step_versions document [] w f =
        (record { result = []; next = w; runs = refl; step = stay w f }, λ v m. elim m [ ])
    step_versions document (version ∷ rest) w f =
        let (a, h) = step_version document version w f in
        let (b, k) = step_versions document rest a.next a.step.fresh in
        (
          step_append (roll_out_version env trigger customer document version)
              (roll_out_versions env trigger customer document rest) w a b,
          λ v m. elim m [
            | inl e ↦ subst (λ x. HasRow b.next customer x) e (b.step.kept version h)
            | inr n ↦ k v n
          ],
        )

    -- The versions of one document, if it is for one of the roles.
    abbrev IsDone : List String → ℕ → World → World → AgreementDocument → Type 0
    IsDone roles at w u document =
        (v : AgreementVersion)
        → includes roles document.audience ≡ true
        → In v (rollout_versions w document at)
        → HasRow u customer v

    step_document :
        (roles : List String) (at : ℕ) (document : AgreementDocument) (w : World)
        → IsFresh w
        → (s : Steps (roll_out_document env trigger customer roles at document) w) × IsDone roles at
            w s.next document
    unfolding roll_out_document
    step_document roles at document w f = elim (Bool-cases (includes roles document.audience)) [
      | inl t ↦
          let (s, h) = step_versions document (rollout_versions w document at) w f in
          (
            record { result = s.result; next = s.next; runs = rw t s.runs; step = s.step },
            λ v i m. h v m,
          )
      | inr n ↦ (
        record { result = []; next = w; runs = rw n refl; step = stay w f },
        λ v i m. absurd (cc (n, i)),
      )
    ]

    same_versions :
        (w u : World) (document : AgreementDocument) (at : ℕ)
        → IsStep w u
        → rollout_versions u document at ≡ rollout_versions w document at
    unfolding rollout_versions
    same_versions w u document at s = rw (s.documents, s.versions) refl

    step_documents :
        (roles : List String) (at : ℕ) (documents : List AgreementDocument) (w : World)
        → IsFresh w
        → (s : Steps (roll_out_documents env trigger customer roles at documents) w)
          × ((d : AgreementDocument) → In d documents → IsDone roles at w s.next d)
    unfolding roll_out_documents step_append
    step_documents roles at [] w f =
        (record { result = []; next = w; runs = refl; step = stay w f }, λ d m. elim m [ ])
    step_documents roles at (document ∷ rest) w f =
        let (a, h) = step_document roles at document w f in
        let (b, k) = step_documents roles at rest a.next a.step.fresh in
        (
          step_append (roll_out_document env trigger customer roles at document)
              (roll_out_documents env trigger customer roles at rest) w a b,
          λ d m. elim m [
            | inl e ↦ subst (IsDone roles at w b.next) e (λ v i n. b.step.kept v (h v i n))
            | inr l ↦ λ v i n. k d l v i (rw (same_versions w a.next d at a.step) n)
          ],
        )

  pub roll_out_documents-HasRow :
      (trigger : Trigger) (customer : Customer) (roles : List String) (at : ℕ)
      (documents : List AgreementDocument) (d : AgreementDocument) (v : AgreementVersion)
      (id : String) (w : World)
      → IsFresh w
      → In d documents
      → includes roles d.audience ≡ true
      → In v (rollout_versions w d at)
      → (let after = roll_out_documents env trigger customer roles at documents w in
          (is_ok after.0 ≡ true) × HasRow after.1 customer v × IsLeft id w.states after.1.states)
  roll_out_documents-HasRow trigger customer roles at documents d v id w f m i n =
      let (s, k) = step_documents trigger customer roles at documents w f in
      (
        ap (λ x. is_ok x.0) s.runs,
        subst (λ x. HasRow x customer v) (sym (ap (λ x. x.1) s.runs)) (k d m v i n),
        subst (λ x. IsLeft id w.states x.states) (sym (ap (λ x. x.1) s.runs)) (s.step.rows id),
      )
