-- ===== src/Services/Publish/Total.antt =====
-- That a publication goes through once the version, its fields and its document are in order.
use clickwrap.Prelude.{
  ℕ, ◌+◌, ◌≡◌, refl, sym, ap, ◌∙◌, inl, inr, String, ◌&&◌, not, some, List, [], ◌∷◌, arith,
  String_eq, Bool-cases, All, keep-In, All-of, includes, ◌==◌, leb,
}
use text.Mathlib.TextEquality.{eq_iff}
use clickwrap.Prelude.Dict.{values, get, set}
use clickwrap.Prelude.Dict.Distinct.{IsById, get-IsById}
use clickwrap.Domain.Errors.{ok, version_not_found, invalid_state}
use clickwrap.Domain.Types.{
  VersionStatus_eq, StateValue_eq, published, AgreementDocument, AgreementVersion, Customer,
  CustomerVersionState,
}
use clickwrap.Domain.Consent.{validate_for_publish}
use clickwrap.Store.Documents
use clickwrap.Store.Versions
use clickwrap.Store.States
use clickwrap.Store.Customers
use clickwrap.Runtime.{World, Env}
use clickwrap.Runtime.Exec.{
  Exec, for_each, now, new_id, bind-through, fetch, found, lift, continue, pure,
}
use clickwrap.Runtime.Recorder.{record_event}
use clickwrap.Services.Publish.{
  Blocking, save_version, supersede_open, retired_of, retired_event, predecessors_of, retire,
  roll_out, retire_predecessors, roll_out_all, publish_checked, publish_version, published_of,
  PublishResult,
}
use clickwrap.Services.Publish.Rollout.{IsOpen, all_superseded, supersede_open_lem}

-- The document of a version is stored.
abbrev HasDocument : Documents.Documents → AgreementVersion → Type 0
HasDocument documents v =
    (d : AgreementDocument) × (Documents.find_by_id documents v.document_id ≡ some d)

IsOpen-rows :
    (d : States.States) (version_id : String)
    → All IsOpen (States.find_open_by_version d version_id)
unfolding States.find_open_by_version
IsOpen-rows d version_id = All-of IsOpen (States.find_open_by_version d version_id) (λ s i. ground (
  arith,
  keep-In
      (λ (x : CustomerVersionState).
        x.version_id == version_id && includes States.open_states x.state)
      (values d) i,
))

for_each-ok {ℓ} :
    {A : Type ℓ} (xs : List A) (body : A → Exec (Unit {0}))
    → ((x : A) (w : World) → (body x w).0 ≡ ok tt)
    → (w : World) → (for_each xs body w).0 ≡ ok tt
unfolding for_each
for_each-ok [] body k w = refl
for_each-ok (x ∷ xs) body k w = ground (arith, k x w, for_each-ok xs body k (body x w).1)

save_version-ok :
    (v : AgreementVersion) (w : World)
    → HasDocument w.documents v
    → save_version v w ≡ (ok tt, record w { versions = set w.versions v.id v })
unfolding Versions.save
save_version-ok v w (d, h) = ground arith

module _ (env : Env) (document : AgreementDocument) (admin_user_id : String) where
  retire-ok :
      (predecessors : List AgreementVersion) (blocking : Blocking) (w : World)
      → All (HasDocument w.documents) predecessors
      → (marked : Blocking) × (w' : World) × (retire env document admin_user_id predecessors
            blocking w
          ≡ (ok marked, w'))
  unfolding retire Versions.save record_event
  retire-ok [] blocking w h = (blocking, w, refl)
  retire-ok (v ∷ rest) blocking w h =
      let w1 : World = record w { versions = set w.versions v.id (retired_of v) } in
      let w2 : World = (record_event env (retired_event env document v admin_user_id) w1).1 in
      let rows = States.find_open_by_version w2.states v.id in
      let (m, p, c) = supersede_open_lem rows blocking "" w2 (IsOpen-rows w2.states v.id) in
      let w3 : World = record w2 { states = all_superseded w2.states rows } in
      let (marked, w', q) = retire-ok rest m w3 h.1 in
      let saved = save_version-ok (retired_of v) w h.0 in
      (
        marked,
        w',
        bind-through (save_version (retired_of v)) _ w w1 tt _ saved
            (bind-through (supersede_open rows blocking) _ w2 w3 m _ p q),
      )

  roll_out-ok :
      (version : AgreementVersion) (published_at : ℕ) (blocking : Blocking) (target : Customer)
      (w : World)
      → (roll_out env document version admin_user_id published_at blocking target w).0 ≡ ok tt
  unfolding roll_out new_id record_event
  roll_out-ok version published_at blocking target w = refl

  retire_predecessors-ok :
      (version : AgreementVersion) (published_at : ℕ) (w : World)
      → IsById (λ (d : AgreementDocument). d.id) w.documents
      → Documents.find_by_id w.documents version.document_id ≡ some document
      → (marked : Blocking) × (w' : World) × (retire_predecessors env document version admin_user_id
            published_at w
          ≡ (ok marked, w'))
  unfolding retire_predecessors Documents.find_by_id predecessors_of Versions.find_by_document
  retire_predecessors-ok version published_at w b h =
      elim (Bool-cases (leb version.valid_from published_at)) [
        | inl t ↦
            let same : version.document_id ≡ document.id =
              get-IsById (λ d. d.id) w.documents version.document_id b h in
            let siblings = Versions.find_by_document w.versions document.id in
            let stored : All (HasDocument w.documents) (predecessors_of version siblings) =
              All-of (HasDocument w.documents) (predecessors_of version siblings) (λ v i.
                let (j, k) =
                  keep-In
                    (λ (x : AgreementVersion). not (x.id == version.id) && x.status == published)
                    siblings i in
                let (l, m) =
                  keep-In (λ (x : AgreementVersion). x.document_id == document.id)
                    (values w.versions) j in
                let p : v.document_id ≡ document.id =
                  ground (arith, eq_iff v.document_id document.id, m) in
                (document, ap (get w.documents) (p ∙ sym same) ∙ h)) in
            let (marked, w', q) = retire-ok (predecessors_of version siblings) [] w stored in
            (marked, w', simp t q)
        | inr f ↦ ([], w, simp f refl)
      ]

  -- A publication returns whenever the version is stored, is valid for publication and has its document:
  -- no row of a customer and no other version can stop it half way.
  pub publish-total :
      (version : AgreementVersion) (version_id : String) (w : World)
      → IsById (λ (d : AgreementDocument). d.id) w.documents
      → Versions.find_by_id w.versions version_id ≡ some version
      → validate_for_publish version ≡ ok tt
      → Documents.find_by_id w.documents version.document_id ≡ some document
      → (r : PublishResult) × (w' : World) × (publish_version env version_id admin_user_id w
          ≡ (ok r, w'))
  unfolding publish_version publish_checked now new_id record_event roll_out_all
  publish-total version version_id w b v p d =
      let t = env.clock w.ticks in
      let new = published_of env version t admin_user_id in
      let w0 : World = record w { ticks = w.ticks + 1 } in
      let w1 : World = record w0 { versions = set w.versions version.id new } in
      let (marked, w2, q) = retire_predecessors-ok version t w1 b d in
      let targets = Customers.find_by_role w2.customers document.audience in
      let body = roll_out env document version admin_user_id t marked in
      let w3 : World = (for_each targets body w2).1 in
      let e = for_each-ok targets body (roll_out-ok version t marked) w2 in
      (
        _,
        _,
        bind-through (fetch (λ u. Versions.find_by_id u.versions version_id) version_not_found) _ w
            w version _ (ap (λ x. found x version_not_found w) v)
            (bind-through (lift (validate_for_publish version)) _ w w tt _ (ap (λ x. (x, w)) p) (
              bind-through
                (fetch (λ u. Documents.find_by_id u.documents version.document_id) invalid_state) _
                w w document _ (ap (λ x. found x invalid_state w) d)
                (bind-through (save_version new) _ w0 w1 tt _ (save_version-ok new w0 (document, d))
                  (bind-through (retire_predecessors env document version admin_user_id t) _ w1 w2
                    marked _ q
                    (bind-through (roll_out_all env document version admin_user_id t marked) _ w2 w3
                      targets _ (ap (λ x. continue x (λ u. pure targets) w3) e) refl))))),
      )
