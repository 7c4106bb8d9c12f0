-- ===== src/Services/Drafts/Immutable.antt =====
-- The versions that are not drafts, in agreements/version.service.ts.
use clickwrap.Prelude.{
  ◌≡◌, ◌≢◌, refl, sym, ap, ◌∙◌, inl, inr, String, false, Option, [], ◌∷◌, none, some, arith, ◌==◌,
  String_eq, Bool-cases, Option-cases,
}
use clickwrap.Prelude.Dict.{Dict, get, delete, get-set}
use clickwrap.Prelude.Dict.Distinct.{IsById, get-IsById}
use clickwrap.Domain.Errors.{ok, Result-cases}
use clickwrap.Domain.Types.{draft, VersionStatus_eq, status_eq_iff, AgreementVersion}
use clickwrap.Domain.Consent.{assert_draft_mutable}
use clickwrap.Store.Versions
use clickwrap.Store.Documents
use clickwrap.Runtime.{World, Env}
use clickwrap.Runtime.Exec.{now, new_id, bind-keeps}
use clickwrap.Runtime.Recorder.{record_event}
use clickwrap.Runtime.Files.{PdfUpload, PdfStorage}
use clickwrap.Services.Drafts.{
  PatchDraftInput, spread, with_upload, get_version, save_version, patch_draft, delete_draft,
}

get-delete :
    {V : Type 0} (d : Dict String V) (id k : String)
    → (id == k) ≡ false
    → get (delete d id) k ≡ get d k
unfolding get delete
get-delete [] id k n = refl
get-delete ((j, x) ∷ d) id k n = ground (
  arith,
  String_eq.beq_iff j id,
  String_eq.beq_iff j k,
  String_eq.beq_iff id k,
  get-delete d id k n,
)

module _ (k : String) (v : AgreementVersion) where
  Keeps : World → Type 0
  Keeps u = get u.versions k ≡ some v

  -- A version is written under its own id.
  save_version-Keeps :
      (version : AgreementVersion) (w : World)
      → (version.id == k) ≡ false
      → Keeps w
      → Keeps (save_version version w).1
  unfolding save_version Keeps Versions.save
  save_version-Keeps version w n g =
      elim (Option-cases (Documents.find_by_id w.documents version.document_id)) [
        | inl e ↦ ground arith
        | inr (d, e) ↦ ground (arith, get-set w.versions version.id k version)
      ]

  -- A draft that may be changed is not the row that was published.
  other_id :
      (id : String) (version : AgreementVersion) (w : World)
      → IsById (λ (x : AgreementVersion). x.id) w.versions
      → v.status ≢ draft
      → Keeps w
      → Versions.find_by_id w.versions id ≡ some version
      → assert_draft_mutable version ≡ ok tt
      → ((version.id == k) ≡ false) × ((id == k) ≡ false)
  unfolding Keeps Versions.find_by_id assert_draft_mutable
  other_id id version w ids n g f h =
      let at : id ≡ version.id = get-IsById (λ (x : AgreementVersion). x.id) w.versions id ids f in
      let status : version.status ≡ draft = (status_eq_iff version.status draft).0 (ground arith) in
      let test : (id == k) ≡ false = elim (Bool-cases (id == k)) [
        | inr e ↦ e
        | inl e ↦
            let same : id ≡ k = (String_eq.beq_iff id k).0 e in
            let row : some version ≡ some v = sym f ∙ ap (λ x. get w.versions x) same ∙ g in
            let eq : version ≡ v = cc in
            absurd (n (ap (λ (x : AgreementVersion). x.status) (sym eq) ∙ status))
      ] in
      (rw (← at) test, test)

  with_upload-id :
      (pdf : PdfStorage) (file : Option PdfUpload) (version : AgreementVersion)
      → (with_upload pdf file version).id ≡ version.id
  unfolding with_upload
  with_upload-id pdf none version = refl
  with_upload-id pdf (some upload) version = refl

  remove-keeps :
      (id : String) (d d' : Versions.Versions)
      → (id == k) ≡ false
      → get d k ≡ some v
      → Versions.remove d id ≡ ok d'
      → get d' k ≡ some v
  unfolding Versions.remove
  remove-keeps id d d' n g h = elim (Option-cases (get d id)) [
    | inl e ↦ ground arith
    | inr (x, e) ↦ ground (arith, get-delete d id k n)
  ]

-- A patch or a deletion of any draft, whether it returns or fails, leaves every version that is not a
-- draft as it is.
pub drafts_keep :
    (env : Env) (pdf : PdfStorage) (id : String) (patch : PatchDraftInput) (file : Option PdfUpload)
    (admin_user_id k : String) (v : AgreementVersion) (w : World)
    → IsById (λ (x : AgreementVersion). x.id) w.versions
    → v.status ≢ draft
    → get w.versions k ≡ some v
    → (get (patch_draft env pdf id patch file admin_user_id w).1.versions k ≡ some v)
      × (get (delete_draft env id admin_user_id w).1.versions k ≡ some v)
unfolding patch_draft delete_draft get_version record_event now new_id Keeps
drafts_keep env pdf id patch file admin_user_id k v w ids n g =
    elim (Option-cases (Versions.find_by_id w.versions id)) [
      | inl e ↦ rw e (g, g)
      | inr (version, e) ↦ elim (Result-cases (assert_draft_mutable version)) [
        | inl (c, f) ↦ rw (e, f) (g, g)
        | inr (u, f) ↦
            let updated = with_upload pdf file (spread version patch) in
            let (n1, n2) = other_id k v id version w ids n g e f in
            let m : (updated.id == k) ≡ false =
              rw (with_upload-id k v pdf file (spread version patch)) n1 in
            let saved = save_version-Keeps k v updated w m g in
            (
              rw (e, f)
                  (bind-keeps (λ z. get z.versions k ≡ some v) (save_version updated) _ w saved
                    (λ z. saved)),
              rw (e, f)
                  (elim (Result-cases (Versions.remove w.versions id)) [
                    | inl (c, r) ↦ rw r g
                    | inr (d', r) ↦ rw r (remove-keeps k v id w.versions d' n2 g r)
                  ]),
            )
      ]
    ]
