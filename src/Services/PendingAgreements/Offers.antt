-- ===== src/Services/PendingAgreements/Offers.antt =====
-- What an item that is offered stands for.
use mathlib.Core.Option
use clickwrap.Prelude.{
  ℕ, ◌⊎◌, ◌≡◌, refl, ap, inl, inr, String, Bool, true, false, Option, none, some, List, [], ◌∷◌,
  ◌++◌, arith, String_eq, Bool-cases, includes, In, All,
}
use clickwrap.Domain.Errors.{ok}
use clickwrap.Domain.Types.{
  StateValue_eq, accepted, active_consent, published, AgreementDocument, AgreementVersion,
  CustomerVersionState,
}
use clickwrap.Domain.Consent.{assert_version_current}
use clickwrap.Domain.Consent.Laws.{assert_version_current_iff}
use clickwrap.Domain.Lifecycle
use clickwrap.Domain.Lifecycle.{is_blocking}
use clickwrap.Prelude.Dict.{values}
use clickwrap.Store.Documents
use clickwrap.Store.Versions
use clickwrap.Store.Versions.Current.{IsListed-of, find_upcoming_published_list_iff}
use clickwrap.Store.States
use clickwrap.Runtime.{World}
use clickwrap.Services.PendingAgreements.{
  open_states, PendingAgreementItem, item_of, open_item, current_items, upcoming_items,
  document_items, all_items,
}

-- A stored, published version of the stored document with the type and audience of `asked`, an audience
-- that was asked for, which the guard of a consent on the version lets through at `t`.
pub record IsOffered (w : World) (audiences : List String) (t : ℕ) (asked : AgreementDocument)
    (version : AgreementVersion) : Type 0 where
  pub audience : includes audiences asked.audience ≡ true
  pub document : AgreementDocument
  pub found_document :
      Documents.find_by_type_and_audience w.documents asked.type asked.audience ≡ some document
  pub stored : In version (values w.versions)
  pub of_document : version.document_id ≡ document.id
  pub published_now : version.status ≡ published
  pub current :
      assert_version_current version
        (Versions.find_current_published w.documents w.versions asked.type asked.audience t)
        t
      ≡ ok tt

-- The item shows such a version, with a stored row of the customer from which acceptance goes through;
-- and it says of the row whether it blocks.
pub record IsAcceptable (w : World) (customer_id : String) (audiences : List String) (t : ℕ)
    (item : PendingAgreementItem) : Type 0 where
  pub asked : AgreementDocument
  pub document_type : item.document_type ≡ asked.type
  pub audience : item.audience ≡ asked.audience
  pub version : AgreementVersion
  pub version_id : item.version_id ≡ version.id
  pub mode : item.mode ≡ version.acceptance_mode
  pub consent_text : item.consent_text ≡ version.consent_text
  pub offered : IsOffered w audiences t asked version
  pub row : CustomerVersionState
  pub stored : States.find_by_customer_and_version w.states customer_id version.id ≡ some row
  pub acceptable : Lifecycle.accept row active_consent ≡ ok (record row { state = accepted })
  pub deadline : item.deadline_at ≡ row.deadline_at
  pub blocking : item.blocking ≡ is_blocking row

All-append {ℓ κ} :
    {A : Type ℓ} (P : A → Type κ) (xs ys : List A) → All P xs → All P ys → All P (xs ++ ys)
All-append P [] ys p q = q
All-append P (x ∷ xs) ys p q = (p.0, All-append P xs ys p.1 q)

-- What a listed version is offered by: it is current, or published for later.
IsOffered-of :
    (w : World) (audiences : List String) (t : ℕ) (asked : AgreementDocument) (v : AgreementVersion)
    → includes audiences asked.audience ≡ true
    → ((Versions.find_current_published w.documents w.versions asked.type asked.audience t ≡ some v)
        ⊎ In v (
            Versions.find_upcoming_published_list w.documents w.versions asked.type asked.audience
              t))
    → IsOffered w audiences t asked v
IsOffered-of w audiences t asked v a h =
    let (d, e, m, f) = IsListed-of w.documents w.versions asked.type asked.audience t v h in
    let guard = assert_version_current_iff v _ t in
    let (of_document, published_now) : (v.document_id ≡ d.id) × (v.status ≡ published) = elim f [
      | inl x ↦ (x.of_document, x.published_now)
      | inr x ↦ (x.of_document, x.published_now)
    ] in
    record {
      audience = a;
      document = d;
      found_document = e;
      stored = m;
      of_document = of_document;
      published_now = published_now;
      current = guard.1 (elim h [
        | inl c ↦ inl (ap (Option.map (λ (c : AgreementVersion). c.id)) c)
        | inr u ↦
            let x =
              ((find_upcoming_published_list_iff w.documents w.versions asked.type asked.audience t
                  d v e).0.0
                u).1 in
            inr (x.published_now, x.ahead)
      ]);
    }

open-accept :
    (s : CustomerVersionState)
    → includes open_states s.state ≡ true
    → Lifecycle.accept s active_consent ≡ ok (record s { state = accepted })
unfolding includes Lifecycle.accept
open-accept s o = ground arith

module _ (presigned_url : String → String) (w : World) (customer_id : String)
    (audiences : List String) (t : ℕ) where
  open_item-IsAcceptable :
      (document : AgreementDocument) (v : AgreementVersion) (is_upcoming : Bool)
      (o : Option CustomerVersionState)
      → IsOffered w audiences t document v
      → States.find_by_customer_and_version w.states customer_id v.id ≡ o
      → All
          (IsAcceptable w customer_id audiences t)
          (open_item presigned_url document v is_upcoming o)
  unfolding open_item item_of
  open_item-IsAcceptable document v is_upcoming none c e = tt
  open_item-IsAcceptable document v is_upcoming (some s) c e =
      elim (Bool-cases (includes open_states s.state)) [
        | inl o ↦ simp o (
          record {
            asked = document;
            document_type = refl;
            audience = refl;
            version = v;
            version_id = refl;
            mode = refl;
            consent_text = refl;
            offered = c;
            row = s;
            stored = e;
            acceptable = open-accept s o;
            deadline = refl;
            blocking = refl;
          },
          tt,
        )
        | inr f ↦ simp f tt
      ]

  current_items-IsAcceptable :
      (document : AgreementDocument) (o : Option AgreementVersion)
      → ((v : AgreementVersion) → o ≡ some v → IsOffered w audiences t document v)
      → All
          (IsAcceptable w customer_id audiences t)
          (current_items presigned_url w customer_id document o)
  unfolding current_items
  current_items-IsAcceptable document none h = tt
  current_items-IsAcceptable document (some v) h =
      open_item-IsAcceptable document v false _ (h v refl) refl

  upcoming_items-IsAcceptable :
      (document : AgreementDocument) (versions : List AgreementVersion)
      → ((v : AgreementVersion) → In v versions → IsOffered w audiences t document v)
      → All
          (IsAcceptable w customer_id audiences t)
          (upcoming_items presigned_url w customer_id document versions)
  unfolding upcoming_items
  upcoming_items-IsAcceptable document [] h = tt
  upcoming_items-IsAcceptable document (v ∷ rest) h =
      All-append (IsAcceptable w customer_id audiences t) _ _
        (open_item-IsAcceptable document v true _ (h v (inl refl)) refl)
        (upcoming_items-IsAcceptable document rest (λ x i. h x (inr i)))

  -- Each item that the portal offers to a customer shows a stored and published version of a document
  -- for an audience that was asked for, the current one or one for later, which the guard of a consent on
  -- the version lets through at that time, and for which there is a stored row of the customer that
  -- `accept` takes to ACCEPTED; the deadline of the item is the row's, and it says whether the row blocks.
  pub all_items-IsAcceptable :
      (documents : List AgreementDocument)
      → All
          (IsAcceptable w customer_id audiences t)
          (all_items presigned_url w customer_id t audiences documents)
  unfolding all_items document_items
  all_items-IsAcceptable [] = tt
  all_items-IsAcceptable (d ∷ rest) =
      let P = IsAcceptable w customer_id audiences t in
      let others = all_items-IsAcceptable rest in
      elim (Bool-cases (includes audiences d.audience)) [
        | inl m ↦
            let current =
              current_items-IsAcceptable d _ (λ v e. IsOffered-of w audiences t d v m (inl e)) in
            let upcoming =
              upcoming_items-IsAcceptable d _ (λ v i. IsOffered-of w audiences t d v m (inr i)) in
            simp m (All-append P _ _ (All-append P _ _ current upcoming) others)
        | inr f ↦ simp f others
      ]
