-- ===== src/Store/Versions/Current.antt =====
-- Which version is current, and which are upcoming.
use clickwrap.Prelude.{
  ℕ, ◌≤◌, ◌<◌, ◌≡◌, ◌≢◌, sym, ◌∙◌, ◌↔◌, ◌⊎◌, inl, inr, String, true, false, none, some, List, [],
  ◌∷◌, arith, String_eq, keep, first, All-at, In, In-keep, keep-In, Option-cases,
}
use text.Mathlib.TextEquality.{eq_iff}
use clickwrap.Prelude.Sort.{sort, IsSorted, sort-In, In-sort, sort-IsSorted}
use clickwrap.Prelude.Dict.{values}
use clickwrap.Domain.Types.{published, AgreementDocument, AgreementVersion}
use clickwrap.Store.Documents
use clickwrap.Store.Documents.{Documents}
use clickwrap.Store.Versions.{
  Versions, published_time, newest_first, soonest_first, is_in_force, is_upcoming,
  find_current_published, find_upcoming_published_list,
}

-- Published, of the document, and in force.
pub record IsInForce (document : AgreementDocument) (now : ℕ) (v : AgreementVersion) : Type 0 where
  pub of_document : v.document_id ≡ document.id
  pub published_now : v.status ≡ published
  pub started : v.valid_from ≤ now

-- `v` is not older than `w`: it starts later, or at the same time and was not published before.
abbrev pub IsNotOlder : AgreementVersion → AgreementVersion → Type 0
IsNotOlder v w =
    (w.valid_from < v.valid_from)
    ⊎ ((v.valid_from ≡ w.valid_from) × (published_time w ≤ published_time v))

newest_first-total : (v w : AgreementVersion) → newest_first v w ≡ false → newest_first w v ≡ true
unfolding newest_first
newest_first-total v w h = ground arith

newest_first_trans :
    (u v w : AgreementVersion)
    → newest_first u v ≡ true
    → newest_first v w ≡ true
    → newest_first u w ≡ true
unfolding newest_first
newest_first_trans u v w h k = ground arith

IsNotOlder-of-newest_first : (v w : AgreementVersion) → newest_first v w ≡ true → IsNotOlder v w
unfolding newest_first
IsNotOlder-of-newest_first v w h = ground arith

newest_first_refl : (v : AgreementVersion) → newest_first v v ≡ true
unfolding newest_first
newest_first_refl v = ground arith

is_in_force_iff :
    (document : AgreementDocument) (now : ℕ) (v : AgreementVersion)
    → (is_in_force document.id now v ≡ true) ↔ IsInForce document now v
unfolding is_in_force
is_in_force_iff document now v = (
  λ h. ground (arith, eq_iff v.document_id document.id),
  λ h. ground (arith, eq_iff v.document_id document.id),
)

-- Published, of the document, and not yet in force.
pub record IsUpcoming (document : AgreementDocument) (now : ℕ) (v : AgreementVersion) : Type 0 where
  pub of_document : v.document_id ≡ document.id
  pub published_now : v.status ≡ published
  pub ahead : now < v.valid_from

is_upcoming_iff :
    (document : AgreementDocument) (now : ℕ) (v : AgreementVersion)
    → (is_upcoming document.id now v ≡ true) ↔ IsUpcoming document now v
unfolding is_upcoming
is_upcoming_iff document now v = (
  λ h. ground (arith, eq_iff v.document_id document.id),
  λ h. ground (arith, eq_iff v.document_id document.id),
)

soonest_first-total :
    (v w : AgreementVersion) → soonest_first v w ≡ false → soonest_first w v ≡ true
unfolding soonest_first
soonest_first-total v w h = ground arith

soonest_first_trans :
    (u v w : AgreementVersion)
    → soonest_first u v ≡ true
    → soonest_first v w ≡ true
    → soonest_first u w ≡ true
unfolding soonest_first
soonest_first_trans u v w h k = ground arith

first-IsLeast :
    (vs : List AgreementVersion) (v : AgreementVersion)
    → IsSorted newest_first vs
    → first vs ≡ some v
    → In v vs × ((w : AgreementVersion) → In w vs → newest_first v w ≡ true)
first-IsLeast [] v s h = cc
first-IsLeast (x ∷ xs) v s h =
    let e : x ≡ v = cc in
    (
      inl e,
      λ w m. elim m [
        | inl f ↦ rw (← e, ← f) (newest_first_refl x)
        | inr n ↦ rw (← e) (All-at (λ y. newest_first x y ≡ true) xs s.0 n)
      ],
    )

module _ (documents : Documents) (versions : Versions) (type audience : String) (now : ℕ)
    (document : AgreementDocument)
    (known : Documents.find_by_type_and_audience documents type audience ≡ some document) where
  candidates : List AgreementVersion
  unfolding is_in_force
  candidates = sort newest_first (keep (is_in_force document.id now) (values versions))

  current-eq : find_current_published documents versions type audience now ≡ first candidates
  unfolding find_current_published candidates
  current-eq = ground arith

  candidate :
      (v : AgreementVersion) → In v candidates → In v (values versions) × IsInForce document now v
  unfolding candidates
  candidate v m =
      let (n, t) =
        keep-In (is_in_force document.id now) (values versions) (sort-In newest_first _ v m) in
      (n, (is_in_force_iff document now v).0 t)

  is_candidate :
      (v : AgreementVersion) → In v (values versions) → IsInForce document now v → In v candidates
  unfolding candidates
  is_candidate v m f = In-sort newest_first _ v (
      In-keep (is_in_force document.id now) (values versions) m
        ((is_in_force_iff document now v).1 f))

  sorted : IsSorted newest_first candidates
  unfolding candidates
  sorted = sort-IsSorted newest_first newest_first-total newest_first_trans _

  -- The current version of a document is a stored version that is published and in force, and no
  -- stored version `w` that is published and in force is newer.
  pub find_current_published_newest :
      (v w : AgreementVersion)
      → find_current_published documents versions type audience now ≡ some v
      → In w (values versions)
      → IsInForce document now w
      → In v (values versions) × IsInForce document now v × IsNotOlder v w
  find_current_published_newest v w h m f =
      let (i, least) = first-IsLeast candidates v sorted (sym current-eq ∙ h) in
      let (n, g) = candidate v i in
      (n, g, IsNotOlder-of-newest_first v w (least w (is_candidate w m f)))

  current-stored :
      (v : AgreementVersion)
      → find_current_published documents versions type audience now ≡ some v
      → In v (values versions) × IsInForce document now v
  current-stored v h = candidate v (first-IsLeast candidates v sorted (sym current-eq ∙ h)).0

  first-none : (vs : List AgreementVersion) (v : AgreementVersion) → first vs ≡ none → In v vs → ⊥
  first-none [] v h m = elim m [ ]
  first-none (x ∷ xs) v h m = cc

  -- A document with a stored version that is published and in force has a current version.
  pub find_current_published-ne-none :
      (w : AgreementVersion)
      → In w (values versions)
      → IsInForce document now w
      → find_current_published documents versions type audience now ≢ none
  find_current_published-ne-none w m f h =
      first-none candidates w (sym current-eq ∙ h) (is_candidate w m f)

upcoming-eq :
    (documents : Documents) (versions : Versions) (type audience : String) (now : ℕ)
    (document : AgreementDocument)
    → Documents.find_by_type_and_audience documents type audience ≡ some document
    → find_upcoming_published_list documents versions type audience now
      ≡ sort soonest_first (keep (is_upcoming document.id now) (values versions))
unfolding find_upcoming_published_list
upcoming-eq documents versions type audience now document d = ground arith

-- The versions that the page offers in advance are exactly the stored ones that are published, of
-- the document, and start after `now`; they come with the next to start first.
pub find_upcoming_published_list_iff :
    (documents : Documents) (versions : Versions) (type audience : String) (now : ℕ)
    (document : AgreementDocument) (v : AgreementVersion)
    → Documents.find_by_type_and_audience documents type audience ≡ some document
    → (In v (find_upcoming_published_list documents versions type audience now)
        ↔ (In v (values versions) × IsUpcoming document now v))
      × IsSorted soonest_first (find_upcoming_published_list documents versions type audience now)
find_upcoming_published_list_iff documents versions type audience now document v d =
    let p = is_upcoming document.id now in
    rw (upcoming-eq documents versions type audience now document d) (
      (
        λ m.
            let (n, t) = keep-In p (values versions) (sort-In soonest_first _ v m) in
            (n, (is_upcoming_iff document now v).0 t),
        λ h.
            In-sort soonest_first _ v
              (In-keep p (values versions) h.0 ((is_upcoming_iff document now v).1 h.1)),
      ),
      sort-IsSorted soonest_first soonest_first-total soonest_first_trans _,
    )

no-In : (v : AgreementVersion) (xs : List AgreementVersion) → xs ≡ [] → ¬ In v xs
no-In v [] p i = elim i [ ]
no-In v (x ∷ xs) p i = cc

-- A current or an upcoming version is stored, and of a stored document for the two keys.
pub IsListed-of :
    (documents : Documents) (versions : Versions) (type audience : String) (now : ℕ)
    (v : AgreementVersion)
    → ((find_current_published documents versions type audience now ≡ some v)
        ⊎ In v (find_upcoming_published_list documents versions type audience now))
    → (d : AgreementDocument) × (Documents.find_by_type_and_audience documents type audience
        ≡ some d)
      × In v (values versions)
      × (IsInForce d now v ⊎ IsUpcoming d now v)
unfolding find_current_published find_upcoming_published_list
IsListed-of documents versions type audience now v h =
    elim (Option-cases (Documents.find_by_type_and_audience documents type audience)) [
      | inl e ↦ elim h [ inl c ↦ ground arith | inr m ↦ elim (no-In v _ (ground (arith, e)) m) [ ] ]
      | inr (d, e) ↦ elim h [
        | inl c ↦
            let (m, f) = current-stored documents versions type audience now d e v c in
            (d, e, m, inl f)
        | inr m ↦
            let u =
              (find_upcoming_published_list_iff documents versions type audience now d v e).0.0 m in
            (d, e, u.0, inr u.1)
      ]
    ]
