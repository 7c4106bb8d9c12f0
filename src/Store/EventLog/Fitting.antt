-- ===== src/Store/EventLog/Fitting.antt =====
-- What the filters of a query ask for.
use clickwrap.Prelude.{
  ℕ, ◌≤◌, ◌≡◌, refl, ap, String, String_eq, true, ◌↔◌, Option, none, some, arith,
}
use clickwrap.Domain.Types.{DomainEvent, EventCategory, EventCategory_eq}
use clickwrap.Store.EventLog.{
  EventFilters, fits_filter, fits_category, not_before, not_after, matches,
}

-- What a filter asks for, if it is given.
abbrev pub IsText : Option String → Option String → Type 0
IsText none field = Unit
IsText (some wanted) field = field ≡ some wanted

abbrev pub IsCategory : Option EventCategory → EventCategory → Type 0
IsCategory none category = Unit
IsCategory (some wanted) category = category ≡ wanted

abbrev pub IsFrom : Option ℕ → ℕ → Type 0
IsFrom none at = Unit
IsFrom (some from) at = from ≤ at

abbrev pub IsUntil : Option ℕ → ℕ → Type 0
IsUntil none at = Unit
IsUntil (some to) at = at ≤ to

-- The event has everything that is asked for, both bounds of the time included.
pub record IsFitting (filters : EventFilters) (e : DomainEvent) : Type 0 where
  pub customer : IsText filters.customer_id e.customer_id
  pub category : IsCategory filters.category e.category
  pub document_type : IsText filters.document_type e.document_type
  pub version : IsText filters.version_id e.version_id
  pub from : IsFrom filters.from e.occurred_at
  pub until : IsUntil filters.to e.occurred_at

fits_filter_iff : (o field : Option String) → (fits_filter o field ≡ true) ↔ IsText o field
fits_filter_iff none field = (λ h. tt, λ h. refl)
fits_filter_iff (some wanted) none = (λ h. ground (arith, h), λ h. ground (arith, h))
fits_filter_iff (some wanted) (some value) = (
  λ h. ap some ((String_eq.beq_iff value wanted).0 h),
  λ h. (String_eq.beq_iff value wanted).1 (ground (arith, h)),
)

fits_category_iff :
    (o : Option EventCategory) (category : EventCategory)
    → (fits_category o category ≡ true) ↔ IsCategory o category
fits_category_iff none category = (λ h. tt, λ h. refl)
fits_category_iff (some wanted) category = (
  λ h. (EventCategory_eq.beq_iff category wanted).0 h,
  λ h. (EventCategory_eq.beq_iff category wanted).1 h,
)

not_before_iff : (o : Option ℕ) (at : ℕ) → (not_before o at ≡ true) ↔ IsFrom o at
not_before_iff none at = (λ h. tt, λ h. refl)
not_before_iff (some from) at = (λ h. ground arith, λ h. ground arith)

not_after_iff : (o : Option ℕ) (at : ℕ) → (not_after o at ≡ true) ↔ IsUntil o at
not_after_iff none at = (λ h. tt, λ h. refl)
not_after_iff (some to) at = (λ h. ground arith, λ h. ground arith)

pub matches_iff :
    (filters : EventFilters) (e : DomainEvent) → (matches filters e ≡ true) ↔ IsFitting filters e
unfolding matches
matches_iff filters e =
    let a = fits_filter_iff filters.customer_id e.customer_id in
    let b = fits_category_iff filters.category e.category in
    let c = fits_filter_iff filters.document_type e.document_type in
    let d = fits_filter_iff filters.version_id e.version_id in
    let f = not_before_iff filters.from e.occurred_at in
    let g = not_after_iff filters.to e.occurred_at in
    (
      λ h. record {
        customer = a.0 (ground (arith, h));
        category = b.0 (ground (arith, h));
        document_type = c.0 (ground (arith, h));
        version = d.0 (ground (arith, h));
        from = f.0 (ground (arith, h));
        until = g.0 (ground (arith, h));
      },
      λ h.
          rw
            (
              a.1 h.customer,
              b.1 h.category,
              c.1 h.document_type,
              d.1 h.version,
              f.1 h.from,
              g.1 h.until,
            )
            refl,
    )
