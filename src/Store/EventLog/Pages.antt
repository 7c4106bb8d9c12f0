-- ===== src/Store/EventLog/Pages.antt =====
-- What the pages of a query are, put together.
use clickwrap.Prelude.{
  ℕ, zero, suc, ◌+◌, ◌-◌, ◌*◌, ◌≤◌, ◌<◌, ◌≡◌, refl, sym, ap, ◌∙◌, ◌⊎◌, String, String_eq, Bool,
  true, false, ◌↔◌, Option, some, List, [], ◌∷◌, ◌++◌, arith, length, take, keep, In, keep-In,
  In-keep, All, All-of, All-at,
}
use clickwrap.Prelude.Sort.{sort-In, In-sort, IsSorted, sort-IsSorted, length-sort}
use clickwrap.Prelude.Dict.{Dict, values}
use clickwrap.Domain.Types.{DomainEvent, EventCategory_eq}
use clickwrap.Store.EventLog.{
  EventFilters, events_page_size, matches, latest_first, drop, filtered, query,
}
use clickwrap.Store.EventLog.Fitting.{IsFitting, matches_iff}

-- The items of the first `n` pages, one page after the other.
abbrev pub pages :
    (String → String → Bool) → Dict String DomainEvent → EventFilters → ℕ → List DomainEvent
pages is_before events filters zero = []
pages is_before events filters (suc n) =
    pages is_before events filters n ++ (query is_before events filters (some (suc n))).0

module _ {ℓ} {A : Type ℓ} where
  take-nil : (k : ℕ) → take {A = A} k [] ≡ []
  take-nil zero = refl
  take-nil (suc k) = refl

  take-slice : (n k : ℕ) (xs : List A) → take n xs ++ take k (drop n xs) ≡ take (n + k) xs
  take-slice zero k xs = let e : k ≡ 0 + k = omega arith in ap (λ m. take m xs) e
  take-slice (suc n) k [] =
      let e : suc (n + k) ≡ suc n + k = omega arith in take-nil k ∙ ap (λ m. take m []) e
  take-slice (suc n) k (x ∷ xs) =
      let e : suc (n + k) ≡ suc n + k = omega arith in
      ap (λ r. x ∷ r) (take-slice n k xs) ∙ ap (λ m. take m (x ∷ xs)) e

  take_all : (n : ℕ) (xs : List A) → length xs ≤ n → take n xs ≡ xs
  take_all zero [] h = refl
  take_all zero (x ∷ xs) h = absurd (omega arith)
  take_all (suc n) [] h = refl
  take_all (suc n) (x ∷ xs) h = ap (λ r. x ∷ r) (take_all n xs (omega arith))

  length-take : (n : ℕ) (xs : List A) → length (take n xs) ≤ n
  length-take zero xs = omega arith
  length-take (suc n) [] = omega arith
  length-take (suc n) (x ∷ xs) = omega (arith, length-take n xs)

pages-take :
    (is_before : String → String → Bool) (events : Dict String DomainEvent) (filters : EventFilters)
    (n : ℕ)
    → pages is_before events filters n
      ≡ take (n * events_page_size) (filtered is_before events filters)
unfolding query
pages-take is_before events filters zero = refl
pages-take is_before events filters (suc n) =
    let all = filtered is_before events filters in
    let start : (suc n - 1) * events_page_size ≡ n * events_page_size = omega arith in
    let end : n * events_page_size + events_page_size ≡ suc n * events_page_size = omega arith in
    rw (pages-take is_before events filters n)
      (rw start (take-slice (n * events_page_size) events_page_size all ∙ ap (λ m. take m all) end))

-- `a` comes before `b`: it is newer, or as old and its id is not after the other's.
abbrev pub IsNewer : (String → String → Bool) → DomainEvent → DomainEvent → Type 0
IsNewer is_before a b =
    (b.occurred_at < a.occurred_at)
    ⊎ ((b.occurred_at ≡ a.occurred_at) × (is_before a.id b.id ≡ true))

abbrev pub IsNewToOld : (String → String → Bool) → List DomainEvent → Type 0
IsNewToOld is_before [] = Unit
IsNewToOld is_before (x ∷ xs) = All (λ y. IsNewer is_before x y) xs × IsNewToOld is_before xs

-- What `localeCompare` is: an order in which any two texts can be compared.
pub record IsCollation (is_before : String → String → Bool) : Type 0 where
  pub total : (a b : String) → is_before a b ≡ false → is_before b a ≡ true
  pub transitive :
      (a b c : String) → is_before a b ≡ true → is_before b c ≡ true → is_before a c ≡ true

module _ (is_before : String → String → Bool) (collation : IsCollation is_before) where
  latest_first-total :
      (a b : DomainEvent) → latest_first is_before a b ≡ false → latest_first is_before b a ≡ true
  unfolding latest_first
  latest_first-total a b h = ground (arith, collation.total a.id b.id)

  latest_first_trans :
      (a b c : DomainEvent)
      → latest_first is_before a b ≡ true
      → latest_first is_before b c ≡ true
      → latest_first is_before a c ≡ true
  unfolding latest_first
  latest_first_trans a b c h k = ground (arith, collation.transitive a.id b.id c.id)

  IsNewer-of : (a b : DomainEvent) → latest_first is_before a b ≡ true → IsNewer is_before a b
  unfolding latest_first
  IsNewer-of a b h = ground arith

  IsNewToOld-of :
      (xs : List DomainEvent) → IsSorted (latest_first is_before) xs → IsNewToOld is_before xs
  IsNewToOld-of [] s = tt
  IsNewToOld-of (x ∷ xs) s = (
    All-of (λ y. IsNewer is_before x y) xs
        (λ y m. IsNewer-of x y (All-at (λ z. latest_first is_before x z ≡ true) xs s.0 m)),
    IsNewToOld-of xs s.1,
  )

  -- Enough pages, put together, are the stored events that have all that the filters ask for, from new to
  -- old and by id where the times are equal; none is lost or doubled, since the total, which every page
  -- reports, is their number and the number of matches; no page is longer than the page size.
  pub query-pages :
      (events : Dict String DomainEvent) (filters : EventFilters) (n : ℕ) (page : Option ℕ)
      (e : DomainEvent)
      → (query is_before events filters page).1 ≤ n * events_page_size
      → IsNewToOld is_before (pages is_before events filters n)
        × (In e (pages is_before events filters n) ↔ (In e (values events) × IsFitting filters e))
        × ((query is_before events filters page).1 ≡ length (pages is_before events filters n))
        × ((query is_before events filters page).1
            ≡ length (keep (matches filters) (values events)))
        × (length (query is_before events filters page).0 ≤ events_page_size)
  unfolding query filtered
  query-pages events filters n page e h =
      let le = latest_first is_before in
      let all = filtered is_before events filters in
      let fits = matches_iff filters e in
      let whole : pages is_before events filters n ≡ all =
        pages-take is_before events filters n ∙ take_all (n * events_page_size) all h in
      (
        rw whole (
            IsNewToOld-of all (
              sort-IsSorted le latest_first-total latest_first_trans
                (keep (matches filters) (values events)))),
        rw whole (
          λ m.
              let (i, t) = keep-In (matches filters) (values events) (sort-In le _ e m) in
              (i, fits.0 t),
          λ m. In-sort le _ e (In-keep (matches filters) (values events) m.0 (fits.1 m.1)),
        ),
        ap length (sym whole),
        length-sort le (keep (matches filters) (values events)),
        length-take events_page_size _,
      )
