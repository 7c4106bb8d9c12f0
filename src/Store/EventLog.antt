-- ===== src/Store/EventLog.antt =====
-- persistence/inmemory/event.repo.ts: the query of the event log. The collation of the ids, by which
-- equal times are ordered, is the argument `is_before`: `a.localeCompare(b) <= 0`.
pub mod Fitting
pub mod Pages
use clickwrap.Prelude.{
  ℕ, zero, suc, ◌+◌, ◌-◌, ◌*◌, String, Bool, true, false, ◌&&◌, ◌||◌, Option, none, some, List, [],
  ◌∷◌, ltb, leb, nat_eq, ◌==◌, Eq, String_eq, if◌then◌else◌, keep, length, take,
}
use clickwrap.Prelude.Sort.{sort}
use clickwrap.Prelude.Dict.{Dict, values}
use clickwrap.Domain.Types.{DomainEvent, EventCategory, EventCategory_eq}

-- EventQueryFilters
pub record EventFilters : Type 0 where
  pub customer_id : Option String
  pub from : Option ℕ
  pub to : Option ℕ
  pub category : Option EventCategory
  pub document_type : Option String
  pub version_id : Option String

abbrev pub events_page_size : ℕ
events_page_size = 50

-- `filter === undefined || event.field === filter`, of a field that may be undefined
abbrev pub fits_filter : Option String → Option String → Bool
fits_filter none field = true
fits_filter (some wanted) none = false
fits_filter (some wanted) (some value) = value == wanted

abbrev pub fits_category : Option EventCategory → EventCategory → Bool
fits_category none category = true
fits_category (some wanted) category = category == wanted

abbrev pub not_before : Option ℕ → ℕ → Bool
not_before none at = true
not_before (some from) at = leb from at

abbrev pub not_after : Option ℕ → ℕ → Bool
not_after none at = true
not_after (some to) at = leb at to

unfoldable pub matches : EventFilters → DomainEvent → Bool
matches filters event =
    fits_filter filters.customer_id event.customer_id
    && fits_category filters.category event.category
    && fits_filter filters.document_type event.document_type
    && fits_filter filters.version_id event.version_id
    && not_before filters.from event.occurred_at
    && not_after filters.to event.occurred_at

unfoldable pub latest_first : (String → String → Bool) → DomainEvent → DomainEvent → Bool
latest_first is_before a b =
    ltb b.occurred_at a.occurred_at || nat_eq b.occurred_at a.occurred_at && is_before a.id b.id

abbrev pub drop {ℓ} : {A : Type ℓ} → ℕ → List A → List A
drop zero xs = xs
drop (suc n) [] = []
drop (suc n) (x ∷ xs) = drop n xs

-- `xs.slice(start, start + size)`
abbrev pub slice {ℓ} : {A : Type ℓ} → (start size : ℕ) → List A → List A
slice start size xs = take size (drop start xs)

-- `page && page > 0 ? page : 1`
abbrev pub page_number : Option ℕ → ℕ
page_number none = 1
page_number (some zero) = 1
page_number (some (suc p)) = suc p

unfoldable pub filtered :
    (String → String → Bool) → Dict String DomainEvent → EventFilters → List DomainEvent
unfolding latest_first matches
filtered is_before events filters =
    sort (latest_first is_before) (keep (matches filters) (values events))

-- The items of a page, and the number of all that match.
unfoldable pub query :
    (String → String → Bool)
    → Dict String DomainEvent
    → EventFilters
    → Option ℕ
    → List DomainEvent × ℕ
unfolding filtered
query is_before events filters page =
    let all = filtered is_before events filters in
    (slice ((page_number page - 1) * events_page_size) events_page_size all, length all)
