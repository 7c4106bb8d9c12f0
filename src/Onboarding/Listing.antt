-- ===== src/Onboarding/Listing.antt =====
-- customers/customer-search.ts, and `list` of customers/customer-admin.service.ts. The collation is the argument
-- `is_before`, and `to_lower_case` is the one of the language.
use clickwrap.Prelude.{
  ℕ, ◌-◌, ◌*◌, Bool, true, false, not, ◌&&◌, ◌||◌, String, String_eq, ◌==◌, Option, none, some,
  List, [], ◌∷◌, all, any, codes, includes, is_none, is_truthy, keep, length, map, or_else, trim,
  if◌then◌else◌,
}
use clickwrap.Prelude.Dict.{values}
use clickwrap.Prelude.Scan.{Units, starts_with}
use clickwrap.Prelude.Sort.{sort}
use clickwrap.Domain.Compliance.{
  CurrentVersionEntry, ComplianceDetail, ComplianceResult, compute_compliance,
}
use clickwrap.Domain.Customers.{customer_display_name}
use clickwrap.Domain.Errors.{Result, ok, ◌>>=◌, customer_not_found}
use clickwrap.Domain.Types.{
  StateValue, StateValue_eq, pending_notification, notified, expired_blocking, objected, accepted,
  Customer, AgreementDocument,
}
use clickwrap.Store.Customers
use clickwrap.Store.Documents
use clickwrap.Store.EventLog.{slice, page_number}
use clickwrap.Store.States
use clickwrap.Store.Versions
use clickwrap.Services.Acceptance.Checks.{required}
use clickwrap.Services.Compliance.{with_current}
use clickwrap.Runtime.{World}
use clickwrap.Onboarding.Checks.{text_or}

abbrev pub customers_page_size : ℕ
customers_page_size = 50

-- `value.includes(needle)`
unfoldable pub has_part : Units → Units → Bool
unfolding starts_with
has_part needle [] = starts_with needle []
has_part needle (c ∷ s) = starts_with needle (c ∷ s) || has_part needle s

unfoldable pub matches_customer_search :
    (to_lower_case : String → String) → Customer → String → Bool
unfolding has_part
matches_customer_search to_lower_case customer term =
    let needle = to_lower_case (trim term) in
    if needle == ""
    then true
    else any (λ value. has_part (codes needle) (codes (to_lower_case value)))
        (customer.first_name
          ∷ customer.last_name
          ∷ or_else customer.company_name ""
          ∷ customer.external_ref
          ∷ customer.contact_emails)

pub data ComplianceFilter : Type 0 where
  only_compliant only_non_compliant only_pending only_blocked only_objected : ComplianceFilter

pub data CustomerComplianceStatus : Type 0 where
  is_clean is_pending is_objected is_blocked : CustomerComplianceStatus

pub record CustomerListFilters : Type 0 where
  pub audience : Option String
  pub document_type : Option String
  pub compliance : Option ComplianceFilter

pub record CustomerRow : Type 0 where
  pub id : String
  pub external_ref : String
  pub first_name : String
  pub last_name : String
  pub company_name : Option String
  pub roles : List String
  pub contact_emails : List String
  pub deleted_at : Option ℕ
  pub compliant : Option Bool
  pub compliance_status : Option CustomerComplianceStatus

abbrev pub in_states : List StateValue → ComplianceDetail → Bool
in_states wanted d = elim d.state [ none ↦ false | some value ↦ includes wanted value ]

abbrev pub outstanding_pending : List StateValue
outstanding_pending = pending_notification ∷ notified ∷ []

abbrev pub some_detail : List StateValue → ComplianceResult → Bool
some_detail wanted compliance = any (in_states wanted) (values compliance.details)

unfoldable pub summarize_compliance : ComplianceResult → CustomerComplianceStatus
summarize_compliance compliance =
    if not compliance.compliant
    then is_blocked
    else if some_detail (objected ∷ []) compliance
    then is_objected
    else if some_detail outstanding_pending compliance
    then is_pending
    else is_clean

unfoldable pub matches_compliance : ComplianceFilter → ComplianceResult → Bool
matches_compliance only_non_compliant compliance = not compliance.compliant
matches_compliance only_blocked compliance = some_detail (expired_blocking ∷ []) compliance
matches_compliance only_objected compliance = some_detail (objected ∷ []) compliance
matches_compliance only_pending compliance = some_detail outstanding_pending compliance
matches_compliance only_compliant compliance =
    compliance.compliant
    && all (λ (d : ComplianceDetail). is_none d.state || in_states (accepted ∷ []) d)
        (values compliance.details)

unfoldable pub to_row : Customer → Option ComplianceResult → CustomerRow
unfolding summarize_compliance
to_row customer compliance = record {
  id = customer.id;
  external_ref = customer.external_ref;
  first_name = customer.first_name;
  last_name = customer.last_name;
  company_name = text_or customer.company_name none;
  roles = customer.roles;
  contact_emails = customer.contact_emails;
  deleted_at = customer.deleted_at;
  compliant = elim compliance [ none ↦ none | some c ↦ some c.compliant ];
  compliance_status = elim compliance [ none ↦ none | some c ↦ some (summarize_compliance c) ];
}

-- `get`
unfoldable pub get_customer : World → String → Result CustomerRow
get_customer w id =
    required (Customers.find_by_id w.customers id) customer_not_found >>= λ c. ok (to_row c none)

-- `value && test` of a filter that may be undefined or empty
abbrev pub if_set : Option String → (String → Bool) → Bool
if_set value test = not (is_truthy value) || test (or_else value "")

unfoldable pub matches_assignment : Customer → List AgreementDocument → CustomerListFilters → Bool
matches_assignment customer documents filters =
    if_set filters.audience (λ audience. includes customer.roles audience)
    && if_set filters.document_type (λ type.
      any
        (λ (d : AgreementDocument).
          d.type == type
          && includes customer.roles d.audience
          && if_set filters.audience (λ audience. d.audience == audience))
        documents)

unfoldable pub scoped_current_versions :
    World → ℕ → List AgreementDocument → Option String → List CurrentVersionEntry
scoped_current_versions w at [] type = []
scoped_current_versions w at (document ∷ rest) type =
    let entries = scoped_current_versions w at rest type in
    if if_set type (λ wanted. document.type == wanted)
    then with_current document
        (Versions.find_current_published w.documents w.versions document.type document.audience at)
        entries
    else entries

abbrev pub evaluate_compliance :
    World → List CurrentVersionEntry → Option String → Customer → ComplianceResult
evaluate_compliance w entries audience customer =
    compute_compliance customer entries (States.find_by_customer w.states customer.id) audience

-- By name, and by external reference if the names are equal.
unfoldable pub by_name : (String → String → Bool) → Customer → Customer → Bool
by_name is_before a b =
    let x = customer_display_name a in
    let y = customer_display_name b in
    is_before x y && (not (is_before y x) || is_before a.external_ref b.external_ref)

module _ (is_before : String → String → Bool) (to_lower_case : String → String) where
  -- The customers that the search and the assignment leave, in their order.
  unfoldable pub narrowed : World → Option String → CustomerListFilters → List Customer
  unfolding by_name matches_assignment matches_customer_search
  narrowed w search filters =
      let active = keep (λ (c : Customer). is_none c.deleted_at) (Customers.find_all w.customers) in
      let searched =
        if is_truthy search
        then keep (λ c. matches_customer_search to_lower_case c (or_else search "")) active
        else active in
      keep (λ c. matches_assignment c (Documents.find_all w.documents) filters)
        (sort (by_name is_before) searched)

  abbrev row_of : World → List CurrentVersionEntry → CustomerListFilters → Customer → CustomerRow
  row_of w entries filters c = to_row c (some (evaluate_compliance w entries filters.audience c))

  abbrev page_of {ℓ} : {A : Type ℓ} → Option ℕ → List A → List A
  page_of page xs = slice ((page_number page - 1) * customers_page_size) customers_page_size xs

  -- The rows of the page and the total, at the clock's reading `at`.
  unfoldable pub list_customers :
      World
      → ℕ
      → (page : Option ℕ) → (search : Option String) → CustomerListFilters
      → List CustomerRow × ℕ
  unfolding narrowed scoped_current_versions matches_compliance to_row
  list_customers w at page search filters =
      let found = narrowed w search filters in
      let entries =
        scoped_current_versions w at (Documents.find_all w.documents) filters.document_type in
      elim filters.compliance [
        | none ↦ (map (row_of w entries filters) (page_of page found), length found)
        | some wanted ↦
            let matched =
              keep
                (λ c. matches_compliance wanted (evaluate_compliance w entries filters.audience c))
                found in
            (page_of page (map (row_of w entries filters) matched), length matched)
      ]
