-- ===== src/Services/Integration.antt =====
-- common/integration/resolve-customer.ts: whom a request of the integration API is about.
pub mod Selection
use clickwrap.Prelude.{
  String, Bool, true, false, not, Option, none, some, [], ◌∷◌, ◌==◌, String_eq, ◌&&◌, or_else, trim,
  includes, find, is_none, if◌then◌else◌,
}
use clickwrap.Domain.Errors.{Result, ok, err, ◌>>=◌, customer_not_found, bad_request}
use clickwrap.Domain.Types.{Customer}
use clickwrap.Store.Customers
use clickwrap.Runtime.{World}
use clickwrap.Services.Acceptance.Checks.{required}
use clickwrap.Services.Compliance.{resolve_audience_key}

pub record CustomerSelector : Type 0 where
  pub customer_id : Option String
  pub external_ref : Option String
  pub audience : Option String

-- `value?.trim()`, with '' for undefined: the source tests whether it is truthy.
abbrev pub trimmed : Option String → String
trimmed value = trim (or_else value "")

abbrev pub is_given : Option String → Bool
is_given value = not (trimmed value == "")

-- `Boolean(a) === Boolean(b)`
abbrev pub agree : Bool → Bool → Bool
agree true b = b
agree false b = not b

abbrev pub is_active : Customer → Bool
is_active customer = is_none customer.deleted_at

unfoldable pub if_active : Option Customer → Result Customer
if_active none = err customer_not_found
if_active (some customer) = if is_active customer then ok customer else err customer_not_found

unfoldable pub by_external_ref : World → (external_ref audience : String) → Result Customer
by_external_ref w external_ref audience =
    if audience == ""
    then err bad_request
    else resolve_audience_key w (some audience) >>= (λ key.
      required
        (find (λ c. is_active c && includes c.roles audience)
          (Customers.find_all_by_external_ref w.customers external_ref))
        customer_not_found)

unfoldable pub resolve_integration_customer : World → CustomerSelector → Result Customer
unfolding if_active by_external_ref
resolve_integration_customer w selector =
    let customer_id = trimmed selector.customer_id in
    let external_ref = trimmed selector.external_ref in
    if agree (is_given selector.customer_id) (is_given selector.external_ref)
    then err bad_request
    else if is_given selector.customer_id
    then if_active (Customers.find_by_id w.customers customer_id)
    else by_external_ref w external_ref (trimmed selector.audience)
