-- ===== src/Store/Customers.antt =====
-- persistence/inmemory/customer.repo.ts
use clickwrap.Prelude.{ℕ, String, Option, none, some, List, ◌==◌, String_eq, keep, includes}
use clickwrap.Prelude.Dict.{Dict, values, get, set}
use clickwrap.Domain.Types.{Customer}

abbrev pub Customers : Type 0
Customers = Dict String Customer

unfoldable pub save : Customers → Customer → Customers
save customers customer = set customers customer.id customer

unfoldable pub find_by_id : Customers → String → Option Customer
find_by_id customers id = get customers id

unfoldable pub find_all_by_external_ref : Customers → String → List Customer
find_all_by_external_ref customers external_ref =
    keep (λ c. c.external_ref == external_ref) (values customers)

unfoldable pub find_by_role : Customers → String → List Customer
find_by_role customers audience_key = keep (λ c. includes c.roles audience_key) (values customers)

unfoldable pub find_all : Customers → List Customer
find_all customers = values customers

unfoldable pub soft_delete : Customers → String → ℕ → Customers
soft_delete customers id at = elim (get customers id) [
  | none ↦ customers
  | some existing ↦ set customers id (record existing { deleted_at = some at })
]
