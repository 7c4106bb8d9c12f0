-- ===== src/Domain/Customers.antt =====
-- domain/customer.ts: the one label of a customer.
use clickwrap.Prelude.{String, not, Option, none, some, ◌==◌, String_eq, if◌then◌else◌, trim, ◌<>◌}
use clickwrap.Domain.Types.{Customer}

-- `companyName?.trim() ?? ''`
trimmed : Option String → String
trimmed none = ""
trimmed (some name) = trim name

unfoldable pub customer_display_name : Customer → String
unfolding trimmed
customer_display_name customer =
    let company = trimmed customer.company_name in
    if not (company == "") then company else trim (customer.first_name <> " " <> customer.last_name)
