-- ===== src/Onboarding/Checks.antt =====
-- customers/customer-admin.service.ts: what is checked of a customer before it is stored.
pub mod Overlap
use clickwrap.Prelude.{
  ℕ, Bool, true, false, not, ◌&&◌, ◌||◌, String, String_eq, ◌==◌, Option, none, some, List, [], ◌∷◌,
  nat_eq, all, any, is_none, is_some, is_space, codes, includes, find, or_else, trim, if◌then◌else◌,
}
use clickwrap.Prelude.Scan.{Units, drop_while, take_while}
use clickwrap.Domain.Errors.{Result, ok, err, ◌>>◌, invalid_state, unknown_audience}
use clickwrap.Domain.Types.{Customer}
use clickwrap.Domain.Consent.{require}
use clickwrap.Store.Customers
use clickwrap.Store.Entities
use clickwrap.Runtime.{World}

-- `[^\s@]`
abbrev pub is_address_unit : ℕ → Bool
is_address_unit c = not (is_space c) && not (nat_eq c b'@')

-- A dot with something behind it.
abbrev pub has_dot : Units → Bool
has_dot [] = false
has_dot (c ∷ []) = false
has_dot (c ∷ (d ∷ s)) = nat_eq c b'.' || has_dot (d ∷ s)

-- `[^\s@]+\.[^\s@]+$`, after the @.
abbrev pub is_domain : Units → Bool
is_domain [] = false
is_domain (c ∷ s) = all is_address_unit (c ∷ s) && has_dot s

abbrev pub after_local : Units → Units → Bool
after_local [] rest = false
after_local (c ∷ local) [] = false
after_local (c ∷ local) (at ∷ rest) = nat_eq at b'@' && is_domain rest

-- `EMAIL_PATTERN.test`: the @ is not in the class of the parts around it, so there is one way to match.
unfoldable pub is_email : String → Bool
unfolding is_space drop_while take_while
is_email text =
    after_local (take_while is_address_unit (codes text)) (drop_while is_address_unit (codes text))

unfoldable pub assert_roles_known : World → List String → Result (Unit {0})
assert_roles_known w [] = ok tt
assert_roles_known w (role ∷ roles) =
    require (is_some (Entities.find_audience w.audiences role)) unknown_audience
    >> assert_roles_known w roles

unfoldable pub assert_emails_valid : List String → Result (Unit {0})
unfolding is_email
assert_emails_valid [] = ok tt
assert_emails_valid (email ∷ emails) =
    require (is_email email) invalid_state >> assert_emails_valid emails

-- `a.some((role) => b.includes(role))`
abbrev pub overlaps : List String → List String → Bool
overlaps a b = any (λ role. includes b role) a

-- `c.id === excludeId`
abbrev pub is_excluded : Option String → String → Bool
is_excluded none id = false
is_excluded (some exclude_id) id = id == exclude_id

abbrev pub is_conflict : List String → Option String → Customer → Bool
is_conflict roles exclude_id c = not (is_excluded exclude_id c.id) && overlaps c.roles roles

unfoldable pub assert_external_ref_unique :
    Customers.Customers → String → List String → Option String → Result (Unit {0})
assert_external_ref_unique customers external_ref roles exclude_id =
    require
      (is_none (
        find (is_conflict roles exclude_id)
          (Customers.find_all_by_external_ref customers external_ref)))
      invalid_state

-- `value?.trim() ? value : fallback`
abbrev pub text_or : Option String → Option String → Option String
text_or value fallback = if trim (or_else value "") == "" then fallback else value
