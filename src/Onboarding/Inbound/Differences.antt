-- ===== src/Onboarding/Inbound/Differences.antt =====
-- The differences between a row and a push, after the push was written.
use clickwrap.Prelude.{
  ◌≡◌, refl, inl, inr, Bool, true, String, String_eq, ◌==◌, Option, none, some, List, [], ◌∷◌,
  arith, or_else, trim, trim_start, trim_end, Bool-cases,
}
use clickwrap.Prelude.Sort.{sort}
use clickwrap.Domain.Types.{Customer}
use clickwrap.Onboarding.Checks.{text_or}
use clickwrap.Onboarding.Creation.{new_company, updated}
use clickwrap.Onboarding.Inbound.{
  UpsertByExternalRefInput, same_texts, same_string_set, same_text, change, diff_inbound,
  is_unchanged,
}

equal_self : (s : String) → (s == s) ≡ true
equal_self s = (String_eq.beq_iff s s).1 refl

same_text_self : (o : Option String) → same_text o o ≡ true
same_text_self none = refl
same_text_self (some s) = equal_self s

same_texts_self : (xs : List String) → same_texts xs xs ≡ true
same_texts_self [] = refl
same_texts_self (x ∷ xs) = ground (arith, equal_self x, same_texts_self xs)

same_string_set_self :
    (is_before : String → String → Bool) (xs : List String) → same_string_set is_before xs xs ≡ true
unfolding same_string_set
same_string_set_self is_before xs = ground (arith, same_texts_self (sort is_before xs))

-- A field that was written if it differed does not differ.
settled_text : (new old : String) → (new == or_else (change (new == old) new) old) ≡ true
settled_text new old = elim (Bool-cases (new == old)) [
  | inl t ↦ rw t t
  | inr f ↦ rw f (equal_self new)
]

settled_set :
    (is_before : String → String → Bool) (new old : List String)
    → same_string_set is_before new (or_else (change (same_string_set is_before new old) new) old)
      ≡ true
settled_set is_before new old = elim (Bool-cases (same_string_set is_before new old)) [
  | inl t ↦ rw t t
  | inr f ↦ rw f (same_string_set_self is_before new)
]

-- A cleaned name is written as it is, and no name as the empty one.
cleaned :
    (name : Option String)
    → text_or (some (or_else (text_or name none) "")) none ≡ text_or name none
unfolding trim trim_start trim_end
cleaned none = refl
cleaned (some name) = elim (Bool-cases (trim name == "")) [
  | inl t ↦ rw t refl
  | inr f ↦ rw f (rw f refl)
]

settled_company :
    (name old : Option String)
    → (let new = text_or name none in
        same_text new (new_company old (change (same_text new old) (or_else new ""))) ≡ true)
settled_company name old = elim (Bool-cases (same_text (text_or name none) old)) [
  | inl t ↦ rw t t
  | inr f ↦ rw f (rw (cleaned name) (same_text_self (text_or name none)))
]

module _ (is_before : String → String → Bool) (input : UpsertByExternalRefInput) where
  pub diff-updated :
      (existing : Customer)
      → is_unchanged
          (diff_inbound is_before (updated existing (diff_inbound is_before existing input)) input)
        ≡ true
  unfolding diff_inbound updated
  diff-updated existing = rw (settled_text (or_else input.first_name "") existing.first_name) (
      rw (settled_text (or_else input.last_name "") existing.last_name) (
        rw (settled_company input.company_name existing.company_name) (
          rw (settled_set is_before input.roles existing.roles)
            (rw (settled_set is_before input.contact_emails existing.contact_emails) refl))))

  -- A row that has the pushed fields.
  pub diff-same :
      (c : Customer)
      → c.first_name ≡ or_else input.first_name ""
      → c.last_name ≡ or_else input.last_name ""
      → c.company_name ≡ text_or input.company_name none
      → c.roles ≡ input.roles
      → c.contact_emails ≡ input.contact_emails
      → is_unchanged (diff_inbound is_before c input) ≡ true
  unfolding diff_inbound
  diff-same c f l n r e =
      rw (f, l, n, r, e)
        (rw (equal_self (or_else input.first_name "")) (
          rw (equal_self (or_else input.last_name "")) (
            rw (same_text_self (text_or input.company_name none)) (
              rw (same_string_set_self is_before input.roles)
                (rw (same_string_set_self is_before input.contact_emails) refl)))))
