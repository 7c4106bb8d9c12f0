-- ===== src/Domain/EmailTemplate.antt =====
-- domain/email-template.ts: what is put in place of the placeholders of a mail's subject and html. A
-- text is its code units, the values are a dictionary, and case-insensitive classes are not used here.
pub mod Escaping
pub mod Placeholders
use mathlib.Core.List.{flat_map}
use clickwrap.Prelude.{
  ℕ, zero, suc, ◌-◌, Bool, true, false, ◌&&◌, ◌||◌, String, Option, none, some, List, [], ◌∷◌, ◌++◌,
  length, leb, nat_eq, is_space, codes, Codes_eq, String_eq, if◌then◌else◌, ◌==◌, includes,
}
use clickwrap.Prelude.Scan.{
  Units, starts_with, drop, drop_while, take_while, replace_from, replace_all,
}
use clickwrap.Prelude.Dict.{Dict, get}
use clickwrap.Domain.Types.{
  EmailTemplateKind, version_notification, reminder, acceptance_confirmation,
}

-- `TemplateVars`
abbrev pub TemplateVars : Type 0
TemplateVars = Dict Units Units

unfoldable pub escape_html : Units → Units
unfolding replace_all replace_from starts_with
escape_html value = replace_all (codes "'") (codes "&#39;") (
    replace_all (codes "\"") (codes "&quot;") (
      replace_all (codes ">") (codes "&gt;")
        (replace_all (codes "<") (codes "&lt;") (replace_all (codes "&") (codes "&amp;") value))))

unfoldable pub decode_entities : Units → Units
unfolding replace_all replace_from starts_with
decode_entities input = replace_all (codes "&#39;") (codes "'") (
    replace_all (codes "&quot;") (codes "\"") (
      replace_all (codes "&gt;") (codes ">") (
        replace_all (codes "&lt;") (codes "<") (
          replace_all (codes "&amp;") (codes "&")
            (replace_all (codes "&nbsp;") (codes " ") input)))))

-- `[a-zA-Z0-9_]`
unfoldable pub is_name_unit : ℕ → Bool
is_name_unit c =
    leb b'a' c && leb c b'z'
    || leb b'A' c && leb c b'Z'
    || leb b'0' c && leb c b'9'
    || nat_eq c b'_'

-- The end of a placeholder, and its name with what stands behind it.
close : Units → Units → Option (Units × Units)
unfolding starts_with drop
close [] s = none
close (c ∷ name) s = if starts_with (codes "}}") s then some (c ∷ name, drop 2 s) else none

-- A match of PLACEHOLDER that starts here: its classes are disjoint, so there is one way to match.
unfoldable pub placeholder_at : Units → Option (Units × Units)
unfolding starts_with drop drop_while take_while is_space is_name_unit close
placeholder_at s =
    if starts_with (codes "{{") s
    then (let body = drop_while is_space (drop 2 s) in
        close (take_while is_name_unit body) (drop_while is_space (drop_while is_name_unit body)))
    else none

-- An unknown name stays visible.
unfoldable pub write_value : TemplateVars → Bool → Units → Units
unfolding escape_html get
write_value vars escape name = elim (get vars name) [
  | none ↦ codes "{{" ++ name ++ codes "}}"
  | some value ↦ if escape then escape_html value else value
]

abbrev pub written : (Units → Units) → ℕ → Option (Units × Units) → Units
written write c none = c ∷ []
written write c (some (name, rest)) = write name

-- How many of the units behind the first one belong to the match.
abbrev pub matched : Units → Option (Units × Units) → ℕ
matched s none = 0
matched s (some (name, rest)) = length s - length rest

unfoldable pub substitute_from : (Units → Units) → ℕ → Units → Units
unfolding placeholder_at
substitute_from write skip [] = []
substitute_from write (suc skip) (c ∷ s) = substitute_from write skip s
substitute_from write zero (c ∷ s) =
    let hit = placeholder_at (c ∷ s) in
    written write c hit ++ substitute_from write (matched s hit) s

unfoldable pub substitute : Units → TemplateVars → Bool → Units
unfolding write_value substitute_from
substitute template vars escape = substitute_from (write_value vars escape) 0 template

abbrev pub default_notification_template_id : String
default_notification_template_id = "tpl-default-notification"

abbrev pub default_reminder_template_id : String
default_reminder_template_id = "tpl-default-reminder"

abbrev pub default_acceptance_confirmation_template_id : String
default_acceptance_confirmation_template_id = "tpl-default-acceptance-confirmation"

unfoldable pub default_template_id_for_kind : EmailTemplateKind → String
default_template_id_for_kind version_notification = default_notification_template_id
default_template_id_for_kind reminder = default_reminder_template_id
default_template_id_for_kind acceptance_confirmation = default_acceptance_confirmation_template_id

unfoldable pub is_default_email_template_id : String → Bool
unfolding includes
is_default_email_template_id id =
    includes
      (default_notification_template_id ∷ default_reminder_template_id
        ∷ default_acceptance_confirmation_template_id ∷ [])
      id
