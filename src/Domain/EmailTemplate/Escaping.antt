-- ===== src/Domain/EmailTemplate/Escaping.antt =====
-- What escaping does to a value, and what decoding gives back of it.
use mathlib.Core.List.{flat_map}
use clickwrap.Prelude.{
  ℕ, ◌≡◌, Bool, false, ◌||◌, [], ◌∷◌, ◌++◌, nat_eq, codes, arith, All, if◌then◌else◌,
}
use clickwrap.Prelude.Scan.{
  Units, starts_with, replace_from, replace_all, swap_unit, replace_all-unit, flat_map-flat_map,
  flat_map_at, flat_map-singleton, replace_all-flat_map, All-flat_map,
}
use clickwrap.Domain.EmailTemplate.{escape_html, decode_entities}

-- The escaped form of one character.
abbrev pub entity_of : ℕ → Units
entity_of c =
    if nat_eq b'&' c
    then codes "&amp;"
    else if nat_eq b'<' c
    then codes "&lt;"
    else if nat_eq b'>' c
    then codes "&gt;"
    else if nat_eq b'"' c
    then codes "&quot;"
    else if nat_eq b'\'' c
    then codes "&#39;"
    else c ∷ []

five_passes :
    (c : ℕ)
    → flat_map
        (λ d.
          flat_map
            (λ e.
              flat_map
                (λ f.
                  flat_map (swap_unit b'\'' (codes "&#39;")) (swap_unit b'"' (codes "&quot;") f))
                (swap_unit b'>' (codes "&gt;") e))
            (swap_unit b'<' (codes "&lt;") d))
        (swap_unit b'&' (codes "&amp;") c)
      ≡ entity_of c
unfolding flat_map
five_passes c = ground arith

-- The five replacements, one after the other, escape every character once.
pub escape_html-flat_map : (value : Units) → escape_html value ≡ flat_map entity_of value
unfolding escape_html
escape_html-flat_map value =
    simp (replace_all-unit, flat_map-flat_map) (flat_map_at _ _ five_passes value)

-- No mark-up character is left of a value: `<`, `>` and the quotes.
abbrev pub is_markup : ℕ → Bool
is_markup c = nat_eq b'<' c || nat_eq b'>' c || nat_eq b'"' c || nat_eq b'\'' c

entity_of-no_markup : (c : ℕ) → All (λ d. is_markup d ≡ false) (entity_of c)
entity_of-no_markup c = ground arith

-- An escaped value has no angle brackets and no quotes, whatever it was.
pub escape_html-no_markup : (value : Units) → All (λ d. is_markup d ≡ false) (escape_html value)
escape_html-no_markup value =
    rw escape_html-flat_map (All-flat_map _ entity_of value entity_of-no_markup)

-- What is left to decode after each of the replacements that find something.
abbrev IsPlain : ℕ → Type 0
IsPlain c = nat_eq b'&' c ≡ false

abbrev but : ℕ → (ℕ → Units) → ℕ → Units
but d f c = if nat_eq d c then d ∷ [] else f c

stage_nbsp :
    (c : ℕ) (t : Units)
    → IsPlain c
    → replace_all (codes "&nbsp;") (codes " ") (entity_of c ++ t)
      ≡ entity_of c ++ replace_all (codes "&nbsp;") (codes " ") t
unfolding replace_all replace_from starts_with
stage_nbsp c t h = ground arith

stage_amp :
    (c : ℕ) (t : Units)
    → IsPlain c
    → replace_all (codes "&amp;") (codes "&") (entity_of c ++ t)
      ≡ entity_of c ++ replace_all (codes "&amp;") (codes "&") t
unfolding replace_all replace_from starts_with
stage_amp c t h = ground arith

stage_lt :
    (c : ℕ) (t : Units)
    → IsPlain c
    → replace_all (codes "&lt;") (codes "<") (entity_of c ++ t)
      ≡ but b'<' entity_of c ++ replace_all (codes "&lt;") (codes "<") t
unfolding replace_all replace_from starts_with
stage_lt c t h = ground arith

stage_gt :
    (c : ℕ) (t : Units)
    → IsPlain c
    → replace_all (codes "&gt;") (codes ">") (but b'<' entity_of c ++ t)
      ≡ but b'>' (but b'<' entity_of) c ++ replace_all (codes "&gt;") (codes ">") t
unfolding replace_all replace_from starts_with
stage_gt c t h = ground arith

stage_quot :
    (c : ℕ) (t : Units)
    → IsPlain c
    → replace_all (codes "&quot;") (codes "\"") (but b'>' (but b'<' entity_of) c ++ t)
      ≡ but b'"' (but b'>' (but b'<' entity_of)) c ++ replace_all (codes "&quot;") (codes "\"") t
unfolding replace_all replace_from starts_with
stage_quot c t h = ground arith

stage_apos :
    (c : ℕ) (t : Units)
    → IsPlain c
    → replace_all (codes "&#39;") (codes "'") (but b'"' (but b'>' (but b'<' entity_of)) c ++ t)
      ≡ (c ∷ []) ++ replace_all (codes "&#39;") (codes "'") t
unfolding replace_all replace_from starts_with
stage_apos c t h = ground arith

-- Decoding gives an escaped value back if it has no ampersand.
pub decode_entities-escape_html :
    (value : Units)
    → All (λ c. nat_eq b'&' c ≡ false) value
    → decode_entities (escape_html value) ≡ value
unfolding decode_entities
decode_entities-escape_html value h = rw escape_html-flat_map (
    rw (replace_all-flat_map _ _ _ _ IsPlain stage_nbsp value h) (
      rw (replace_all-flat_map _ _ _ _ IsPlain stage_amp value h) (
        rw (replace_all-flat_map _ _ _ _ IsPlain stage_lt value h) (
          rw (replace_all-flat_map _ _ _ _ IsPlain stage_gt value h) (
            rw (replace_all-flat_map _ _ _ _ IsPlain stage_quot value h) (
              rw (replace_all-flat_map _ _ _ (λ c. c ∷ []) IsPlain stage_apos value h)
                (flat_map-singleton value)))))))
