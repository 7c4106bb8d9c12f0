-- ===== src/Domain/EmailTemplate/Placeholders.antt =====
-- A template that is written as characters and placeholders renders to its parts.
use mathlib.Core.List.{append_assoc}
use clickwrap.Prelude.{
  ℕ, ◌+◌, ◌-◌, ◌≡◌, refl, ap, ◌∙◌, Bool, true, false, List, [], ◌∷◌, ◌++◌, some, length, nat_eq,
  is_space, arith, All,
}
use clickwrap.Prelude.Scan.{
  Units, starts_with, drop, drop_while, take_while, drop_while_run, take_while_run,
}
use clickwrap.Domain.EmailTemplate.{
  TemplateVars, is_name_unit, close, placeholder_at, substitute_from, substitute, write_value,
}

-- A part of a template: a character, or a placeholder with white space around its name, whose first
-- character stands apart.
pub data Part : Type 0 where
  char : ℕ → Part
  hole : (before : Units) (first : ℕ) (name after : Units) → Part

abbrev pub print_part : Part → Units
print_part (char c) = c ∷ []
print_part (hole before first name after) =
    b'{' ∷ b'{' ∷ (before ++ (first ∷ (name ++ (after ++ b'}' ∷ b'}' ∷ []))))

-- No character opens a placeholder; names have word characters and are surrounded by white space.
abbrev pub IsPrintable : Part → Type 0
IsPrintable (char c) = nat_eq b'{' c ≡ false
IsPrintable (hole before first name after) =
    All (λ c. is_space c ≡ true) before
    × (is_name_unit first ≡ true)
    × All (λ c. is_name_unit c ≡ true) name
    × All (λ c. is_space c ≡ true) after

-- What stands for a part, given what stands for each name.
abbrev pub meaning : (Units → Units) → Part → Units
meaning write (char c) = c ∷ []
meaning write (hole before first name after) = write (first ∷ name)

abbrev pub print : List Part → Units
print [] = []
print (x ∷ xs) = print_part x ++ print xs

abbrev pub meaning_of : (Units → Units) → List Part → Units
meaning_of write [] = []
meaning_of write (x ∷ xs) = meaning write x ++ meaning_of write xs

name_is_no_space : (c : ℕ) → is_name_unit c ≡ true → is_space c ≡ false
unfolding is_name_unit is_space
name_is_no_space c h = ground arith

length-append : (xs ys : Units) → length (xs ++ ys) ≡ length xs + length ys
length-append [] ys = omega arith
length-append (x ∷ xs) ys = omega (arith, length-append xs ys)

skip_run :
    (write : Units → Units) (xs t : Units)
    → substitute_from write (length xs) (xs ++ t) ≡ substitute_from write 0 t
unfolding substitute_from
skip_run write [] t = refl
skip_run write (x ∷ xs) t = skip_run write xs t

-- A run of names, and what ends it.
names_taken :
    (name after t : Units)
    → All (λ c. is_name_unit c ≡ true) name
    → All (λ c. is_space c ≡ true) after
    → (take_while is_name_unit (name ++ (after ++ b'}' ∷ t)) ≡ name)
      × (drop_while is_name_unit (name ++ (after ++ b'}' ∷ t)) ≡ after ++ b'}' ∷ t)
unfolding is_name_unit is_space
names_taken name [] t h k =
    (take_while_run _ name b'}' t h refl, drop_while_run _ name b'}' t h refl)
names_taken name (c ∷ after) t h k =
    let e : is_name_unit c ≡ false = ground (arith, k.0) in
    (
      take_while_run _ name c (after ++ b'}' ∷ t) h e,
      drop_while_run _ name c (after ++ b'}' ∷ t) h e,
    )

placeholder_at-hole :
    (before : Units) (first : ℕ) (name after t : Units)
    → IsPrintable (hole before first name after)
    → placeholder_at (b'{' ∷ b'{' ∷ (before ++ (first ∷ (name ++ (after ++ b'}' ∷ b'}' ∷ t)))))
      ≡ some (first ∷ name, t)
unfolding placeholder_at starts_with drop close
placeholder_at-hole before first name after t h =
    let spaces =
      drop_while_run is_space before first (name ++ (after ++ b'}' ∷ b'}' ∷ t)) h.0
        (name_is_no_space first h.1) in
    let names = names_taken (first ∷ name) after (b'}' ∷ t) (h.1, h.2) h.3 in
    rw spaces (
      rw (names.0) (
        rw (names.1)
          (rw (drop_while_run is_space after b'}' (b'}' ∷ t) h.3 (unfold is_space in refl)) refl)))

-- A placeholder behind its first brace, with the text that follows it.
abbrev body : Units → ℕ → Units → Units → Units → Units
body before first name after t = b'{' ∷ (before ++ (first ∷ (name ++ (after ++ b'}' ∷ b'}' ∷ t))))

body-append :
    (before : Units) (first : ℕ) (name after t : Units)
    → body before first name after [] ++ t ≡ body before first name after t
body-append before first name after t = simp (append_assoc {0})

substitute_from-hole :
    (write : Units → Units) (before : Units) (first : ℕ) (name after t : Units)
    → IsPrintable (hole before first name after)
    → substitute_from write 0 (b'{' ∷ (body before first name after [] ++ t))
      ≡ write (first ∷ name) ++ substitute_from write 0 t
unfolding substitute_from
substitute_from-hole write before first name after t h =
    let b = body before first name after [] in
    let hit : placeholder_at (b'{' ∷ (b ++ t)) ≡ some (first ∷ name, t) =
      ap (λ s. placeholder_at (b'{' ∷ s)) (body-append before first name after t)
      ∙ placeholder_at-hole before first name after t h in
    let e : length (b ++ t) - length t ≡ length b = omega (arith, length-append b t) in
    rw hit (rw e (ap (λ r. write (first ∷ name) ++ r) (skip_run write b t)))

substitute_from-char :
    (write : Units → Units) (c : ℕ) (t : Units)
    → nat_eq b'{' c ≡ false
    → substitute_from write 0 (c ∷ t) ≡ c ∷ substitute_from write 0 t
unfolding substitute_from placeholder_at starts_with
substitute_from-char write c t h = rw h refl

substitute_from-print :
    (write : Units → Units) (parts : List Part)
    → All IsPrintable parts
    → substitute_from write 0 (print parts) ≡ meaning_of write parts
unfolding substitute_from
substitute_from-print write [] h = refl
substitute_from-print write (char c ∷ parts) h =
    substitute_from-char write c (print parts) h.0
    ∙ ap (λ r. c ∷ r) (substitute_from-print write parts h.1)
substitute_from-print write (hole before first name after ∷ parts) h =
    substitute_from-hole write before first name after (print parts) h.0
    ∙ ap (λ r. write (first ∷ name) ++ r) (substitute_from-print write parts h.1)

-- A template written as characters and placeholders is filled in part by part: the characters as they
-- are, a known name by its value (escaped where that is asked for), an unknown name by its braces.
pub substitute-print :
    (parts : List Part) (vars : TemplateVars) (escape : Bool)
    → All IsPrintable parts
    → substitute (print parts) vars escape ≡ meaning_of (write_value vars escape) parts
unfolding substitute
substitute-print parts vars escape h = substitute_from-print (write_value vars escape) parts h
