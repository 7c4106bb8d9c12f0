-- ===== src/Domain/Keys/Collisions.antt =====
-- The detail keys of domain/keys.ts, for pairs of a type and an audience.
use clickwrap.Prelude.{
  ℕ, ◌≡◌, refl, ◌≢◌, String, true, List, [], ◌∷◌, ◌++◌, map, all, codes, codes_injective, arith,
  ◌∙◌, sym,
}
use mathlib.Core.List.{map-append}
use clickwrap.Domain.Keys.{is_slug_char, is_valid_entity_key, upper, detail_key}

upper_injective :
    (c d : ℕ) → is_slug_char c ≡ true → is_slug_char d ≡ true → upper c ≡ upper d → c ≡ d
unfolding is_slug_char upper
upper_injective c d p q h = ground arith

upper-ne-underscore : (c : ℕ) → is_slug_char c ≡ true → upper c ≢ b'_'
unfolding is_slug_char upper
upper-ne-underscore c p h = ground arith

map-upper_injective :
    (xs ys : List ℕ)
    → all is_slug_char xs ≡ true
    → all is_slug_char ys ≡ true
    → map upper xs ≡ map upper ys
    → xs ≡ ys
map-upper_injective [] [] p q h = refl
map-upper_injective [] (y ∷ ys) p q h = cc
map-upper_injective (x ∷ xs) [] p q h = cc
map-upper_injective (x ∷ xs) (y ∷ ys) p q h =
    ground (arith, upper_injective x y, map-upper_injective xs ys)

-- Two lists of slug characters around an underscore are determined by the whole.
split_at_underscore :
    (xs ys us vs : List ℕ)
    → all is_slug_char xs ≡ true
    → all is_slug_char us ≡ true
    → (map upper xs ++ b'_' ∷ ys) ≡ (map upper us ++ b'_' ∷ vs)
    → (map upper xs ≡ map upper us) × (ys ≡ vs)
split_at_underscore [] ys [] vs p q h = (refl, cc)
split_at_underscore [] ys (u ∷ us) vs p q h = ground (arith, upper-ne-underscore u)
split_at_underscore (x ∷ xs) ys [] vs p q h = ground (arith, upper-ne-underscore x)
split_at_underscore (x ∷ xs) ys (u ∷ us) vs p q h = ground (arith, split_at_underscore xs ys us vs)

slug_chars : (k : String) → is_valid_entity_key k ≡ true → all is_slug_char (codes k) ≡ true
unfolding is_valid_entity_key
slug_chars k h = ground arith

-- For valid slugs, the detail key determines the document type and the audience.
pub detail_key_injective :
    (t a t' a' : String)
    → is_valid_entity_key t ≡ true
    → is_valid_entity_key a ≡ true
    → is_valid_entity_key t' ≡ true
    → is_valid_entity_key a' ≡ true
    → detail_key t a ≡ detail_key t' a'
    → (t ≡ t') × (a ≡ a')
unfolding detail_key upper
detail_key_injective t a t' a' vt va vt' va' h =
    let whole : (map upper (codes t) ++ b'_' ∷ map upper (codes a))
        ≡ (map upper (codes t') ++ b'_' ∷ map upper (codes a')) =
      sym (map-append upper (codes t) (b'_' ∷ codes a))
      ∙ h
      ∙ map-append upper (codes t') (b'_' ∷ codes a') in
    let (l, r) =
      split_at_underscore (codes t) (map upper (codes a)) (codes t') (map upper (codes a'))
        (slug_chars t vt) (slug_chars t' vt') whole in
    (
      codes_injective t t'
          (map-upper_injective (codes t) (codes t') (slug_chars t vt) (slug_chars t' vt') l),
      codes_injective a a'
          (map-upper_injective (codes a) (codes a') (slug_chars a va) (slug_chars a' va') r),
    )
