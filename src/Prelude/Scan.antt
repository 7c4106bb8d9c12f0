-- ===== src/Prelude/Scan.antt =====
-- `String.prototype.replace` with a text or a character class, on texts as their code units.
use mathlib.Core.List.{flat_map, append_assoc}
use Prim.Native.Nat.{ℕ, zero, suc, ◌-◌}
use mathlib.Core.Path.{◌≡◌, refl, ap, ◌∙◌}
use mathlib.Core.Bool.{Bool, true, false}
use mathlib.Core.List.{List, [], ◌∷◌, ◌++◌}
use native.Mathlib.Omega.{arith}
use clickwrap.Prelude.Tests.{if◌then◌else◌, nat_eq}
use clickwrap.Prelude.Lists.{length, All}

abbrev pub Units : Type 0
Units = List ℕ

unfoldable pub starts_with : Units → Units → Bool
starts_with [] s = true
starts_with (p ∷ ps) [] = false
starts_with (p ∷ ps) (c ∷ s) = if nat_eq p c then starts_with ps s else false

-- What is left after a prefix is known to be there.
unfoldable pub drop : ℕ → Units → Units
drop zero s = s
drop (suc n) [] = []
drop (suc n) (c ∷ s) = drop n s

unfoldable pub drop_while : (ℕ → Bool) → Units → Units
drop_while p [] = []
drop_while p (c ∷ s) = if p c then drop_while p s else c ∷ s

unfoldable pub take_while : (ℕ → Bool) → Units → Units
take_while p [] = []
take_while p (c ∷ s) = if p c then c ∷ take_while p s else []

-- The scan of a global replacement: units of a match that are still to be skipped, and the text.
unfoldable pub replace_from : Units → Units → ℕ → Units → Units
replace_from pattern_text by skip [] = []
replace_from pattern_text by (suc skip) (c ∷ s) = replace_from pattern_text by skip s
replace_from pattern_text by zero (c ∷ s) =
    let hit = starts_with pattern_text (c ∷ s) in
    (if hit then by else c ∷ [])
    ++ replace_from pattern_text by (if hit then length pattern_text - 1 else 0) s

-- `s.replace(/text/g, by)`
unfoldable pub replace_all : Units → Units → Units → Units
replace_all pattern_text by s = replace_from pattern_text by 0 s

-- Replacing one character is done character by character.
abbrev pub swap_unit : ℕ → Units → ℕ → Units
swap_unit p by c = if nat_eq p c then by else c ∷ []

pub replace_all-unit :
    (p : ℕ) (by s : Units) → replace_all (p ∷ []) by s ≡ flat_map (swap_unit p by) s
unfolding replace_all replace_from starts_with flat_map
replace_all-unit p by [] = refl
replace_all-unit p by (c ∷ s) = ground (arith, replace_all-unit p by s)

pub flat_map-append :
    (f : ℕ → Units) (xs ys : Units) → flat_map f (xs ++ ys) ≡ flat_map f xs ++ flat_map f ys
unfolding flat_map
flat_map-append f [] ys = refl
flat_map-append f (x ∷ xs) ys = simp (flat_map-append f xs ys, append_assoc)

-- Two passes are one pass.
pub flat_map-flat_map :
    (f g : ℕ → Units) (s : Units) → flat_map f (flat_map g s) ≡ flat_map (λ c. flat_map f (g c)) s
unfolding flat_map
flat_map-flat_map f g [] = refl
flat_map-flat_map f g (c ∷ s) =
    flat_map-append f (g c) (flat_map g s)
    ∙ ap (λ t. flat_map f (g c) ++ t) (flat_map-flat_map f g s)

pub flat_map_at :
    (f g : ℕ → Units) → ((c : ℕ) → f c ≡ g c) → (s : Units) → flat_map f s ≡ flat_map g s
unfolding flat_map
flat_map_at f g h [] = refl
flat_map_at f g h (c ∷ s) = cc (h c, flat_map_at f g h s)

-- A pass over a text that was written piece by piece is taken piece by piece.
pub replace_all-flat_map :
    (pattern_text by : Units) (f g : ℕ → Units) (P : ℕ → Type 0)
    → ((c : ℕ) (t : Units)
        → P c
        → replace_all pattern_text by (f c ++ t) ≡ g c ++ replace_all pattern_text by t)
    → (s : Units) → All P s
    → replace_all pattern_text by (flat_map f s) ≡ flat_map g s
unfolding flat_map replace_all replace_from
replace_all-flat_map pattern_text by f g P h [] a = refl
replace_all-flat_map pattern_text by f g P h (c ∷ s) a =
    h c (flat_map f s) a.0 ∙ ap (λ t. g c ++ t) (replace_all-flat_map pattern_text by f g P h s a.1)

pub flat_map-singleton : (s : Units) → flat_map (λ c. c ∷ []) s ≡ s
unfolding flat_map
flat_map-singleton [] = refl
flat_map-singleton (c ∷ s) = ap (λ t. c ∷ t) (flat_map-singleton s)

pub All-append {ℓ} : (P : ℕ → Type ℓ) (xs ys : Units) → All P xs → All P ys → All P (xs ++ ys)
All-append P [] ys h k = k
All-append P (x ∷ xs) ys h k = (h.0, All-append P xs ys h.1 k)

pub All-flat_map {ℓ} :
    (P : ℕ → Type ℓ) (f : ℕ → Units) (s : Units) → ((c : ℕ) → All P (f c)) → All P (flat_map f s)
unfolding flat_map
All-flat_map P f [] h = tt
All-flat_map P f (c ∷ s) h = All-append P (f c) (flat_map f s) (h c) (All-flat_map P f s h)

-- Runs of a character class.
pub drop_while_run :
    (p : ℕ → Bool) (xs : Units) (c : ℕ) (t : Units)
    → All (λ x. p x ≡ true) xs
    → p c ≡ false
    → drop_while p (xs ++ c ∷ t) ≡ c ∷ t
unfolding drop_while
drop_while_run p [] c t h e = rw e
drop_while_run p (x ∷ xs) c t h e = rw (h.0) (drop_while_run p xs c t h.1 e)

pub take_while_run :
    (p : ℕ → Bool) (xs : Units) (c : ℕ) (t : Units)
    → All (λ x. p x ≡ true) xs
    → p c ≡ false
    → take_while p (xs ++ c ∷ t) ≡ xs
unfolding take_while
take_while_run p [] c t h e = rw e
take_while_run p (x ∷ xs) c t h e = rw (h.0) (ap (λ r. x ∷ r) (take_while_run p xs c t h.1 e))
