-- ===== src/Prelude/Texts.antt =====
-- What the source asks of texts: whether one is blank, and the join of two.
use Prim.Native.Char.{Char, code}
use Prim.Native.Nat.{ℕ}
use Prim.Native.String.{String, ◌++◌}
use mathlib.Core.Path.{◌≡◌, refl}
use mathlib.Core.Logic.{◌↔◌}
use mathlib.Core.Bool.{Bool, true, false, ◌&&◌, ◌||◌}
use mathlib.Core.Option.{Option, none, some}
use mathlib.Core.List.{List, [], ◌∷◌}
use native.Mathlib.Omega.{arith}
use text.Mathlib.TextEquality.{Char-path}
use clickwrap.Prelude.Tests.{leb, nat_eq, Eq, if◌then◌else◌}

-- White space and line terminators, which `trim` removes.
unfoldable pub is_space : ℕ → Bool
is_space c =
    leb 9 c && leb c 13
    || nat_eq c 32
    || nat_eq c 0xa0
    || nat_eq c 0x1680
    || leb 0x2000 c && leb c 0x200a
    || nat_eq c 0x2028
    || nat_eq c 0x2029
    || nat_eq c 0x202f
    || nat_eq c 0x205f
    || nat_eq c 0x3000
    || nat_eq c 0xfeff

-- `trimStart` and `trimEnd`
unfoldable pub trim_start : String → String
unfolding is_space
trim_start String.[] = String.[]
trim_start (String.◌∷◌ c s) = if is_space (code c) then trim_start s else String.◌∷◌ c s

end_step : Char → String → String
unfolding is_space
end_step c String.[] = if is_space (code c) then String.[] else String.◌∷◌ c String.[]
end_step c (String.◌∷◌ d s) = String.◌∷◌ c (String.◌∷◌ d s)

unfoldable pub trim_end : String → String
unfolding end_step
trim_end String.[] = String.[]
trim_end (String.◌∷◌ c s) = end_step c (trim_end s)

unfoldable pub trim : String → String
unfolding trim_start trim_end
trim s = trim_end (trim_start s)

-- The code units of a text.
abbrev pub codes : String → List ℕ
codes String.[] = []
codes (String.◌∷◌ c s) = code c ∷ codes s

pub codes_injective : (s t : String) → codes s ≡ codes t → s ≡ t
codes_injective String.[] String.[] h = refl
codes_injective String.[] (String.◌∷◌ d t) h = cc
codes_injective (String.◌∷◌ c s) String.[] h = cc
codes_injective (String.◌∷◌ c s) (String.◌∷◌ d t) h =
    let p : code c ≡ code d = cc in
    let q : codes s ≡ codes t = cc in cc (Char-path c d p, codes_injective s t q)

unfoldable pub code_lists_eq : List ℕ → List ℕ → Bool
code_lists_eq [] [] = true
code_lists_eq (x ∷ xs) (y ∷ ys) = nat_eq x y && code_lists_eq xs ys
code_lists_eq _ _ = false

pub code_lists_eq_iff : (xs ys : List ℕ) → (code_lists_eq xs ys ≡ true) ↔ (xs ≡ ys)
unfolding code_lists_eq
code_lists_eq_iff [] [] = (λ h. refl, λ h. refl)
code_lists_eq_iff [] (y ∷ ys) = (λ h. cc, λ h. cc)
code_lists_eq_iff (x ∷ xs) [] = (λ h. cc, λ h. cc)
code_lists_eq_iff (x ∷ xs) (y ∷ ys) =
    let ih = code_lists_eq_iff xs ys in (λ h. ground (arith, ih), λ h. ground (arith, ih))

instance abbrev pub Codes_eq : Eq (List ℕ)
Codes_eq = record { beq = code_lists_eq; beq_iff = code_lists_eq_iff }

-- Joins two texts, as a template string does.
infixr 65 ◌<>◌
abbrev pub ◌<>◌ : String → String → String
s <> t = s ++ t

-- `text ? a : b`: false on `undefined` and on the empty text.
abbrev pub is_truthy : Option String → Bool
is_truthy none = false
is_truthy (some String.[]) = false
is_truthy (some (String.◌∷◌ c s)) = true
