-- ===== src/Prelude/Lists.antt =====
-- The array methods that the source uses, with their laws: includes, some, every, find, filter.
use Prim.Native.Nat.{ℕ, zero, suc}
use mathlib.Core.Path.{◌≡◌, refl}
use mathlib.Core.Logic.{◌⊎◌, inl, inr}
use mathlib.Core.Bool.{Bool, true, false, ◌&&◌, ◌||◌}
use mathlib.Core.Option.{Option, none, some}
use mathlib.Core.List.{List, [], ◌∷◌, ◌++◌}
use native.Mathlib.Omega.{arith}
use clickwrap.Prelude.Tests.{if◌then◌else◌, Eq, ◌==◌, Bool-cases}

-- No position in the empty list, at any level.
pub data Absent {ℓ} : Type ℓ where

module _ {ℓ} {A : Type ℓ} where
  abbrev pub length : List A → ℕ
  length [] = 0
  length (x ∷ xs) = suc (length xs)

  abbrev pub any : (A → Bool) → List A → Bool
  any p [] = false
  any p (x ∷ xs) = p x || any p xs

  abbrev pub all : (A → Bool) → List A → Bool
  all p [] = true
  all p (x ∷ xs) = p x && all p xs

  -- `find`: the first match.
  unfoldable pub find : (A → Bool) → List A → Option A
  find p [] = none
  find p (x ∷ xs) = if p x then some x else find p xs

  unfoldable pub keep : (A → Bool) → List A → List A
  keep p [] = []
  keep p (x ∷ xs) = if p x then x ∷ keep p xs else keep p xs

  -- `array[0]`
  abbrev pub first : List A → Option A
  first [] = none
  first (x ∷ xs) = some x

  abbrev pub take : ℕ → List A → List A
  take zero xs = []
  take (suc n) [] = []
  take (suc n) (x ∷ xs) = x ∷ take n xs

  -- Membership, with the position kept.
  abbrev pub In : A → List A → Type ℓ
  In a [] = Absent
  In a (x ∷ xs) = (x ≡ a) ⊎ In a xs

  abbrev pub All {κ} : (A → Type κ) → List A → Type κ
  All P [] = Unit
  All P (x ∷ xs) = P x × All P xs

  pub All-at {κ} : (P : A → Type κ) {a : A} (xs : List A) → All P xs → In a xs → P a
  All-at P [] h m = elim m [ ]
  All-at P (x ∷ xs) h (inl e) = rw e at (h.0)
  All-at P (x ∷ xs) h (inr m) = All-at P xs h.1 m

  pub All-of {κ} : (P : A → Type κ) (xs : List A) → ((a : A) → In a xs → P a) → All P xs
  All-of P [] h = tt
  All-of P (x ∷ xs) h = (h x (inl refl), All-of P xs (λ a m. h a (inr m)))

  pub find-In : (p : A → Bool) (xs : List A) {a : A} → find p xs ≡ some a → In a xs × (p a ≡ true)
  unfolding find
  find-In p [] h = cc
  find-In p (x ∷ xs) h = elim (Bool-cases (p x)) [
    | inl e ↦ (inl (ground arith), ground arith)
    | inr e ↦ let (m, q) = find-In p xs (ground arith) in (inr m, q)
  ]

  -- Where nothing is found, nothing matches.
  pub find-none : (p : A → Bool) (xs : List A) {a : A} → find p xs ≡ none → In a xs → p a ≡ false
  unfolding find
  find-none p [] h m = elim m [ ]
  find-none p (x ∷ xs) h (inl e) = ground arith
  find-none p (x ∷ xs) h (inr m) = find-none p xs (ground arith) m

  pub find-append :
      (p : A → Bool) (xs ys : List A)
      → find p (xs ++ ys) ≡ (elim (find p xs) [ none ↦ find p ys | some a ↦ some a ])
  unfolding find
  find-append p [] ys = refl
  find-append p (x ∷ xs) ys = ground (arith, find-append p xs ys)

  pub In-keep : (p : A → Bool) (xs : List A) {a : A} → In a xs → p a ≡ true → In a (keep p xs)
  unfolding keep
  In-keep p [] m h = elim m [ ]
  In-keep p (x ∷ xs) (inl e) h = let t : p x ≡ true = rw e h in rw t (inl e)
  In-keep p (x ∷ xs) (inr m) h = elim (Bool-cases (p x)) [
    | inl t ↦ rw t (inr (In-keep p xs m h))
    | inr f ↦ rw f (In-keep p xs m h)
  ]

  keep-In_step :
      (p : A → Bool) (x : A) (xs ys : List A) (b : Bool) {a : A}
      → p x ≡ b
      → (In a ys → In a xs × (p a ≡ true))
      → In a (if b then x ∷ ys else ys)
      → In a (x ∷ xs) × (p a ≡ true)
  keep-In_step p x xs ys true t ih (inl e) = (inl e, rw (← e) t)
  keep-In_step p x xs ys true t ih (inr m) = (inr (ih m).0, (ih m).1)
  keep-In_step p x xs ys false f ih m = (inr (ih m).0, (ih m).1)

  pub keep-In : (p : A → Bool) (xs : List A) {a : A} → In a (keep p xs) → In a xs × (p a ≡ true)
  unfolding keep
  keep-In p [] m = elim m [ ]
  keep-In p (x ∷ xs) m = keep-In_step p x xs (keep p xs) (p x) refl (keep-In p xs) m

  pub any-false : (p : A → Bool) (xs : List A) {a : A} → any p xs ≡ false → In a xs → p a ≡ false
  any-false p [] h m = elim m [ ]
  any-false p (x ∷ xs) h (inl e) = ground arith
  any-false p (x ∷ xs) h (inr m) = any-false p xs (ground arith) m

module _ {ℓ} {A : Type ℓ} ⦃e : Eq A⦄ where
  unfoldable pub includes : List A → A → Bool
  includes [] a = false
  includes (x ∷ xs) a = x == a || includes xs a

  -- Of the elements equal to `k`, those equal to `a`.
  pub includes-keep_eq :
      (k a : A) (xs : List A) → includes (keep (λ x. x == k) xs) a ≡ (includes xs a && a == k)
  unfolding keep includes
  includes-keep_eq k a [] = refl
  includes-keep_eq k a (x ∷ xs) =
      ground (arith, includes-keep_eq k a xs, e.beq_iff x k, e.beq_iff x a, e.beq_iff a k)

  pub includes-In : (xs : List A) (a : A) → includes xs a ≡ true → In a xs
  unfolding includes
  includes-In [] a h = cc
  includes-In (x ∷ xs) a h = elim (Bool-cases (x == a)) [
    | inl t ↦ inl ((e.beq_iff x a).0 t)
    | inr f ↦ inr (includes-In xs a (ground arith))
  ]
