-- ===== src/Prelude/Sort.antt =====
-- `Array.prototype.sort` as a stable insertion sort, over the test `comparator(a, b) <= 0`.
use mathlib.Core.Path.{◌≡◌, refl, ap, ◌∙◌}
use mathlib.Core.Bool.{Bool, true, false}
use mathlib.Core.Logic.{inl, inr}
use mathlib.Core.List.{List, [], ◌∷◌}
use clickwrap.Prelude.Tests.{if◌then◌else◌, Bool-cases}
use clickwrap.Prelude.Lists.{All, All-of, All-at, In, length}
use Prim.Native.Nat.{suc}

module _ {ℓ} {A : Type ℓ} (le : A → A → Bool) where
  unfoldable pub insert : A → List A → List A
  insert x [] = x ∷ []
  insert x (y ∷ ys) = if le x y then x ∷ y ∷ ys else y ∷ insert x ys

  unfoldable pub sort : List A → List A
  unfolding insert
  sort [] = []
  sort (x ∷ xs) = insert x (sort xs)

  insert-In_step :
      (x y : A) (ys zs : List A) (b : Bool) {a : A}
      → (In a zs → In a (x ∷ ys))
      → In a (if b then x ∷ y ∷ ys else y ∷ zs)
      → In a (x ∷ y ∷ ys)
  insert-In_step x y ys zs true ih m = m
  insert-In_step x y ys zs false ih (inl e) = inr (inl e)
  insert-In_step x y ys zs false ih (inr m) = elim (ih m) [ inl e ↦ inl e | inr n ↦ inr (inr n) ]

  insert-In : (x : A) (ys : List A) {a : A} → In a (insert x ys) → In a (x ∷ ys)
  unfolding insert
  insert-In x [] m = m
  insert-In x (y ∷ ys) m = insert-In_step x y ys (insert x ys) (le x y) (insert-In x ys) m

  In-insert_step :
      (x y : A) (ys zs : List A) (b : Bool) {a : A}
      → (In a (x ∷ ys) → In a zs)
      → In a (x ∷ y ∷ ys)
      → In a (if b then x ∷ y ∷ ys else y ∷ zs)
  In-insert_step x y ys zs true ih m = m
  In-insert_step x y ys zs false ih (inl e) = inr (ih (inl e))
  In-insert_step x y ys zs false ih (inr (inl e)) = inl e
  In-insert_step x y ys zs false ih (inr (inr m)) = inr (ih (inr m))

  In-insert : (x : A) (ys : List A) {a : A} → In a (x ∷ ys) → In a (insert x ys)
  unfolding insert
  In-insert x [] m = m
  In-insert x (y ∷ ys) m = In-insert_step x y ys (insert x ys) (le x y) (In-insert x ys) m

  pub sort-In : (xs : List A) (a : A) → In a (sort xs) → In a xs
  unfolding sort
  sort-In [] a m = m
  sort-In (x ∷ xs) a m = elim (insert-In x (sort xs) m) [
    | inl e ↦ inl e
    | inr n ↦ inr (sort-In xs a n)
  ]

  pub In-sort : (xs : List A) (a : A) → In a xs → In a (sort xs)
  unfolding sort
  In-sort [] a m = m
  In-sort (x ∷ xs) a (inl e) = In-insert x (sort xs) (inl e)
  In-sort (x ∷ xs) a (inr m) = In-insert x (sort xs) (inr (In-sort xs a m))

  length-insert : (x : A) (ys : List A) → length (insert x ys) ≡ suc (length ys)
  unfolding insert
  length-insert x [] = refl
  length-insert x (y ∷ ys) = elim (Bool-cases (le x y)) [
    | inl t ↦ rw t refl
    | inr f ↦ rw f (ap suc (length-insert x ys))
  ]

  pub length-sort : (xs : List A) → length (sort xs) ≡ length xs
  unfolding sort
  length-sort [] = refl
  length-sort (x ∷ xs) = length-insert x (sort xs) ∙ ap suc (length-sort xs)

  -- The head of a list is at most each of its elements.
  abbrev pub IsLeast : A → List A → Type 0
  IsLeast x xs = All (λ y. le x y ≡ true) xs

  abbrev pub IsSorted : List A → Type 0
  IsSorted [] = Unit
  IsSorted (x ∷ xs) = IsLeast x xs × IsSorted xs

  module _ (total : (x y : A) → le x y ≡ false → le y x ≡ true)
      (transitive : (x y z : A) → le x y ≡ true → le y z ≡ true → le x z ≡ true) where
    IsLeast-mono : (x y : A) (ys : List A) → le x y ≡ true → IsLeast y ys → IsLeast x ys
    IsLeast-mono x y [] h k = tt
    IsLeast-mono x y (z ∷ zs) h k = (transitive x y z h k.0, IsLeast-mono x y zs h k.1)

    insert-IsLeast :
        (x y : A) (ys : List A) → le y x ≡ true → IsLeast y ys → IsLeast y (insert x ys)
    insert-IsLeast x y ys h k =
        All-of (λ z. le y z ≡ true) (insert x ys)
          λ z m. elim (insert-In x ys m) [
            | inl e ↦ rw (← e) h
            | inr n ↦ All-at (λ w. le y w ≡ true) ys k n
          ]

    insert-IsSorted : (x : A) (ys : List A) → IsSorted ys → IsSorted (insert x ys)
    unfolding insert
    insert-IsSorted x [] s = (tt, tt)
    insert-IsSorted x (y ∷ ys) s = elim (Bool-cases (le x y)) [
      | inl t ↦ rw t ((t, IsLeast-mono x y ys t s.0), s)
      | inr f ↦ rw f (insert-IsLeast x y ys (total x y f) s.0, insert-IsSorted x ys s.1)
    ]

    pub sort-IsSorted : (xs : List A) → IsSorted (sort xs)
    unfolding sort
    sort-IsSorted [] = tt
    sort-IsSorted (x ∷ xs) = insert-IsSorted x (sort xs) (sort-IsSorted xs)
