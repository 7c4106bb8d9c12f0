-- ===== src/Prelude/Dict.antt =====
-- `Map` and plain objects as dictionaries: entries in insertion order; writing an existing key keeps
-- its place, and a new key goes to the end.
pub mod Distinct
use mathlib.Core.Path.{◌≡◌, refl}
use mathlib.Core.Logic.{inl, inr}
use mathlib.Core.Bool.{Bool, false}
use mathlib.Core.Option.{Option, none, some}
use mathlib.Core.List.{List, [], ◌∷◌}
use native.Mathlib.Omega.{arith}
use clickwrap.Prelude.Tests.{if◌then◌else◌, Eq, ◌==◌, Bool-cases, is_some}
use clickwrap.Prelude.Lists.{All, In}

abbrev pub Dict {ℓ κ} : Type ℓ → Type κ → Type (ℓ ⊔ κ)
Dict K V = List (K × V)

abbrev pub values {ℓ κ} : {K : Type ℓ} {V : Type κ} → Dict K V → List V
values [] = []
values ((k, v) ∷ d) = v ∷ values d

module _ {ℓ κ} {K : Type ℓ} {V : Type κ} ⦃e : Eq K⦄ where
  unfoldable pub get : Dict K V → K → Option V
  get [] k = none
  get ((j, v) ∷ d) k = if j == k then some v else get d k

  unfoldable pub set : Dict K V → K → V → Dict K V
  set [] k v = (k, v) ∷ []
  set ((j, w) ∷ d) k v = if j == k then (j, v) ∷ d else (j, w) ∷ set d k v

  unfoldable pub delete : Dict K V → K → Dict K V
  delete [] k = []
  delete ((j, v) ∷ d) k = if j == k then d else (j, v) ∷ delete d k

  abbrev pub has : Dict K V → K → Bool
  has d k = is_some (get d k)

  -- No key stands twice.
  abbrev pub IsKeyed : Dict K V → Type 0
  IsKeyed [] = Unit
  IsKeyed ((k, v) ∷ d) = (has d k ≡ false) × IsKeyed d

  pub get-set :
      (d : Dict K V) (k j : K) (v : V) → get (set d k v) j ≡ (if k == j then some v else get d j)
  unfolding get set
  get-set [] k j v = refl
  get-set ((i, w) ∷ d) k j v =
      ground (arith, e.beq_iff i k, e.beq_iff i j, e.beq_iff k j, get-set d k j v)

  pub get-set_self : (d : Dict K V) (k : K) (v : V) → get (set d k v) k ≡ some v
  get-set_self d k v = ground (arith, get-set d k k v, e.beq_iff k k)

  pub delete-set : (d : Dict K V) (k : K) (v : V) → has d k ≡ false → delete (set d k v) k ≡ d
  unfolding get set delete
  delete-set [] k v h = ground (arith, e.beq_iff k k)
  delete-set ((i, w) ∷ d) k v h = ground (arith, delete-set d k v)

  pub set-IsKeyed : (d : Dict K V) (k : K) (v : V) → IsKeyed d → IsKeyed (set d k v)
  unfolding get set
  set-IsKeyed [] k v h = (refl, tt)
  set-IsKeyed ((i, w) ∷ d) k v h = elim (Bool-cases (i == k)) [
    | inl t ↦ rw t h
    | inr f ↦
        rw f (
          ground (arith, get-set d k i v, e.beq_iff i k, e.beq_iff k i, h.0),
          set-IsKeyed d k v h.1,
        )
  ]

  -- Every value after a write is the one written or one from before.
  pub set-All {μ} :
      (P : V → Type μ) (d : Dict K V) (k : K) (v : V)
      → P v
      → All P (values d)
      → All P (values (set d k v))
  unfolding set
  set-All P [] k v p h = (p, tt)
  set-All P ((i, w) ∷ d) k v p h = elim (Bool-cases (i == k)) [
    | inl t ↦ rw t (p, h.1)
    | inr f ↦ rw f (h.0, set-All P d k v p h.1)
  ]

  pub get-In : (d : Dict K V) (k : K) {v : V} → get d k ≡ some v → In v (values d)
  unfolding get
  get-In [] k h = cc
  get-In ((i, w) ∷ d) k h = elim (Bool-cases (i == k)) [
    | inl t ↦ inl (ground arith)
    | inr f ↦ inr (get-In d k (ground arith))
  ]
