-- ===== src/Prelude/Dict/Distinct.antt =====
-- Uniqueness constraints: values that pairwise do not clash, and writes that keep it so.
use mathlib.Core.Path.{◌≡◌, refl, ap, ◌∙◌}
use mathlib.Core.Logic.{inl, inr}
use mathlib.Core.Bool.{Bool, true, false}
use mathlib.Core.Option.{some}
use mathlib.Core.List.{[], ◌∷◌}
use native.Mathlib.Omega.{arith}
use clickwrap.Prelude.Tests.{Eq, ◌==◌, Bool-cases, String_eq}
use Prim.Native.String.{String}
use clickwrap.Prelude.Lists.{All, In}
use clickwrap.Prelude.Dict.{Dict, values, get, set, delete, has, IsKeyed, set-IsKeyed}

abbrev pub IsApart {ℓ} : {V : Type ℓ} → (V → V → Bool) → V → V → Type 0
IsApart clash v w = (clash v w ≡ false) × (clash w v ≡ false)

module _ {ℓ κ} {K : Type ℓ} {V : Type κ} ⦃e : Eq K⦄ where
  has-false : (d : Dict K V) (k : K) → has d k ≡ false → All (λ x. (x.0 == k) ≡ false) d
  unfolding get
  has-false [] k h = tt
  has-false ((j, w) ∷ d) k h = elim (Bool-cases (j == k)) [
    | inl t ↦ ground arith
    | inr f ↦ (f, has-false d k (ground arith))
  ]

  module _ (clash : V → V → Bool) where
    -- No two entries clash.
    abbrev pub IsDistinct : Dict K V → Type 0
    IsDistinct [] = Unit
    IsDistinct ((k, v) ∷ d) = All (λ x. IsApart clash v x.1) d × IsDistinct d

    -- `v` may be written under `k`: it clashes with nothing that stands under another key.
    abbrev pub IsWritable : Dict K V → K → V → Type 0
    IsWritable d k v = All (λ x. (x.0 == k) ≡ false → IsApart clash v x.1) d

    All-set :
        (d : Dict K V) (k : K) (v w : V)
        → IsApart clash w v
        → All (λ x. IsApart clash w x.1) d
        → All (λ x. IsApart clash w x.1) (set d k v)
    unfolding set
    All-set [] k v w p h = (p, tt)
    All-set ((j, u) ∷ d) k v w p h = elim (Bool-cases (j == k)) [
      | inl t ↦ rw t (p, h.1)
      | inr f ↦ rw f (h.0, All-set d k v w p h.1)
    ]

    -- The tail of an entry that is overwritten stands under other keys.
    IsApart-of_tail :
        (d : Dict K V) (k : K) (v : V)
        → All (λ x. (x.0 == k) ≡ false) d
        → IsWritable d k v
        → All (λ x. IsApart clash v x.1) d
    IsApart-of_tail [] k v n h = tt
    IsApart-of_tail (x ∷ d) k v n h = (h.0 n.0, IsApart-of_tail d k v n.1 h.1)

    -- Writing what may be written keeps the entries apart.
    pub set-IsDistinct :
        (d : Dict K V) (k : K) (v : V)
        → IsKeyed d
        → IsWritable d k v
        → IsDistinct d
        → IsDistinct (set d k v)
    unfolding set
    set-IsDistinct [] k v u h g = (tt, tt)
    set-IsDistinct ((j, w) ∷ d) k v u h g = elim (Bool-cases (j == k)) [
      | inl t ↦
          let same : j ≡ k = (e.beq_iff j k).0 t in
          rw t (IsApart-of_tail d k v (has-false d k (rw same at (u.0))) h.1, g.1)
      | inr f ↦
          rw f (All-set d k v w (let p = h.0 f in (p.1, p.0)) g.0, set-IsDistinct d k v u.1 h.1 g.1)
    ]

    All-delete :
        (d : Dict K V) (k : K) (w : V)
        → All (λ x. IsApart clash w x.1) d
        → All (λ x. IsApart clash w x.1) (delete d k)
    unfolding delete
    All-delete [] k w h = tt
    All-delete ((j, u) ∷ d) k w h = elim (Bool-cases (j == k)) [
      | inl t ↦ rw t (h.1)
      | inr f ↦ rw f (h.0, All-delete d k w h.1)
    ]

    pub delete-IsDistinct : (d : Dict K V) (k : K) → IsDistinct d → IsDistinct (delete d k)
    unfolding delete
    delete-IsDistinct [] k g = tt
    delete-IsDistinct ((j, w) ∷ d) k g = elim (Bool-cases (j == k)) [
      | inl t ↦ rw t (g.1)
      | inr f ↦ rw f (All-delete d k w g.0, delete-IsDistinct d k g.1)
    ]

  has-delete : (d : Dict K V) (k j : K) → has d j ≡ false → has (delete d k) j ≡ false
  unfolding delete get
  has-delete [] k j h = h
  has-delete ((i, w) ∷ d) k j h = ground (arith, has-delete d k j)

  delete-IsKeyed : (d : Dict K V) (k : K) → IsKeyed d → IsKeyed (delete d k)
  unfolding delete get
  delete-IsKeyed [] k h = tt
  delete-IsKeyed ((j, w) ∷ d) k h = elim (Bool-cases (j == k)) [
    | inl t ↦ rw t (h.1)
    | inr f ↦ rw f (has-delete d k j h.0, delete-IsKeyed d k h.1)
  ]

-- A repository's rows, each under its own id.
module _ {ℓ κ} {K : Type ℓ} {V : Type κ} ⦃e : Eq K⦄ (id_of : V → K) where
  abbrev pub IsById : Dict K V → Type ℓ
  IsById d = All (λ x. x.0 ≡ id_of x.1) d

  pub set-IsById : (d : Dict K V) (v : V) → IsById d → IsById (set d (id_of v) v)
  unfolding set
  set-IsById [] v h = (refl, tt)
  set-IsById ((j, w) ∷ d) v h = elim (Bool-cases (j == id_of v)) [
    | inl t ↦ rw t ((e.beq_iff j (id_of v)).0 t, h.1)
    | inr f ↦ rw f (h.0, set-IsById d v h.1)
  ]

  pub delete-IsById : (d : Dict K V) (k : K) → IsById d → IsById (delete d k)
  unfolding delete
  delete-IsById [] k h = tt
  delete-IsById ((j, w) ∷ d) k h = elim (Bool-cases (j == k)) [
    | inl t ↦ rw t (h.1)
    | inr f ↦ rw f (h.0, delete-IsById d k h.1)
  ]

  -- Ids are unique, each row stands under its id, and no two rows clash.
  pub record IsTable (clash : V → V → Bool) (d : Dict K V) : Type ℓ where
    pub keyed : IsKeyed d
    pub by_id : IsById d
    pub distinct : IsDistinct clash d

  pub set-IsTable :
      (clash : V → V → Bool) (d : Dict K V) (v : V)
      → IsTable clash d
      → IsWritable clash d (id_of v) v
      → IsTable clash (set d (id_of v) v)
  set-IsTable clash d v t w = record {
    keyed = set-IsKeyed d (id_of v) v t.keyed;
    by_id = set-IsById d v t.by_id;
    distinct = set-IsDistinct clash d (id_of v) v t.keyed w t.distinct;
  }

  pub delete-IsTable :
      (clash : V → V → Bool) (d : Dict K V) (k : K) → IsTable clash d → IsTable clash (delete d k)
  delete-IsTable clash d k t = record {
    keyed = delete-IsKeyed d k t.keyed;
    by_id = delete-IsById d k t.by_id;
    distinct = delete-IsDistinct clash d k t.distinct;
  }

  pub get-IsById : (d : Dict K V) (k : K) {v : V} → IsById d → get d k ≡ some v → k ≡ id_of v
  unfolding get
  get-IsById [] k h g = cc
  get-IsById ((j, w) ∷ d) k h g = elim (Bool-cases (j == k)) [
    | inl t ↦ ground (arith, e.beq_iff j k)
    | inr f ↦ get-IsById d k h.1 (ground arith)
  ]

module _ {V : Type 0} where
  -- A row that stands under its id is found there.
  pub In-get :
      (id_of : V → String) (d : Dict String V) {a : V}
      → IsKeyed d
      → IsById id_of d
      → In a (values d)
      → get d (id_of a) ≡ some a
  unfolding get
  In-get id_of [] keyed ids m = elim m [ ]
  In-get id_of ((j, v) ∷ d) {a} keyed ids (inl e) =
      let same : (j == id_of a) ≡ true = (String_eq.beq_iff j (id_of a)).1 (ids.0 ∙ ap id_of e) in
      rw same (ap some e)
  In-get id_of ((j, v) ∷ d) {a} keyed ids (inr m) =
      let found = In-get id_of d keyed.1 ids.1 m in
      elim (Bool-cases (j == id_of a)) [
        | inl t ↦ ground (arith, String_eq.beq_iff j (id_of a))
        | inr f ↦ rw f found
      ]
