-- ===== src/Onboarding/Rollout/Kept.antt =====
-- The rows of the store after one more is saved.
use clickwrap.Prelude.{
  ◌≡◌, refl, ◌∙◌, ap, sym, inl, inr, Bool, true, false, String, String_eq, ◌==◌, [], ◌∷◌, arith,
  find, is_some, Bool-cases, Option-cases, ◌⊎◌, none,
}
use clickwrap.Prelude.Dict.{values, get, set, has, get-set}
use clickwrap.Domain.Types.{CustomerVersionState}
use clickwrap.Store.States

pub find-set_kept :
    (p : CustomerVersionState → Bool) (d : States.States) (k : String) (x : CustomerVersionState)
    → has d k ≡ false
    → is_some (find p (values d)) ≡ true
    → is_some (find p (values (set d k x))) ≡ true
unfolding find get set
find-set_kept p [] k x f h = ground arith
find-set_kept p ((i, u) ∷ d) k x f h = ground (arith, find-set_kept p d k x)

pub find-set_new :
    (p : CustomerVersionState → Bool) (d : States.States) (k : String) (x : CustomerVersionState)
    → p x ≡ true
    → is_some (find p (values (set d k x))) ≡ true
unfolding find set
find-set_new p [] k x h = ground arith
find-set_new p ((i, u) ∷ d) k x h = ground (arith, find-set_new p d k x h)

-- A row that was under `id` is there unchanged.
abbrev pub IsLeft : String → (d d' : States.States) → Type 0
IsLeft id d d' = (get d id ≡ none) ⊎ (get d' id ≡ get d id)

pub IsLeft-after :
    (id : String) (a b c : States.States) → IsLeft id a b → IsLeft id b c → IsLeft id a c
IsLeft-after id a b c (inl e) q = inl e
IsLeft-after id a b c (inr e) (inl f) = inl (sym e ∙ f)
IsLeft-after id a b c (inr e) (inr f) = inr (f ∙ e)

pub set-IsLeft :
    (d : States.States) (k id : String) (x : CustomerVersionState)
    → has d k ≡ false
    → IsLeft id d (set d k x)
set-IsLeft d k id x f = elim (Bool-cases (k == id)) [
  | inl t ↦ elim (Option-cases (get d k)) [
    | inl e ↦ inl (ap (get d) (sym ((String_eq.beq_iff k id).0 t)) ∙ e)
    | inr (y, e) ↦ absurd (ground (arith, f, e))
  ]
  | inr n ↦ inr (get-set d k id x ∙ (rw n refl))
]
