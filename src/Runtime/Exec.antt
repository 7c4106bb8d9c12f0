-- ===== src/Runtime/Exec.antt =====
-- Calls that read and write the state and may throw.
use clickwrap.Prelude.{ℕ, ◌+◌, ◌≡◌, refl, ap, ◌∙◌, String, Option, none, some, List, [], ◌∷◌, ◌<>◌}
use clickwrap.Domain.Errors.{ErrorCode, Result, ok, err}
use clickwrap.Runtime.Shared.{World, Env}

abbrev pub Exec {ℓ} : Type ℓ → Type ℓ
Exec A = World → Result A × World

abbrev pub pure {ℓ} : {A : Type ℓ} → A → Exec A
pure a w = (ok a, w)

abbrev pub throw {ℓ} : {A : Type ℓ} → ErrorCode → Exec A
throw code w = (err code, w)

abbrev pub lift {ℓ} : {A : Type ℓ} → Result A → Exec A
lift r w = (r, w)

abbrev pub gets {ℓ} : {A : Type ℓ} → (World → A) → Exec A
gets f w = (ok (f w), w)

abbrev pub modify : (World → World) → Exec (Unit {0})
modify f w = (ok tt, f w)

-- `if (!value) throw new DomainError(code)`, and the value otherwise.
abbrev pub found {ℓ} : {A : Type ℓ} → Option A → ErrorCode → Exec A
found none code w = (err code, w)
found (some a) code w = (ok a, w)

-- A repository's read, with the error for a missing row.
abbrev pub fetch {ℓ} : {A : Type ℓ} → (World → Option A) → ErrorCode → Exec A
fetch f code w = found (f w) code w

-- A computation on what is stored, which writes nothing.
abbrev pub query {ℓ} : {A : Type ℓ} → (World → Result A) → Exec A
query f w = (f w, w)

abbrev pub continue {ℓ κ} :
    {A : Type ℓ} {B : Type κ} → Result A → (A → Exec B) → World → Result B × World
continue (ok a) f w = f a w
continue (err code) f w = (err code, w)

infixl 5 ◌>>=◌ ◌>>◌
abbrev pub ◌>>=◌ {ℓ κ} : {A : Type ℓ} {B : Type κ} → Exec A → (A → Exec B) → Exec B
◌>>=◌ m f w = continue (m w).0 f (m w).1

abbrev pub ◌>>◌ {κ} : {B : Type κ} → Exec (Unit {0}) → Exec B → Exec B
m >> k = m >>= λ _. k

continue-ok {ℓ κ} :
    {A : Type ℓ} {B : Type κ} (r : Result A) (f : A → Exec B) (w1 w' : World) (b : B)
    → continue r f w1 ≡ (ok b, w')
    → (a : A) × (r ≡ ok a) × (f a w1 ≡ (ok b, w'))
continue-ok (ok a) f w1 w' b h = (a, refl, h)
continue-ok (err c) f w1 w' b h = cc

-- A call that returned went through each of its parts.
pub bind-ok {ℓ κ} :
    {A : Type ℓ} {B : Type κ} (m : Exec A) (f : A → Exec B) (w w' : World) (b : B)
    → (m >>= f) w ≡ (ok b, w')
    → (a : A) × ((m w).0 ≡ ok a) × (f a (m w).1 ≡ (ok b, w'))
bind-ok m f w w' b h = continue-ok (m w).0 f (m w).1 w' b h

found-ok {ℓ κ} :
    {A : Type ℓ} {B : Type κ} (o : Option A) (code : ErrorCode) (g : A → Exec B) (w w' : World)
    (b : B)
    → (found o code >>= g) w ≡ (ok b, w')
    → (a : A) × (o ≡ some a) × (g a w ≡ (ok b, w'))
found-ok none code g w w' b h = cc
found-ok (some a) code g w w' b h = (a, refl, h)

-- A call that read a row and returned has found it, and went on without a change.
pub fetch-ok {ℓ κ} :
    {A : Type ℓ} {B : Type κ} (f : World → Option A) (code : ErrorCode) (g : A → Exec B)
    (w w' : World) (b : B)
    → (fetch f code >>= g) w ≡ (ok b, w')
    → (a : A) × (f w ≡ some a) × (g a w ≡ (ok b, w'))
fetch-ok f code g w w' b h = found-ok (f w) code g w w' b h

-- A call whose first part returns goes on with the rest.
pub bind-through {ℓ κ} :
    {A : Type ℓ} {B : Type κ} (m : Exec A) (f : A → Exec B) (w w1 : World) (a : A)
    (r : Result B × World)
    → m w ≡ (ok a, w1)
    → f a w1 ≡ r
    → (m >>= f) w ≡ r
bind-through m f w w1 a r p q = ap (λ x. continue x.0 f x.1) p ∙ q

continue-keeps {ℓ κ μ} :
    {A : Type ℓ} {B : Type κ} (P : World → Type μ) (r : Result A) (f : A → Exec B) (w : World)
    → P w
    → ((a : A) → P (f a w).1)
    → P (continue r f w).1
continue-keeps P (ok a) f w p k = k a
continue-keeps P (err c) f w p k = p

-- What each part of a call keeps, the call keeps.
pub bind-keeps {ℓ κ μ} :
    {A : Type ℓ} {B : Type κ} (P : World → Type μ) (m : Exec A) (f : A → Exec B) (w : World)
    → P (m w).1
    → ((a : A) → P (f a (m w).1).1)
    → P ((m >>= f) w).1
bind-keeps P m f w p k = continue-keeps P (m w).0 f (m w).1 p k

-- `try { return m } catch (err) { handler; throw err }`
abbrev pub rethrow_after {ℓ} :
    {A : Type ℓ} → Result A × World → (ErrorCode → World → World) → Result A × World
rethrow_after (ok a, w) handler = (ok a, w)
rethrow_after (err code, w) handler = (err code, handler code w)

abbrev pub on_error {ℓ} : {A : Type ℓ} → Exec A → (ErrorCode → World → World) → Exec A
on_error m handler w = rethrow_after (m w) handler

-- A loop over a list that was read before it.
unfoldable pub for_each {ℓ} : {A : Type ℓ} → List A → (A → Exec (Unit {0})) → Exec (Unit {0})
for_each [] body = pure tt
for_each (x ∷ xs) body = body x >> for_each xs body

-- A loop whose body is in a `try` that logs the error and goes on.
unfoldable pub for_each_isolated {ℓ} :
    {A : Type ℓ} → List A → (A → Exec (Unit {0})) → Exec (Unit {0})
for_each_isolated [] body w = (ok tt, w)
for_each_isolated (x ∷ xs) body w = for_each_isolated xs body (body x w).1

module _ (env : Env) where
  unfoldable pub now : Exec ℕ
  now w = (ok (env.clock w.ticks), record w { ticks = w.ticks + 1 })

  -- `newId(prefix)`, and `ids.next(prefix)` of UuidIdGenerator
  unfoldable pub new_id : String → Exec String
  new_id prefix w = (ok (prefix <> "-" <> env.uuid w.minted), record w { minted = w.minted + 1 })
