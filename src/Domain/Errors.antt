-- ===== src/Domain/Errors.antt =====
-- common/errors.ts: the error codes of the API, and results that carry one. The free text of an
-- error message is left out: the code is what clients and callers read.
use clickwrap.Prelude.{ℕ, ◌≡◌, refl, ◌⊎◌, inl, inr}

pub data ErrorCode : Type 0 where
  forbidden version_not_found version_immutable already_accepted : ErrorCode
  version_not_current change_summary_required consent_text_required : ErrorCode
  unknown_audience unknown_document_type document_type_external : ErrorCode
  document_type_not_external role_mismatch consent_text_mismatch : ErrorCode
  objection_not_applicable objection_period_expired customer_not_found : ErrorCode
  link_not_found rate_limited invalid_state : ErrorCode
  -- not codes, but the NotFoundException and the BadRequestException of NestJS
  not_found bad_request : ErrorCode

-- A call that returns, or throws a `DomainError`.
pub data Result {ℓ} (A : Type ℓ) : Type ℓ where
  ok : A → Result A
  err : ErrorCode → Result A

-- `HTTP_STATUS_BY_CODE`
pub http_status : ErrorCode → ℕ
http_status forbidden = 403
http_status version_not_found = 404
http_status customer_not_found = 404
http_status link_not_found = 404
http_status rate_limited = 429
http_status not_found = 404
http_status bad_request = 400
http_status version_immutable = 409
http_status already_accepted = 409
http_status _ = 422

infixl 5 ◌>>=◌ ◌>>◌
abbrev pub ◌>>=◌ {ℓ κ} : {A : Type ℓ} {B : Type κ} → Result A → (A → Result B) → Result B
err code >>= next = err code
ok a >>= next = next a

abbrev pub ◌>>◌ {κ} : {B : Type κ} → Result (Unit {0}) → Result B → Result B
first >> second = first >>= λ _. second

pub Result-cases {ℓ} :
    {A : Type ℓ} (r : Result A) → ((e : ErrorCode) × (r ≡ err e)) ⊎ ((a : A) × (r ≡ ok a))
Result-cases (ok a) = inr (a, refl)
Result-cases (err e) = inl (e, refl)

-- A chain that returned went through each of its parts.
pub >>=-eq-ok {ℓ κ} :
    {A : Type ℓ} {B : Type κ} (m : Result A) (f : A → Result B) (b : B)
    → (m >>= f) ≡ ok b
    → (a : A) × (m ≡ ok a) × (f a ≡ ok b)
>>=-eq-ok (ok a) f b h = (a, refl, h)
>>=-eq-ok (err e) f b h = cc

pub >>-eq-ok {ℓ} :
    {B : Type ℓ} (m : Result (Unit {0})) (k : Result B) (b : B)
    → (m >> k) ≡ ok b
    → (m ≡ ok tt) × (k ≡ ok b)
>>-eq-ok (ok a) k b h = (refl, h)
>>-eq-ok (err e) k b h = cc
