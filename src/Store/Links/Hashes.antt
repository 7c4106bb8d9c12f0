-- ===== src/Store/Links/Hashes.antt =====
-- New links and the hashes of their tokens.
use clickwrap.Prelude.{
  ◌≡◌, refl, Bool, true, false, some, [], ◌∷◌, String, String_eq, ◌==◌, inl, inr, arith, find, any,
  Bool-cases,
}
use clickwrap.Prelude.Dict.{values, get, set, has}
use clickwrap.Domain.Errors.{ErrorCode, ok, err, invalid_state}
use clickwrap.Domain.Types.{AcceptanceLink}
use clickwrap.Store.Links.{Links, create, find_by_token_hash}

find-set_new :
    (p : AcceptanceLink → Bool) (d : Links) (k : String) (v : AcceptanceLink)
    → has d k ≡ false
    → any p (values d) ≡ false
    → p v ≡ true
    → find p (values (set d k v)) ≡ some v
unfolding find get set
find-set_new p [] k v h n t = ground arith
find-set_new p ((i, w) ∷ d) k v h n t = ground (arith, find-set_new p d k v)

pub create-find_by_token_hash :
    (links links' : Links) (link : AcceptanceLink)
    → create links link ≡ ok links'
    → find_by_token_hash links' link.token_hash ≡ some link
unfolding create find_by_token_hash
create-find_by_token_hash links links' link h =
    let same = λ (existing : AcceptanceLink). existing.token_hash == link.token_hash in
    elim (Bool-cases (has links link.id)) [
      | inl t ↦ ground arith
      | inr f ↦ elim (Bool-cases (any same (values links))) [
        | inl t ↦ ground arith
        | inr n ↦
            let p : set links link.id link ≡ links' = ground arith in
            rw (← p) (
              find-set_new same links link.id link f n
                ((String_eq.beq_iff link.token_hash link.token_hash).1 refl))
      ]
    ]

pub create-err :
    (links : Links) (link : AcceptanceLink) (code : ErrorCode)
    → create links link ≡ err code
    → code ≡ invalid_state
unfolding create
create-err links link code h = ground arith
