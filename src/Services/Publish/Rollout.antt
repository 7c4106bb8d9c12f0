-- ===== src/Services/Publish/Rollout.antt =====
-- What a publication does to the rows of its predecessors, and that it goes through.
use clickwrap.Prelude.{
  ◌≡◌, refl, String, Bool, true, false, ◌||◌, ◌&&◌, List, [], ◌∷◌, arith, String_eq, any, All,
  includes, ◌==◌,
}
use clickwrap.Prelude.Dict.{get-set}
use clickwrap.Domain.Errors.{ok}
use clickwrap.Domain.Types.{
  StateValue_eq, VersionStatus_eq, expired_blocking, superseded, CustomerVersionState,
}
use clickwrap.Domain.Lifecycle
use clickwrap.Store.States
use clickwrap.Runtime.{World}
use clickwrap.Services.Publish.{Blocking, is_carried, supersede_open, mark}

abbrev pub IsOpen : CustomerVersionState → Type 0
IsOpen s = includes States.open_states s.state ≡ true

-- The row of a replaced version, and the store in which all of a list are.
abbrev pub superseded_of : CustomerVersionState → CustomerVersionState
superseded_of s = record s { state = superseded }

pub all_superseded : States.States → List CustomerVersionState → States.States
all_superseded d [] = d
all_superseded d (s ∷ rest) = all_superseded (States.save d (superseded_of s)) rest

-- Whether one of the rows of a customer was EXPIRED_BLOCKING.
abbrev pub was_blocked : List CustomerVersionState → String → Bool
was_blocked rows customer_id =
    any (λ s. s.customer_id == customer_id && s.state == expired_blocking) rows

supersede-open :
    (s : CustomerVersionState)
    → IsOpen s
    → Lifecycle.supersede s ≡ ok (superseded_of s, s.state == expired_blocking)
unfolding includes Lifecycle.supersede
supersede-open s o = ground arith

is_carried-mark :
    (blocking : Blocking) (id customer_id : String) (b : Bool)
    → is_carried (mark id b blocking) customer_id
      ≡ (is_carried blocking customer_id || (id == customer_id && b))
unfolding mark
is_carried-mark blocking id customer_id false = ground arith
is_carried-mark blocking id customer_id true = ground (arith, get-set blocking id customer_id true)

-- The open rows of a predecessor can all be superseded: each of them is SUPERSEDED afterwards, and a
-- customer is carried over exactly if one of the customer's rows was EXPIRED_BLOCKING, or one had
-- been marked before.
pub supersede_open_lem :
    (rows : List CustomerVersionState) (blocking : Blocking) (customer_id : String) (w : World)
    → All IsOpen rows
    → (marked : Blocking) × (supersede_open rows blocking w
        ≡ (ok marked, record w { states = all_superseded w.states rows }))
      × (is_carried marked customer_id
          ≡ (is_carried blocking customer_id || was_blocked rows customer_id))
unfolding supersede_open all_superseded
supersede_open_lem [] blocking customer_id w o = (blocking, refl, ground arith)
supersede_open_lem (s ∷ rest) blocking customer_id w o =
    let b = s.state == expired_blocking in
    let w1 : World = record w { states = States.save w.states (superseded_of s) } in
    let (marked, p, q) =
      supersede_open_lem rest (mark s.customer_id b blocking) customer_id w1 o.1 in
    let e = supersede-open s o.0 in
    let m = is_carried-mark blocking s.customer_id customer_id b in
    (marked, ground (arith, e, p), ground (arith, q, m))
