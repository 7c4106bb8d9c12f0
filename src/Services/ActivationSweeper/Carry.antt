-- ===== src/Services/ActivationSweeper/Carry.antt =====
-- Which rows a carried-over block ends up on.
use clickwrap.Prelude.{
  ◌≡◌, ◌⊎◌, refl, inl, inr, String, true, false, Option, none, some, arith, String_eq, ◌<>◌,
  Bool-cases,
}
use clickwrap.Prelude.Dict.{get, get-set_self}
use clickwrap.Domain.Errors.{ok}
use clickwrap.Domain.Types.{accepted, objected, superseded, AgreementVersion, CustomerVersionState}
use clickwrap.Domain.Lifecycle.{is_blocking}
use clickwrap.Store.States
use clickwrap.Runtime.{World, Env}
use clickwrap.Runtime.Exec.{new_id}
use clickwrap.Runtime.Recorder.{record_event}
use clickwrap.Services.ActivationSweeper.{
  takes_block, block_state, carry_to, record_block_carried_over,
}

-- The row has been settled: accepted in advance, objected to, or replaced.
abbrev pub IsSettled : CustomerVersionState → Type 0
IsSettled s = (s.state ≡ accepted) ⊎ ((s.state ≡ objected) ⊎ (s.state ≡ superseded))

takes_block-cases :
    (s : CustomerVersionState) → takes_block s ≡ false → (is_blocking s ≡ true) ⊎ IsSettled s
unfolding takes_block is_blocking
takes_block-cases s h = ground arith

takes_block-blocking :
    (s : CustomerVersionState)
    → takes_block s ≡ true
    → is_blocking (record s { carry_over_blocking = some true }) ≡ true
unfolding takes_block is_blocking
takes_block-blocking s h = ground arith

block_state-blocking :
    (customer_id : String) (v : AgreementVersion) (id : String)
    → is_blocking (block_state customer_id v id) ≡ true
unfolding block_state is_blocking
block_state-blocking customer_id v id = ground arith

-- A block that is carried over is in force at once: afterwards there is a stored row that blocks, made
-- from the customer's row for the new version or created where there was none. The one exception is
-- a row that is settled or blocks already, and then nothing is written.
pub carry_to-blocks :
    (env : Env) (customer_id : String) (current : AgreementVersion)
    (successor : Option CustomerVersionState) (w : World)
    → ((row : CustomerVersionState) × (get
            (carry_to env customer_id current successor w).1.states
            row.id
          ≡ some row)
        × (is_blocking row ≡ true))
      ⊎ ((s : CustomerVersionState) × (successor ≡ some s)
          × ((is_blocking s ≡ true) ⊎ IsSettled s)
          × (carry_to env customer_id current successor w ≡ (ok tt, w)))
unfolding carry_to block_state new_id record_event record_block_carried_over States.save
carry_to-blocks env customer_id current none w =
    let id = "cvs" <> "-" <> env.uuid w.minted in
    inl (
      block_state customer_id current id,
      get-set_self w.states id (block_state customer_id current id),
      block_state-blocking customer_id current id,
    )
carry_to-blocks env customer_id current (some s) w = elim (Bool-cases (takes_block s)) [
  | inl t ↦
      let row : CustomerVersionState = record s { carry_over_blocking = some true } in
      inl (row, simp t (get-set_self w.states s.id row), takes_block-blocking s t)
  | inr f ↦ inr (s, refl, takes_block-cases s f, simp f refl)
]
