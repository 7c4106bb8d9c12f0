-- ===== src/Services/Acceptance/Race.antt =====
-- Two consents for one row, both of which have read it before either writes.
use clickwrap.Prelude.{◌≡◌, ◌≢◌, ap, sym, ◌∙◌, some, arith, String_eq}
use clickwrap.Prelude.Dict.{get}
use clickwrap.Domain.Errors.{ok, err, already_accepted}
use clickwrap.Domain.Types.{accepted, CustomerVersionState}
use clickwrap.Store.States
use clickwrap.Store.States.Updates.{IsStored}
use clickwrap.Runtime.{World, Env, Response}
use clickwrap.Services.Acceptance.{write_acceptance}
use clickwrap.Services.Acceptance.Records.{stale_code}
use clickwrap.Services.Acceptance.Checks.{AcceptanceInput, Checked}
use clickwrap.Services.Acceptance.Outcome.{IsOutcome, write_acceptance-ok}
use clickwrap.Services.Acceptance.Requests.{write_acceptance_stale}

module _ (env : Env) where
  -- Of two consents that have read the same row, not yet ACCEPTED, and passed every guard, the second to
  -- write fails with ALREADY_ACCEPTED and writes nothing, with whatever key, channel or text it came.
  pub write_acceptance_once :
      (input second : AcceptanceInput) (c c2 : Checked) (s next next2 : CustomerVersionState)
      (w w' : World) (r : Response)
      → s.state ≢ accepted
      → next.state ≡ accepted
      → write_acceptance env input c (some s) next w ≡ (ok r, w')
      → write_acceptance env second c2 (some s) next2 w' ≡ (err already_accepted, w')
  unfolding States.find_by_id
  write_acceptance_once input second c c2 s next next2 w w' r n a h =
      let o : IsOutcome input c (some s) w w' r =
        write_acceptance-ok env input c (some s) next w w' r a tt h in
      let e : get w'.states s.id ≡ some o.moved.row =
        ap (get w'.states) (sym o.moved.source.0) ∙ o.moved.stored in
      let gone : ¬ IsStored w'.states s.id s.state =
        λ (t, g, p). ground (arith, e, g, p, o.moved.state, n) in
      let code : stale_code (get w'.states s.id) ≡ already_accepted =
        ground (arith, e, o.moved.state) in
      write_acceptance_stale env second c2 s next2 w' gone ∙ ap (λ x. (err x, w')) code
