-- ===== src/Examples/Limits.antt =====
-- The rate limiter at concrete hits.
use clickwrap.Prelude.{
  arith, ℕ, ◌≡◌, ◌≤◌, ◌+◌, refl, Bool, String, true, false, [], ◌∷◌, List, String_eq, ltb,
}
use clickwrap.Prelude.Dict.{get}
use clickwrap.Accept.RateLimiter.{allow}
use clickwrap.Accept.RateLimiter.Log.{Hit, answers, log_answers, IsOrdered, answers-refine}
use clickwrap.Accept.RateLimiter.Bounds.{count_in, admitted, after, answers_bounded, allow-reopens}

-- Two hits of one address and one of another, then a third of the first one.
abbrev calls : List Hit
calls = ("ip-1", 100) ∷ ("ip-1", 200) ∷ ("ip-2", 200) ∷ ("ip-1", 300) ∷ []

calls-IsOrdered : IsOrdered 0 calls
calls-IsOrdered = (ground arith, (ground arith, (ground arith, (ground arith, tt))))

answers-refine_example : answers 2 1000 [] calls ≡ log_answers 2 1000 [] calls
answers-refine_example = answers-refine 2 1000 0 calls calls-IsOrdered

third-is-refused : answers 2 1000 [] calls ≡ true ∷ true ∷ true ∷ false ∷ []
unfolding allow answers clickwrap.Prelude.Dict.set clickwrap.Prelude.keep get
third-is-refused = refl

answers_bounded_example : count_in 1000 300 "ip-1" (admitted calls (answers 2 1000 [] calls)) ≤ 2
answers_bounded_example = answers_bounded 2 1000 0 calls "ip-1" 300 calls-IsOrdered

allow-reopens_example : (allow 2 1000 (after 2 1000 [] calls) "ip-1" 1300).1 ≡ true
allow-reopens_example =
    allow-reopens 2 1000 0 1300 calls "ip-1" (ground arith) calls-IsOrdered (ground arith)
