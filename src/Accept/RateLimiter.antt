-- ===== src/Accept/RateLimiter.antt =====
-- accept/rate-limiter.ts: hits of each key within a sliding window. `at > now - windowMs` is read as
-- `now < at + windowMs`, the same comparison without a negative number.
pub mod Log
pub mod Bounds
use clickwrap.Prelude.{
  ℕ, ◌+◌, Bool, true, false, String, String_eq, List, [], ◌∷◌, ◌++◌, ltb, leb, or_else, length,
  keep, if◌then◌else◌,
}
use clickwrap.Prelude.Dict.{Dict, get, set}

abbrev pub accept_page_rate_limit : ℕ
accept_page_rate_limit = 20

abbrev pub accept_page_rate_window_ms : ℕ
accept_page_rate_window_ms = 60_000

abbrev pub Hits : Type 0
Hits = Dict String (List ℕ)

abbrev pub is_recent : ℕ → ℕ → ℕ → Bool
is_recent window_ms now at = ltb now (at + window_ms)

-- The hits after a decision on one more of them, and the decision.
decide : ℕ → Hits → String → ℕ → List ℕ → Hits × Bool
decide limit hits key now recent =
    if leb limit (length recent)
    then (set hits key recent, false)
    else (set hits key (recent ++ now ∷ []), true)

unfoldable pub allow : (limit window_ms : ℕ) → Hits → String → ℕ → Hits × Bool
unfolding decide
allow limit window_ms hits key now =
    decide limit hits key now (keep (is_recent window_ms now) (or_else (get hits key) []))
