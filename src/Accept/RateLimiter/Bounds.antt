-- ===== src/Accept/RateLimiter/Bounds.antt =====
-- How many hits a window can hold, and when a key is free again.
use mathlib.Core.List.{append_assoc, append-nil}
use clickwrap.Prelude.{
  ℕ, ◌+◌, ◌≤◌, ◌<◌, ◌≡◌, refl, Bool, true, false, ◌&&◌, String, String_eq, List, [], ◌∷◌, ◌++◌, inl,
  inr, arith, ltb, leb, or_else, length, keep, ◌==◌, Bool-cases, All,
}
use clickwrap.Prelude.Dict.{get, set, get-set}
use clickwrap.Accept.RateLimiter.{Hits, is_recent, decide, allow}
use clickwrap.Accept.RateLimiter.Log.{
  Hit, times_of, fits, answers, log_answers, IsOrdered, times_of-append, answers-refine,
}

-- The hits that were answered by true.
abbrev pub admitted : List Hit → List Bool → List Hit
admitted [] bs = []
admitted (h ∷ hs) [] = []
admitted (h ∷ hs) (true ∷ bs) = h ∷ admitted hs bs
admitted (h ∷ hs) (false ∷ bs) = admitted hs bs

-- The window of a moment: the last `window_ms` milliseconds before it.
abbrev pub in_window : (window_ms now at : ℕ) → Bool
in_window window_ms now at = leb at now && ltb now (at + window_ms)

abbrev pub count_in : (window_ms now : ℕ) → String → List Hit → ℕ
count_in window_ms now k log = length (keep (in_window window_ms now) (times_of k log))

abbrev IsBounded : (limit window_ms : ℕ) → List Hit → Type 0
IsBounded limit window_ms log = (k : String) (u : ℕ) → count_in window_ms u k log ≤ limit

count_before :
    (window_ms t u : ℕ) (xs : List ℕ)
    → t ≤ u
    → length (keep (in_window window_ms u) (xs ++ t ∷ []))
      ≤ length (keep (is_recent window_ms t) xs) + 1
unfolding keep
count_before window_ms t u [] h = ground arith
count_before window_ms t u (x ∷ xs) h = ground (arith, count_before window_ms t u xs h)

count_after :
    (window_ms t u : ℕ) (xs : List ℕ)
    → u < t
    → length (keep (in_window window_ms u) (xs ++ t ∷ []))
      ≡ length (keep (in_window window_ms u) xs)
unfolding keep
count_after window_ms t u [] h = ground arith
count_after window_ms t u (x ∷ xs) h = ground (arith, count_after window_ms t u xs h)

IsBounded-append :
    (limit window_ms : ℕ) (log : List Hit) (k : String) (t : ℕ)
    → IsBounded limit window_ms log
    → fits limit window_ms log (k, t) ≡ true
    → IsBounded limit window_ms (log ++ (k, t) ∷ [])
IsBounded-append limit window_ms log k t h f j u = elim (Bool-cases (k == j)) [
  | inl same ↦
      let eq : k ≡ j = (String_eq.beq_iff k j).0 same in
      rw (times_of-append j k t log) (
        rw same (
          rw (← eq) (elim (Bool-cases (ltb u t)) [
            | inl early ↦
                let less : u < t = ground arith in
                rw (count_after window_ms t u (times_of k log) less) (h k u)
            | inr late ↦ ground (arith, count_before window_ms t u (times_of k log))
          ])))
  | inr other ↦ rw (times_of-append j k t log) (rw other (rw append-nil (h j u)))
]

log-IsBounded :
    (limit window_ms : ℕ) (log calls : List Hit)
    → IsBounded limit window_ms log
    → IsBounded limit window_ms (log ++ admitted calls (log_answers limit window_ms log calls))
unfolding log_answers
log-IsBounded limit window_ms log [] h = rw append-nil h
log-IsBounded limit window_ms log ((k, t) ∷ rest) h =
    elim (Bool-cases (fits limit window_ms log (k, t))) [
      | inl fit ↦
          let next =
            log-IsBounded limit window_ms (log ++ (k, t) ∷ []) rest
              (IsBounded-append limit window_ms log k t h fit) in
          rw fit (rw (append_assoc) at next)
      | inr full ↦ rw full (log-IsBounded limit window_ms log rest h)
    ]

-- At every moment, of the hits of one key within the window before it at most `limit` were admitted,
-- if the clock does not go back.
pub answers_bounded :
    (limit window_ms start : ℕ) (calls : List Hit) (k : String) (now : ℕ)
    → IsOrdered start calls
    → count_in window_ms now k (admitted calls (answers limit window_ms [] calls)) ≤ limit
answers_bounded limit window_ms start calls k now o =
    rw (answers-refine limit window_ms start calls o)
      (log-IsBounded limit window_ms [] calls (λ j u. unfold keep in omega arith) k now)

-- The limiter's state after a sequence of hits, and the time of the last of them.
pub after : (limit window_ms : ℕ) → Hits → List Hit → Hits
after limit window_ms hits [] = hits
after limit window_ms hits ((k, t) ∷ rest) =
    after limit window_ms (allow limit window_ms hits k t).0 rest

abbrev pub last_time : ℕ → List Hit → ℕ
last_time last [] = last
last_time last ((k, t) ∷ rest) = last_time t rest

abbrev IsPast : Hits → ℕ → Type 0
IsPast hits last = (k : String) → All (λ at. at ≤ last) (or_else (get hits k) [])

All-le : (last t : ℕ) (xs : List ℕ) → last ≤ t → All (λ at. at ≤ last) xs → All (λ at. at ≤ t) xs
All-le last t [] le h = tt
All-le last t (x ∷ xs) le h = (omega arith, All-le last t xs le h.1)

All-keep :
    (p : ℕ → Bool) (t : ℕ) (xs : List ℕ) → All (λ at. at ≤ t) xs → All (λ at. at ≤ t) (keep p xs)
unfolding keep
All-keep p t [] h = tt
All-keep p t (x ∷ xs) h = elim (Bool-cases (p x)) [
  | inl e ↦ rw e (h.0, All-keep p t xs h.1)
  | inr e ↦ rw e (All-keep p t xs h.1)
]

All-snoc : (t : ℕ) (xs : List ℕ) → All (λ at. at ≤ t) xs → All (λ at. at ≤ t) (xs ++ t ∷ [])
All-snoc t [] h = (omega arith, tt)
All-snoc t (x ∷ xs) h = (h.0, All-snoc t xs h.1)

set-IsPast :
    (hits : Hits) (k : String) (last t : ℕ) (xs : List ℕ)
    → last ≤ t
    → IsPast hits last
    → All (λ at. at ≤ t) xs
    → IsPast (set hits k xs) t
set-IsPast hits k last t xs le h a j = elim (Bool-cases (k == j)) [
  | inl same ↦ rw (get-set hits k j xs) (rw same a)
  | inr other ↦ rw (get-set hits k j xs) (rw other (All-le last t _ le (h j)))
]

allow-IsPast :
    (limit window_ms : ℕ) (hits : Hits) (k : String) (last t : ℕ)
    → last ≤ t
    → IsPast hits last
    → IsPast (allow limit window_ms hits k t).0 t
unfolding allow decide
allow-IsPast limit window_ms hits k last t le h =
    let recent = keep (is_recent window_ms t) (or_else (get hits k) []) in
    let old = All-keep (is_recent window_ms t) t _ (All-le last t _ le (h k)) in
    elim (Bool-cases (leb limit (length recent))) [
      | inl full ↦ rw full (set-IsPast hits k last t recent le h old)
      | inr free ↦
          rw free (set-IsPast hits k last t (recent ++ t ∷ []) le h (All-snoc t recent old))
    ]

after-IsPast :
    (limit window_ms last : ℕ) (hits : Hits) (calls : List Hit)
    → IsOrdered last calls
    → IsPast hits last
    → IsPast (after limit window_ms hits calls) (last_time last calls)
unfolding after
after-IsPast limit window_ms last hits [] o h = h
after-IsPast limit window_ms last hits ((k, t) ∷ rest) o h =
    after-IsPast limit window_ms t (allow limit window_ms hits k t).0 rest o.1
      (allow-IsPast limit window_ms hits k last t o.0 h)

none_recent :
    (window_ms last t : ℕ) (xs : List ℕ)
    → last + window_ms ≤ t
    → All (λ at. at ≤ last) xs
    → keep (is_recent window_ms t) xs ≡ []
unfolding keep
none_recent window_ms last t [] le h = refl
none_recent window_ms last t (x ∷ xs) le h = ground (arith, none_recent window_ms last t xs le h.1)

-- Whatever was asked before, a window's length after the last hit every key is admitted again, if the
-- limit is not zero.
pub allow-reopens :
    (limit window_ms start t : ℕ) (calls : List Hit) (k : String)
    → 0 < limit
    → IsOrdered start calls
    → last_time start calls + window_ms ≤ t
    → (allow limit window_ms (after limit window_ms [] calls) k t).1 ≡ true
unfolding allow decide
allow-reopens limit window_ms start t calls k pos o le =
    let past = after-IsPast limit window_ms start [] calls o (λ j. unfold get in tt) in
    rw (none_recent window_ms (last_time start calls) t _ le (past k)) (ground arith)
