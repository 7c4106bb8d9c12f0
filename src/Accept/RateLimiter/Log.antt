-- ===== src/Accept/RateLimiter/Log.antt =====
-- What the limiter promises, on a log of all admitted hits that forgets nothing, and that the pruned
-- lists answer as the log does.
use mathlib.Core.Path.{subst}
use mathlib.Core.List.{append-nil}
use clickwrap.Prelude.{
  ℕ, ◌≤◌, ◌≡◌, refl, sym, ap, ◌∙◌, Bool, true, false, not, String, String_eq, List, [], ◌∷◌, ◌++◌,
  inl, inr, arith, leb, or_else, length, keep, if◌then◌else◌, ◌==◌, Bool-cases,
}
use clickwrap.Prelude.Dict.{get, set, get-set}
use clickwrap.Accept.RateLimiter.{Hits, is_recent, decide, allow}

-- A hit: its key and its time.
abbrev pub Hit : Type 0
Hit = String × ℕ

abbrev pub times_of : String → List Hit → List ℕ
times_of k [] = []
times_of k ((j, at) ∷ log) = if j == k then at ∷ times_of k log else times_of k log

-- Fewer hits of the key than the limit were admitted within the window.
abbrev pub fits : (limit window_ms : ℕ) → List Hit → Hit → Bool
fits limit window_ms log (k, t) =
    not (leb limit (length (keep (is_recent window_ms t) (times_of k log))))

abbrev pub add_if : Bool → List Hit → Hit → List Hit
add_if true log hit = log ++ hit ∷ []
add_if false log hit = log

-- The answers to a sequence of hits: of the limiter, and by the log.
unfoldable pub answers : (limit window_ms : ℕ) → Hits → List Hit → List Bool
answers limit window_ms hits [] = []
answers limit window_ms hits ((k, t) ∷ rest) =
    (allow limit window_ms hits k t).1
    ∷ answers limit window_ms (allow limit window_ms hits k t).0 rest

unfoldable pub log_answers : (limit window_ms : ℕ) → List Hit → List Hit → List Bool
log_answers limit window_ms log [] = []
log_answers limit window_ms log (hit ∷ rest) =
    fits limit window_ms log hit
    ∷ log_answers limit window_ms (add_if (fits limit window_ms log hit) log hit) rest

-- The clock does not go back.
abbrev pub IsOrdered : ℕ → List Hit → Type 0
IsOrdered last [] = Unit
IsOrdered last ((k, t) ∷ rest) = (last ≤ t) × IsOrdered t rest

keep-append : (p : ℕ → Bool) (xs ys : List ℕ) → keep p (xs ++ ys) ≡ keep p xs ++ keep p ys
unfolding keep
keep-append p [] ys = refl
keep-append p (x ∷ xs) ys = ground (arith, keep-append p xs ys)

-- What is recent later is recent now.
keep-keep :
    (window_ms t u : ℕ) (xs : List ℕ)
    → t ≤ u
    → keep (is_recent window_ms u) (keep (is_recent window_ms t) xs)
      ≡ keep (is_recent window_ms u) xs
unfolding keep
keep-keep window_ms t u [] h = refl
keep-keep window_ms t u (x ∷ xs) h = ground (arith, keep-keep window_ms t u xs h)

pub times_of-append :
    (j k : String) (t : ℕ) (log : List Hit)
    → times_of j (log ++ (k, t) ∷ []) ≡ times_of j log ++ (if k == j then t ∷ [] else [])
times_of-append j k t [] = refl
times_of-append j k t ((i, at) ∷ log) = ground (arith, times_of-append j k t log)

-- At each later moment the lists hold the recent part of the log.
abbrev Holds : ℕ → Hits → List Hit → ℕ → Type 0
Holds window_ms hits log last =
    (k : String) (t : ℕ)
    → last ≤ t
    → keep (is_recent window_ms t) (or_else (get hits k) [])
      ≡ keep (is_recent window_ms t) (times_of k log)

-- The new list of a key, which holds what the old one did, and perhaps the new hit.
Holds-after :
    (window_ms : ℕ) (hits : Hits) (log : List Hit) (last t : ℕ) (k : String) (more : List ℕ)
    (log' : List Hit)
    → Holds window_ms hits log last
    → last ≤ t
    → ((j : String) → times_of j log' ≡ times_of j log ++ (if k == j then more else []))
    → Holds window_ms
        (set hits k (keep (is_recent window_ms t) (or_else (get hits k) []) ++ more))
        log'
        t
Holds-after window_ms hits log last t k more log' h le e j u later = elim (Bool-cases (k == j)) [
  | inl same ↦
      let eq : k ≡ j = (String_eq.beq_iff k j).0 same in
      rw (get-set hits k j _) (
        rw (e j) (
          rw same (
            rw (← eq) (
              keep-append (is_recent window_ms u) _ more
              ∙ ap (λ xs. xs ++ keep (is_recent window_ms u) more)
                  (keep-keep window_ms t u (or_else (get hits k) []) later ∙ h k u (omega arith))
              ∙ sym (keep-append (is_recent window_ms u) (times_of k log) more)))))
  | inr other ↦ rw (get-set hits k j _) (rw (e j) (rw other (rw append-nil (h j u (omega arith)))))
]

nil_either : (b : Bool) (xs : List ℕ) → xs ≡ xs ++ (if b then [] else [])
nil_either true xs = sym (append-nil xs)
nil_either false xs = sym (append-nil xs)

-- One hit: the same answer, and the lists still hold the recent part of the log.
allow-step :
    (limit window_ms : ℕ) (hits : Hits) (log : List Hit) (last t : ℕ) (k : String)
    → Holds window_ms hits log last
    → last ≤ t
    → ((allow limit window_ms hits k t).1 ≡ fits limit window_ms log (k, t))
      × Holds window_ms
          (allow limit window_ms hits k t).0
          (add_if (fits limit window_ms log (k, t)) log (k, t))
          t
unfolding allow decide
allow-step limit window_ms hits log last t k h le =
    let recent = keep (is_recent window_ms t) (or_else (get hits k) []) in
    let same : leb limit (length recent)
        ≡ leb limit (length (keep (is_recent window_ms t) (times_of k log))) =
      ap (λ xs. leb limit (length xs)) (h k t le) in
    elim (Bool-cases (leb limit (length (keep (is_recent window_ms t) (times_of k log))))) [
      | inl full ↦ rw same (
          rw full (
            refl,
            subst (λ xs. Holds window_ms (set hits k xs) log t) (append-nil recent)
                (Holds-after window_ms hits log last t k [] log h le
                  (λ j. nil_either (k == j) (times_of j log))),
          ))
      | inr free ↦ rw same (
          rw free (
            refl,
            Holds-after window_ms hits log last t k (t ∷ []) (log ++ (k, t) ∷ []) h le
                (λ j. times_of-append j k t log),
          ))
    ]

answers-log :
    (limit window_ms : ℕ) (hits : Hits) (log : List Hit) (last : ℕ) (calls : List Hit)
    → Holds window_ms hits log last
    → IsOrdered last calls
    → answers limit window_ms hits calls ≡ log_answers limit window_ms log calls
unfolding answers log_answers
answers-log limit window_ms hits log last [] h o = refl
answers-log limit window_ms hits log last ((k, t) ∷ rest) h o =
    let step = allow-step limit window_ms hits log last t k h o.0 in
    cc (
      step.0,
      answers-log limit window_ms (allow limit window_ms hits k t).0
          (add_if (fits limit window_ms log (k, t)) log (k, t)) t rest step.1 o.1,
    )

-- A limiter that starts empty answers every sequence of hits, at times that do not go back, as the log
-- of all admitted hits does: a hit is admitted if fewer than the limit were admitted for its key
-- within the window. What the limiter forgets makes no difference.
pub answers-refine :
    (limit window_ms start : ℕ) (calls : List Hit)
    → IsOrdered start calls
    → answers limit window_ms [] calls ≡ log_answers limit window_ms [] calls
answers-refine limit window_ms start calls o =
    answers-log limit window_ms [] [] start calls (λ k t le. unfold get in refl) o
