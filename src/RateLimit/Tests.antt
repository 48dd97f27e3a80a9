-- ===== src/RateLimit/Tests.antt =====
-- internal/middleware/ratelimit.go: the lockout at concrete histories.
use mathlib.Core.Bool.{true≢false}
use nrcc.Base.{
  ap, subst, str_eq, Bool-cases, ℕ, ◌+◌, ◌-◌, ◌≡◌, ◌≢◌, refl, inl, inr, String, false, none, some,
  List, [], ◌∷◌, arith, leb, if◌then◌else◌,
}
use nrcc.Base.Assoc.{lookup}
use nrcc.RateLimit.{
  Attempt, RateLimiter, Saving, written, cut_short, max_attempts, window_duration, new_rate_limiter,
  check, reset, record_attempt,
}
use nrcc.RateLimit.Window.{failures, sixth_failure_locks}
use nrcc.RateLimit.Keys.{
  Event, checks, records, run, check-run_others, IsSound, WellFormed, run-WellFormed, lockout_ends,
}

-- A disk that takes every write, and one that is full.
abbrev taken : Saving
taken = record { marshal = λ _. some "{}"; answer = written }

abbrev full : Saving
full = record { marshal = λ _. some "{}"; answer = cut_short "" }

abbrev limiter : RateLimiter
limiter = new_rate_limiter (λ _. []) "/data" none

-- Seven requests that are all checked before the first of them fails, and then record their failures.
abbrev burst : List (Event × Saving)
burst =
    (checks "ip" 2, taken)
    ∷ (checks "ip" 3, taken)
    ∷ (records "ip" 4, taken)
    ∷ (records "user" 4, full)
    ∷ (records "ip" 5, full)
    ∷ (records "ip" 6, taken)
    ∷ (records "ip" 7, taken)
    ∷ (records "ip" 8, taken)
    ∷ []

sixth_failure_locks_example :
    let r = check taken (run burst (record_attempt taken limiter "ip" 1)) "ip" 9 in
    (r.1 ≡ leb max_attempts (failures "ip" burst + 1))
    × (r.2 ≡ (if leb max_attempts (failures "ip" burst + 1) then 1 + window_duration - 9 else 0))
unfolding lookup new_rate_limiter
sixth_failure_locks_example =
    sixth_failure_locks taken taken limiter "ip" 1 9 burst (λ a h. cc)
      (
        inr (omega arith, omega arith),
        (
          inr (omega arith, omega arith),
          (
            inr (omega arith, omega arith),
            (
              inl refl,
              (
                inr (omega arith, omega arith),
                (
                  inr (omega arith, omega arith),
                  (inr (omega arith, omega arith), (inr (omega arith, omega arith), tt)),
                ),
              ),
            ),
          ),
        ),
      )
      (omega arith) (omega arith)

abbrev alone : Attempt
alone = record { count = 1; first_at = 5; locked_until = 0 }

abbrev started : RateLimiter
started = record { attempts = ("k", alone) ∷ []; data_dir = "/data"; saved = none }

started-WellFormed : WellFormed started
unfolding lookup
started-WellFormed key a h = elim (Bool-cases (str_eq "k" key)) [
  | inl same ↦
      let is_alone : alone ≡ a = ground arith in
      subst IsSound is_alone (record { counts = omega arith; locks = inl refl })
  | inr other ↦ absurd (ground arith)
]

check-run_others_example :
    ((check taken (run ((records "j" 9, taken) ∷ []) started) "k" 10).1
      ≡ (check taken started "k" 10).1)
    × ((check taken (run ((records "j" 9, taken) ∷ []) started) "k" 10).2
        ≡ (check taken started "k" 10).2)
check-run_others_example =
    check-run_others ((records "j" 9, taken) ∷ []) started "k" taken 10
      ((λ h. true≢false (ap (str_eq "j") h)), tt)

run-WellFormed_example :
    WellFormed (run ((records "k" 9, taken) ∷ (checks "k" 10, full) ∷ []) started)
run-WellFormed_example =
    run-WellFormed ((records "k" 9, taken) ∷ (checks "k" 10, full) ∷ []) started started-WellFormed

abbrev later : ℕ
later = 1000000000000

lockout_ends_example :
    ((check taken (run [] started) "k" later).1 ≡ false)
    × (lookup "k" (check taken (run [] started) "k" later).0.attempts ≡ none)
    × (lookup "k" (reset taken (run [] started) "k").attempts ≡ none)
    × ((check taken (reset taken (run [] started) "k") "k" 6).1 ≡ false)
    × ((k : String)
        → "k" ≢ k
        → lookup k (reset taken (run [] started) "k").attempts ≡ lookup k (run [] started).attempts)
unfolding run lookup
lockout_ends_example =
    lockout_ends [] started "k" alone taken later 6 started-WellFormed refl (omega arith)
