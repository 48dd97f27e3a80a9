-- ===== src/RateLimit/Keys.antt =====
-- internal/middleware/ratelimit.go: any history of calls over many keys.
use nrcc.Base.{
  ℕ, ◌+◌, ◌≤◌, ◌<◌, ◌≡◌, ◌≢◌, refl, ◌⊎◌, inl, inr, String, false, Option, none, some, List, [], ◌∷◌,
  arith, Bool-cases, str_eq, eq_refl, eq_iff, Option-cases,
}
use nrcc.Base.Assoc.{lookup, lookup-insert, lookup-erase}
use nrcc.RateLimit.{
  RateLimiter, Saving, persist, Attempt, max_attempts, window_duration, locked, next_attempt, check,
  record_attempt, reset,
}

pub data Event : Type 0 where
  checks records : String → ℕ → Event
  resets : String → Event

abbrev pub key_of : Event → String
key_of (checks key now) = key
key_of (records key now) = key
key_of (resets key) = key

-- An event with what the disk does under it.
unfoldable pub step : Event × Saving → RateLimiter → RateLimiter
unfolding check record_attempt reset
step (checks key now, d) rl = (check d rl key now).0
step (records key now, d) rl = record_attempt d rl key now
step (resets key, d) rl = reset d rl key

unfoldable pub run : List (Event × Saving) → RateLimiter → RateLimiter
run [] rl = rl
run (e ∷ es) rl = run es (step e rl)

abbrev pub NoneOf : String → List (Event × Saving) → Type 0
NoneOf key [] = Unit
NoneOf key (e ∷ es) = (key_of e.0 ≢ key) × NoneOf key es

pub persist_attempts : (d : Saving) (rl : RateLimiter) → (persist d rl).attempts ≡ rl.attempts
unfolding persist
persist_attempts d rl = elim (Bool-cases (str_eq rl.data_dir "")) [
  | inl nowhere ↦ rw (nowhere, persist) refl
  | inr there ↦
      rw (there, persist)
        (elim (Option-cases (d.marshal rl.attempts)) [
          | inl failed ↦ rw failed refl
          | inr (text, made) ↦ rw made refl
        ])
]

pub lookup-step :
    (e : Event × Saving) (rl : RateLimiter) (key : String)
    → key_of e.0 ≢ key
    → lookup key (step e rl).attempts ≡ lookup key rl.attempts
unfolding step
lookup-step (checks k now, d) rl key ne = elim (Option-cases (lookup k rl.attempts)) [
  | inl absent ↦ rw (absent, step, check)
  | inr (a, found) ↦
      rw (found, step, check)
        (ground (
          arith,
          lookup-insert k key (locked a) rl.attempts,
          lookup-erase k key rl.attempts,
          eq_iff k key,
        ))
]
lookup-step (records k now, d) rl key ne =
    ground (
      arith,
      lookup-insert k key (next_attempt (lookup k rl.attempts) now) rl.attempts,
      eq_iff k key,
    )
lookup-step (resets k, d) rl key ne = ground (arith, lookup-erase k key rl.attempts, eq_iff k key)

lookup-run :
    (es : List (Event × Saving)) (rl : RateLimiter) (key : String)
    → NoneOf key es
    → lookup key (run es rl).attempts ≡ lookup key rl.attempts
unfolding run
lookup-run [] rl key n = refl
lookup-run (e ∷ es) rl key n =
    ground (arith, lookup-run es (step e rl) key n.1, lookup-step e rl key n.0)

check_answer :
    (d : Saving) (rl rl' : RateLimiter) (key : String) (now : ℕ)
    → lookup key rl'.attempts ≡ lookup key rl.attempts
    → ((check d rl' key now).1 ≡ (check d rl key now).1)
      × ((check d rl' key now).2 ≡ (check d rl key now).2)
unfolding check
check_answer d rl rl' key now e = elim (Option-cases (lookup key rl.attempts)) [
  | inl absent ↦ rw (e, absent, check) (ground arith)
  | inr (a, found) ↦ ground arith
]

-- Whatever is checked, recorded and reset under other keys, a key's answer stays what it was.
pub check-run_others :
    (es : List (Event × Saving)) (rl : RateLimiter) (key : String) (d : Saving) (now : ℕ)
    → NoneOf key es
    → ((check d (run es rl) key now).1 ≡ (check d rl key now).1)
      × ((check d (run es rl) key now).2 ≡ (check d rl key now).2)
check-run_others es rl key d now n = check_answer d rl (run es rl) key now (lookup-run es rl key n)

-- What every attempt on record satisfies.
pub record IsSound (a : Attempt) : Type 0 where
  pub counts : 1 ≤ a.count
  pub locks :
      (a.locked_until ≡ 0)
      ⊎ ((a.locked_until ≡ a.first_at + window_duration) × (max_attempts ≤ a.count))

abbrev pub WellFormed : RateLimiter → Type 0
WellFormed rl = (key : String) (a : Attempt) → lookup key rl.attempts ≡ some a → IsSound a

IsSound-next :
    (o : Option Attempt) (now : ℕ)
    → ((a : Attempt) → o ≡ some a → IsSound a)
    → IsSound (next_attempt o now)
IsSound-next none now h = ground arith
IsSound-next (some a) now h = ground (arith, h a refl)

step-WellFormed : (e : Event × Saving) (rl : RateLimiter) → WellFormed rl → WellFormed (step e rl)
unfolding step
step-WellFormed (checks k now, d) rl h key a f = elim (Option-cases (lookup k rl.attempts)) [
  | inl absent ↦ h key a (rw (absent, step, check) at f)
  | inr (b, found) ↦
      let f' = rw (found, step, check) at f in
      ground (
        arith,
        f',
        h k b found,
        h key a,
        lookup-insert k key (locked b) rl.attempts,
        lookup-erase k key rl.attempts,
      )
]
step-WellFormed (records k now, d) rl h key a f = ground (
  arith,
  h key a,
  lookup-insert k key (next_attempt (lookup k rl.attempts) now) rl.attempts,
  IsSound-next (lookup k rl.attempts) now (h k),
)
step-WellFormed (resets k, d) rl h key a f = ground (arith, h key a, lookup-erase k key rl.attempts)

-- From a limiter whose entries are sound, every history leaves them sound: each counts an attempt
-- and is locked only until its window closes, and then only after six attempts.
pub run-WellFormed :
    (es : List (Event × Saving)) (rl : RateLimiter) → WellFormed rl → WellFormed (run es rl)
unfolding run
run-WellFormed [] rl h = h
run-WellFormed (e ∷ es) rl h = run-WellFormed es (step e rl) (step-WellFormed e rl h)

reset_forgets :
    (d : Saving) (rl : RateLimiter) (key : String) → lookup key (reset d rl key).attempts ≡ none
unfolding reset
reset_forgets d rl key = ground (arith, lookup-erase key key rl.attempts, eq_refl key)

-- After any history over sound entries, once the window of a key's attempt on record is over, the key is not
-- blocked and the check forgets the attempt. A reset at the end of the history, whether its window is over
-- or not, forgets the attempt too, so that a check at any time is not blocked, and it leaves what is on
-- record for every other key.
pub lockout_ends :
    (es : List (Event × Saving)) (rl : RateLimiter) (key : String) (a : Attempt) (d : Saving)
    (now other_time : ℕ)
    → WellFormed rl
    → lookup key (run es rl).attempts ≡ some a
    → a.first_at + window_duration < now
    → ((check d (run es rl) key now).1 ≡ false)
      × (lookup key (check d (run es rl) key now).0.attempts ≡ none)
      × (lookup key (reset d (run es rl) key).attempts ≡ none)
      × ((check d (reset d (run es rl) key) key other_time).1 ≡ false)
      × ((k : String)
          → key ≢ k
          → lookup k (reset d (run es rl) key).attempts ≡ lookup k (run es rl).attempts)
unfolding check step
lockout_ends es rl key a d now other_time h f over =
    let s = run-WellFormed es rl h key a f in
    let forgotten = reset_forgets d (run es rl) key in
    (
      rw (f, check) (ground (arith, s)),
      rw (f, check) (ground (arith, s, lookup-erase key key (run es rl).attempts, eq_refl key)),
      forgotten,
      rw (forgotten, check) refl,
      λ k ne. lookup-step (resets key, d) (run es rl) k ne,
    )
