-- ===== src/RateLimit/Window.antt =====
-- internal/middleware/ratelimit.go: how many failed attempts close a window, whatever the order of the
-- calls.
use nrcc.Base.{
  inl, inr, Option-cases, Bool-cases, subst, sym, ◌∙◌, ◌⊎◌, ℕ, suc, ◌+◌, ◌-◌, ◌≤◌, ◌<◌, ◌≡◌, ◌≢◌,
  refl, String, false, some, List, [], ◌∷◌, arith, leb, if◌then◌else◌, eq_refl, eq_iff, str_eq,
}
use nrcc.Base.Assoc.{lookup, insert, lookup-insert}
use nrcc.RateLimit.{
  RateLimiter, Saving, Attempt, max_attempts, window_duration, locked, counted, next_attempt,
  first_attempt, check, record_attempt,
}
use nrcc.RateLimit.Keys.{Event, checks, records, resets, step, run, lookup-step, persist_attempts}

-- The failed attempts that a history records for a key.
pub failures : String → List (Event × Saving) → ℕ
failures key [] = 0
failures key ((checks k t, d) ∷ es) = failures key es
failures key ((records k t, d) ∷ es) = (if str_eq k key then 1 else 0) + failures key es
failures key ((resets k, d) ∷ es) = failures key es

-- An event is of another key, or a check or a failed attempt in the window that opens at `start`.
abbrev pub Within : String → ℕ → Event → Type 0
Within key start (checks k t) =
    (str_eq k key ≡ false) ⊎ ((start ≤ t) × (t ≤ start + window_duration))
Within key start (records k t) =
    (str_eq k key ≡ false) ⊎ ((start ≤ t) × (t ≤ start + window_duration))
Within key start (resets k) = str_eq k key ≡ false

abbrev pub AllWithin : String → ℕ → List (Event × Saving) → Type 0
AllWithin key start [] = Unit
AllWithin key start (e ∷ es) = Within key start e.0 × AllWithin key start es

-- `n` attempts of the window that opened at `start` are on record.
abbrev pub Counted : RateLimiter → String → ℕ → ℕ → Type 0
Counted rl key start n =
    (a : Attempt) × (lookup key rl.attempts ≡ some a)
    × (a.count ≡ n)
    × (a.first_at ≡ start)
    × (a.locked_until ≡ (if leb max_attempts n then start + window_duration else 0))

check-Counted :
    (d : Saving) (rl : RateLimiter) (key : String) (start n now : ℕ)
    → start ≤ now
    → now ≤ start + window_duration
    → Counted rl key start n
    → Counted (check d rl key now).0 key start n
      × ((check d rl key now).1 ≡ leb max_attempts n)
      × ((check d rl key now).2 ≡ (if leb max_attempts n then start + window_duration - now else 0))
unfolding check
check-Counted d rl key start n now lo hi (a, found, c, f, l) = (
  (
    a,
    rw (found, check)
        (ground (
          arith,
          lookup-insert key key (locked a) rl.attempts,
          eq_refl key,
          persist_attempts d (record rl { attempts = insert key (locked a) rl.attempts }),
        )),
    c,
    f,
    l,
  ),
  rw (found, check) (ground arith),
  rw (found, check) (ground arith),
)

record_attempt-Counted :
    (d : Saving) (rl : RateLimiter) (key : String) (start n now : ℕ)
    → now ≤ start + window_duration
    → Counted rl key start n
    → Counted (record_attempt d rl key now) key start (suc n)
unfolding record_attempt
record_attempt-Counted d rl key start n now hi (a, found, c, f, l) = (
  counted a,
  ground (
    arith,
    lookup-insert key key (next_attempt (lookup key rl.attempts) now) rl.attempts,
    eq_refl key,
  ),
  ground arith,
  ground arith,
  ground arith,
)

untouched :
    (rl rl' : RateLimiter) (key : String) (start n : ℕ)
    → lookup key rl'.attempts ≡ lookup key rl.attempts
    → Counted rl key start n
    → Counted rl' key start (0 + n)
untouched rl rl' key start n same (a, found, c, f, l) =
    let m : n ≡ 0 + n = omega arith in subst (Counted rl' key start) m (a, same ∙ found, c, f, l)

differs : (k key : String) → str_eq k key ≡ false → k ≢ key
differs k key other same = ground (arith, eq_iff k key)

-- A step of a history counts what it records for the key.
step-Counted :
    (e : Event) (d : Saving) (rl : RateLimiter) (key : String) (start n : ℕ)
    → Within key start e
    → Counted rl key start n
    → Counted (step (e, d) rl) key start (failures key ((e, d) ∷ []) + n)
unfolding step failures
step-Counted (checks k t) d rl key start n (inl other) h =
    untouched rl (step (checks k t, d) rl) key start n
      (lookup-step (checks k t, d) rl key (differs k key other)) h
step-Counted (checks k t) d rl key start n (inr (lo, hi)) h = elim (Bool-cases (str_eq k key)) [
  | inr other ↦
      untouched rl (step (checks k t, d) rl) key start n
        (lookup-step (checks k t, d) rl key (differs k key other)) h
  | inl same ↦
      let named = (eq_iff k key).0 same in
      let m : n ≡ 0 + n = omega arith in
      rw named (
        subst (Counted (check d rl key t).0 key start) m
          (check-Counted d rl key start n t lo hi h).0)
]
step-Counted (records k t) d rl key start n (inl other) h = rw other (
    untouched rl (step (records k t, d) rl) key start n
      (lookup-step (records k t, d) rl key (differs k key other)) h)
step-Counted (records k t) d rl key start n (inr (lo, hi)) h = elim (Bool-cases (str_eq k key)) [
  | inr other ↦ rw other (
      untouched rl (step (records k t, d) rl) key start n
        (lookup-step (records k t, d) rl key (differs k key other)) h)
  | inl same ↦
      let named = (eq_iff k key).0 same in
      let m : suc n ≡ failures key ((records k t, d) ∷ []) + n = rw same (omega arith) in
      subst (Counted (step (records k t, d) rl) key start) m (
        subst (λ x. Counted (record_attempt d rl x t) key start (suc n)) (sym named)
          (record_attempt-Counted d rl key start n t hi h))
]
step-Counted (resets k) d rl key start n other h =
    untouched rl (step (resets k, d) rl) key start n
      (lookup-step (resets k, d) rl key (differs k key other)) h

failures-step :
    (key : String) (e : Event × Saving) (es : List (Event × Saving))
    → failures key (e ∷ es) ≡ failures key (e ∷ []) + failures key es
unfolding failures
failures-step key (checks k t, d) es = omega arith
failures-step key (records k t, d) es = omega arith
failures-step key (resets k, d) es = omega arith

run-Counted :
    (es : List (Event × Saving)) (rl : RateLimiter) (key : String) (start n : ℕ)
    → AllWithin key start es
    → Counted rl key start n
    → Counted (run es rl) key start (failures key es + n)
unfolding run failures
run-Counted [] rl key start n w h =
    let m : n ≡ 0 + n = omega arith in subst (Counted rl key start) m h
run-Counted (e ∷ es) rl key start n w h =
    let more =
      run-Counted es (step e rl) key start (failures key (e ∷ []) + n) w.1
        (step-Counted e.0 e.1 rl key start n w.0 h) in
    let sum : failures key es + (failures key (e ∷ []) + n) ≡ failures key (e ∷ es) + n =
      omega (arith, failures-step key e es) in
    subst (Counted (run es (step e rl)) key start) sum more

-- Nothing on record for the key, or a window that was over before `start`.
abbrev pub IsOver : RateLimiter → String → ℕ → Type 0
IsOver rl key start =
    (a : Attempt)
    → lookup key rl.attempts ≡ some a
    → (a.locked_until ≤ a.first_at + window_duration) × (a.first_at + window_duration < start)

-- The first failure after it opens a window.
record_first :
    (d : Saving) (rl : RateLimiter) (key : String) (start : ℕ)
    → IsOver rl key start
    → Counted (record_attempt d rl key start) key start 1
unfolding record_attempt
record_first d rl key start over = (
  first_attempt start,
  elim (Option-cases (lookup key rl.attempts)) [
    | inl absent ↦ ground (
      arith,
      absent,
      lookup-insert key key (next_attempt (lookup key rl.attempts) start) rl.attempts,
      eq_refl key,
      persist_attempts d (record rl {
        attempts = insert key (next_attempt (lookup key rl.attempts) start) rl.attempts;
      }),
    )
    | inr (a, found) ↦ ground (
      arith,
      found,
      over a found,
      lookup-insert key key (next_attempt (lookup key rl.attempts) start) rl.attempts,
      eq_refl key,
      persist_attempts d (record rl {
        attempts = insert key (next_attempt (lookup key rl.attempts) start) rl.attempts;
      }),
    )
  ],
  refl,
  refl,
  refl,
)

-- The first failed attempt on a key with nothing current on record opens a window of 15 minutes. Whatever
-- checks and failed attempts follow for the key within it, in whatever order the requests interleave, and
-- whatever happens under other keys, a check at any time of the window is blocked exactly if at least six failures
-- are recorded by then, the first one included; it is then told to wait until the window closes, and
-- without a wait otherwise.
pub sixth_failure_locks :
    (d d' : Saving) (rl : RateLimiter) (key : String) (start now : ℕ) (es : List (Event × Saving))
    → IsOver rl key start
    → AllWithin key start es
    → start ≤ now
    → now ≤ start + window_duration
    → let r = check d' (run es (record_attempt d rl key start)) key now in
      (r.1 ≡ leb max_attempts (failures key es + 1))
      × (r.2
          ≡ (if leb max_attempts (failures key es + 1) then start + window_duration - now else 0))
sixth_failure_locks d d' rl key start now es over w lo hi =
    let after =
      run-Counted es (record_attempt d rl key start) key start 1 w
        (record_first d rl key start over) in
    let (still, told, wait) =
      check-Counted d' (run es (record_attempt d rl key start)) key start (failures key es + 1) now
        lo hi after in
    (told, wait)
