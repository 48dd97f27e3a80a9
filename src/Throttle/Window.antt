-- ===== src/Throttle/Window.antt =====
-- internal/middleware/throttle.go: what one period lets through, and the delay that it announces.
use nrcc.Base.{
  ℕ, suc, ◌+◌, ◌-◌, ◌≤◌, ◌<◌, ◌≡◌, refl, inl, inr, String, true, false, not, ◌&&◌, none, some, List,
  [], ◌∷◌, min, arith, ltb, if◌then◌else◌, str_eq, subst, sym, eq_refl, eq_iff, Option-cases,
  Bool-cases,
}
use nrcc.Base.Assoc.{lookup, lookup-insert}
use nrcc.Throttle.{HitWindow, Throttle, sweep, first_hit, one_more, allow}

-- The requests of all clients in order, and how many of one client's get through.
pub passed : Throttle → String → List (String × ℕ) → ℕ
passed t ip [] = 0
passed t ip ((client, now) ∷ requests) =
    let (t', blocked, retry) = allow t client now in
    (if str_eq client ip && not blocked then 1 else 0) + passed t' ip requests

abbrev pub requests_of : String → List (String × ℕ) → ℕ
requests_of ip [] = 0
requests_of ip ((client, now) ∷ requests) =
    (if str_eq client ip then 1 else 0) + requests_of ip requests

abbrev pub AllInPeriod : ℕ → ℕ → List (String × ℕ) → Type 0
AllInPeriod start period [] = Unit
AllInPeriod start period ((client, now) ∷ requests) =
    (start ≤ now) × (now < start + period) × AllInPeriod start period requests

lookup-sweep_kept :
    (period now : ℕ) (hits : List (String × HitWindow)) (ip : String) (win : HitWindow)
    → lookup ip hits ≡ some win
    → now - win.start < period
    → lookup ip (sweep period now hits) ≡ some win
unfolding sweep lookup
lookup-sweep_kept period now [] ip win h k = cc
lookup-sweep_kept period now ((i, v) ∷ hits) ip win h k =
    ground (arith, lookup-sweep_kept period now hits ip win)

-- `n` requests of the period that began at `start` are on record.
abbrev pub Seen : Throttle → String → ℕ → ℕ → Type 0
Seen t ip start n = lookup ip t.hits ≡ some (record { count = n; start = start })

allow_config :
    (t : Throttle) (client : String) (now : ℕ)
    → ((allow t client now).0.limit ≡ t.limit) × ((allow t client now).0.period ≡ t.period)
unfolding allow
allow_config t client now = ground arith

allow_self :
    (t : Throttle) (ip : String) (start n now : ℕ)
    → now < start + t.period
    → start ≤ now
    → Seen t ip start n
    → Seen (allow t ip now).0 ip start (suc n) × ((allow t ip now).1 ≡ ltb t.limit (suc n))
unfolding allow
allow_self t ip start n now hi lo seen =
    let win : HitWindow = record { count = n; start = start } in
    let kept = lookup-sweep_kept t.period now t.hits ip win seen (omega arith) in
    let again = lookup-insert ip ip (one_more win) (sweep t.period now t.hits) in
    (rw (kept, allow) (ground (arith, again, eq_refl ip)), rw (kept, allow) (ground arith))

allow_same :
    (t : Throttle) (ip client : String) (start n now : ℕ)
    → str_eq client ip ≡ true
    → now < start + t.period
    → start ≤ now
    → Seen t ip start n
    → Seen (allow t client now).0 ip start (suc n) × ((allow t client now).1 ≡ ltb t.limit (suc n))
allow_same t ip client start n now same hi lo seen =
    subst (λ c. Seen (allow t c now).0 ip start (suc n) × ((allow t c now).1 ≡ ltb t.limit (suc n)))
      (sym ((eq_iff client ip).0 same)) (allow_self t ip start n now hi lo seen)

allow_other :
    (t : Throttle) (ip client : String) (start n now : ℕ)
    → str_eq client ip ≡ false
    → now < start + t.period
    → start ≤ now
    → Seen t ip start n
    → Seen (allow t client now).0 ip start n
unfolding allow
allow_other t ip client start n now ne hi lo seen =
    let win : HitWindow = record { count = n; start = start } in
    let swept = sweep t.period now t.hits in
    let kept = lookup-sweep_kept t.period now t.hits ip win seen (omega arith) in
    elim (Option-cases (lookup client swept)) [
      | inl absent ↦
          rw (absent, allow) (ground (arith, kept, lookup-insert client ip (first_hit now) swept))
      | inr (v, found) ↦
          rw (found, allow) (ground (arith, kept, lookup-insert client ip (one_more v) swept))
    ]

passed-Seen :
    (t : Throttle) (ip : String) (start n : ℕ) (requests : List (String × ℕ))
    → AllInPeriod start t.period requests
    → Seen t ip start n
    → passed t ip requests ≡ min (t.limit - n) (requests_of ip requests)
unfolding passed
passed-Seen t ip start n [] w seen = omega arith
passed-Seen t ip start n ((client, now) ∷ requests) w seen =
    let t' = (allow t client now).0 in
    let (same_limit, same_period) = allow_config t client now in
    let rest = subst (λ p. AllInPeriod start p requests) (sym same_period) w.2 in
    elim (Bool-cases (str_eq client ip)) [
      | inl same ↦
          let (seen', told) = allow_same t ip client start n now same w.1 w.0 seen in
          ground
            (arith, same, told, same_limit, passed-Seen t' ip start (suc n) requests rest seen')
      | inr other ↦
          let seen' = allow_other t ip client start n now other w.1 w.0 seen in
          ground (arith, other, same_limit, passed-Seen t' ip start n requests rest seen')
    ]

allow_first :
    (t : Throttle) (ip : String) (now : ℕ)
    → lookup ip (sweep t.period now t.hits) ≡ none
    → Seen (allow t ip now).0 ip now 1 × ((allow t ip now).1 ≡ false)
unfolding allow
allow_first t ip now absent = (
  rw (absent, allow)
      (ground (arith, eq_refl ip, lookup-insert ip ip (first_hit now) (sweep t.period now t.hits))),
  rw (absent, allow) refl,
)

-- From a client's first request on, whatever other clients send in between, exactly `limit` of its
-- requests within one period pass, or all if they are fewer; at `limit` zero the first one still
-- passes.
pub passed_bounded :
    (t : Throttle) (ip : String) (start : ℕ) (requests : List (String × ℕ))
    → lookup ip (sweep t.period start t.hits) ≡ none
    → AllInPeriod start t.period requests
    → passed t ip ((ip, start) ∷ requests) ≡ suc (min (t.limit - 1) (requests_of ip requests))
unfolding passed
passed_bounded t ip start requests absent w =
    let (seen, free) = allow_first t ip start absent in
    let (same_limit, same_period) = allow_config t ip start in
    let rest = subst (λ p. AllInPeriod start p requests) (sym same_period) w in
    ground (
      arith,
      eq_refl ip,
      free,
      same_limit,
      passed-Seen (allow t ip start).0 ip start 1 requests rest seen,
    )
