-- ===== src/Adapter/Readiness/Attempts.antt =====
-- internal/service/apply_readiness.go: how long a probe goes on, and when it finds Node-RED alive.
use nrcc.Base.{
  ℕ, zero, suc, ◌+◌, ◌-◌, ◌*◌, ◌≤◌, ◌<◌, ◌≡◌, refl, inl, inr, ◌⊎◌, String, Option, none, some, List,
  [], ◌∷◌, arith, Bool-cases, length, str_eq,
}
use nrcc.Adapter.Readiness.{
  Reply, network_error, response, ReadinessConfig, Network, Probe, default_backoff_max, next_delay,
  retry, probe_round, probe_loop, probe_admin_ready,
}

abbrev pub sum : List ℕ → ℕ
sum [] = 0
sum (n ∷ ns) = n + sum ns

next_delay_le : (d : ℕ) → next_delay d ≤ default_backoff_max
unfolding next_delay
next_delay_le d = ground arith

-- The requests, sleeps and time asleep of a loop with so many attempts left.
record IsBounded (left : ℕ) (p : Probe) : Type 0 where
  requests_le : p.requests ≤ left
  sleeps_lt : p.sleeps ≡ [] ⊎ (length p.sleeps < left)
  time_le : sum p.sleeps ≤ default_backoff_max * length p.sleeps

probe_round-IsBounded :
    (before : Option String) (reply : Reply) (asleep : Option String) (left delay : ℕ)
    (rest : Probe)
    → delay ≤ default_backoff_max
    → IsBounded left rest
    → IsBounded (suc left) (probe_round before reply asleep left delay rest)
unfolding probe_round retry
probe_round-IsBounded (some e) reply asleep left delay rest h next = record {
  requests_le = ground arith;
  sleeps_lt = inl refl;
  time_le = ground arith;
}
probe_round-IsBounded none (response status) asleep left delay rest h next = record {
  requests_le = ground arith;
  sleeps_lt = inl refl;
  time_le = ground arith;
}
probe_round-IsBounded none (network_error e) asleep zero delay rest h next = record {
  requests_le = ground arith;
  sleeps_lt = inl refl;
  time_le = ground arith;
}
probe_round-IsBounded none (network_error e) (some c) (suc left) delay rest h next = record {
  requests_le = ground arith;
  sleeps_lt = inl refl;
  time_le = ground arith;
}
probe_round-IsBounded none (network_error e) none (suc left) delay rest h next = record {
  requests_le = ground (arith, next.requests_le);
  sleeps_lt = inr (elim next.sleeps_lt [
    | inl empty ↦ rw empty (omega arith)
    | inr fewer ↦ omega (arith, fewer)
  ]);
  time_le = omega (arith, next.time_le, h);
}

probe_loop-IsBounded :
    (net : Network) (attempt left delay : ℕ)
    → delay ≤ default_backoff_max
    → IsBounded left (probe_loop net attempt left delay)
unfolding probe_loop
probe_loop-IsBounded net attempt zero delay h = record {
  requests_le = ground arith;
  sleeps_lt = inl refl;
  time_le = ground arith;
}
probe_loop-IsBounded net attempt (suc left) delay h =
    probe_round-IsBounded (net.cancelled attempt) (net.reply attempt) (net.cancelled_asleep attempt)
      left delay (probe_loop net (suc attempt) left (next_delay delay)) h
      (probe_loop-IsBounded net (suc attempt) left (next_delay delay) (next_delay_le delay))

bounds_of :
    (left : ℕ) (p : Probe)
    → IsBounded left p
    → (p.requests ≤ left)
      × (length p.sleeps ≤ left - 1)
      × (sum p.sleeps ≤ default_backoff_max * (left - 1))
bounds_of left p b = elim b.sleeps_lt [
  | inl empty ↦ (b.requests_le, rw empty (omega arith), rw empty (omega arith))
  | inr fewer ↦ (b.requests_le, omega (arith, fewer), omega (arith, fewer, b.time_le))
]

-- A probe whose first delay is at most the cap of two seconds ends: it makes at most as many requests
-- as it has attempts, sleeps at most once less than that, and sleeps altogether at most the cap times
-- one less than its attempts.
pub probe_admin_ready_ends :
    (trim_space : String → String) (net : Network) (config : ReadinessConfig) (admin_url : String)
    → config.backoff ≤ default_backoff_max
    → let p = probe_admin_ready trim_space net config admin_url in
      (p.requests ≤ config.attempts)
      × (length p.sleeps ≤ config.attempts - 1)
      × (sum p.sleeps ≤ default_backoff_max * (config.attempts - 1))
unfolding probe_admin_ready
probe_admin_ready_ends trim_space net config admin_url h =
    let bounds = probe_loop-IsBounded net 1 config.attempts config.backoff h in
    elim (Bool-cases (str_eq (trim_space admin_url) "")) [
      | inl empty ↦ simp (empty, probe_admin_ready) (omega arith, omega arith, omega arith)
      | inr given ↦
          simp (given, probe_admin_ready)
            (bounds_of config.attempts (probe_loop net 1 config.attempts config.backoff) bounds)
    ]
