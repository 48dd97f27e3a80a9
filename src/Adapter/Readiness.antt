-- ===== src/Adapter/Readiness.antt =====
-- internal/service/apply_readiness.go: the probe of the admin address, with its answers and its context
-- as an oracle by the number of the attempt. Times are in milliseconds.
pub mod Attempts
pub mod Alive
use nrcc.Base.{
  ℕ, zero, suc, ◌+◌, ◌-◌, ◌*◌, ◌≤◌, ◌<◌, ◌≡◌, ◌↔◌, refl, inl, inr, String, Bool, true, false, ◌||◌,
  ◌&&◌, Option, none, some, List, [], ◌∷◌, if◌then◌else◌, ◌==◌, ltb, arith, Option-cases,
  Bool-cases, length, str_eq,
}

-- What the client answers to one request.
pub data Reply : Type 0 where
  network_error : String → Reply
  response : ℕ → Reply

-- `not_ready` is `ErrReadinessNotReady` with the status or the last error.
pub data ProbeError : Type 0 where
  not_ready : ProbeError
  transient : String → ProbeError
  context_error : String → ProbeError
  empty_url : ProbeError

unfoldable pub is_alive_status : ℕ → Bool
is_alive_status status =
    (status == 200)
    || (status == 204)
    || (status == 301)
    || (status == 302)
    || (status == 401)
    || (status == 403)

-- `probeAttempt`
unfoldable pub probe_attempt : Reply → Option ProbeError
unfolding is_alive_status
probe_attempt (network_error e) = some (transient e)
probe_attempt (response status) = if is_alive_status status then none else some not_ready

-- `readinessConfig`
pub record ReadinessConfig : Type 0 where
  pub attempts : ℕ
  pub backoff : ℕ

abbrev pub default_backoff_max : ℕ
default_backoff_max = 2000

abbrev pub default_config : ReadinessConfig
default_config = record { attempts = 6; backoff = 200 }

-- `withReadinessAttempts` and `withReadinessBackoff`: nothing below one is taken.
unfoldable pub with_readiness_attempts : ℕ → ReadinessConfig → ReadinessConfig
with_readiness_attempts n c = if ltb 0 n then record c { attempts = n } else c

unfoldable pub with_readiness_backoff : ℕ → ReadinessConfig → ReadinessConfig
with_readiness_backoff d c = if ltb 0 d then record c { backoff = d } else c

-- What the outside does at an attempt: the error of the context before it, its reply, and the error of
-- the context in the sleep after it.
pub record Network : Type 0 where
  pub cancelled : ℕ → Option String
  pub reply : ℕ → Reply
  pub cancelled_asleep : ℕ → Option String

-- What a probe ends with, and the requests and sleeps it took.
pub record Probe : Type 0 where
  pub outcome : Option ProbeError
  pub requests : ℕ
  pub sleeps : List ℕ

abbrev pub after_sleep : ℕ → Probe → Probe
after_sleep delay p = record {
  outcome = p.outcome;
  requests = suc p.requests;
  sleeps = delay ∷ p.sleeps;
}

abbrev pub asked : Option ProbeError → Probe
asked o = record { outcome = o; requests = 1; sleeps = [] }

unfoldable pub next_delay : ℕ → ℕ
next_delay delay = if ltb default_backoff_max (delay * 2) then default_backoff_max else delay * 2

-- The end of a round that is to be tried again, with the error of the context in its sleep and the probe
-- of the rounds after it; the sleep that the context cuts short is not counted.
unfoldable pub retry : Option String → ℕ → ℕ → Probe → Probe
retry asleep zero delay rest = asked (some not_ready)
retry (some e) (suc left) delay rest = asked (some (context_error e))
retry none (suc left) delay rest = after_sleep delay rest

-- One round, with the error of the context before it and the reply.
unfoldable pub probe_round : Option String → Reply → Option String → ℕ → ℕ → Probe → Probe
unfolding probe_attempt retry
probe_round (some e) reply asleep left delay rest = record {
  outcome = some (context_error e);
  requests = 0;
  sleeps = [];
}
probe_round none (network_error e) asleep left delay rest = retry asleep left delay rest
probe_round none (response status) asleep left delay rest = asked (probe_attempt (response status))

-- The loop of `probeAdminReady`, with so many attempts left.
unfoldable pub probe_loop : Network → ℕ → ℕ → ℕ → Probe
unfolding next_delay probe_round
probe_loop net attempt zero delay = record { outcome = some not_ready; requests = 0; sleeps = [] }
probe_loop net attempt (suc left) delay =
    probe_round (net.cancelled attempt) (net.reply attempt) (net.cancelled_asleep attempt) left
      delay (probe_loop net (suc attempt) left (next_delay delay))

-- `probeAdminReady`
unfoldable pub probe_admin_ready : (String → String) → Network → ReadinessConfig → String → Probe
unfolding probe_loop
probe_admin_ready trim_space net config admin_url =
    if str_eq (trim_space admin_url) ""
    then record { outcome = some empty_url; requests = 0; sleeps = [] }
    else probe_loop net 1 config.attempts config.backoff
