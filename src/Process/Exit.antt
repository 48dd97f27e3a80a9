-- ===== src/Process/Exit.antt =====
-- internal/service/process_linux.go: the goroutine `waitForExit` of a child, region by region of its lock.
use nrcc.Base.{
  ℕ, zero, suc, ◌+◌, ◌*◌, String, Bool, false, Option, none, some, Result, ok, err, if◌then◌else◌,
  ltb, leb,
}
use nrcc.Apply.Flight.{member}
use nrcc.Ring.{push}
use nrcc.Process.{
  ExitCode, RestartEvent, StartError, Manager, max_restarts, Launch, set_phase, start_locked,
  exit_failure, start_failure, exited, sleeping, returned,
}

-- `waitForExit` under its first lock. The child's exit, which lets cmd.Wait return, and this region are one
-- step: a child runs until the manager has noted its exit.
unfoldable pub child_exited : ℕ → Option String → ExitCode → Manager → Manager
unfolding set_phase
child_exited c e k m = record m {
  running = false;
  current = none;
  last_error = elim e [ none ↦ none | some x ↦ some (exit_failure x) ];
  phase = set_phase c (exited m.restart_count k) m.phase;
}

-- The backoff in seconds. The counter is below ten here, so that the shift stays far below 2 ^ 63
-- nanoseconds.
unfoldable pub shift_left : ℕ → ℕ → ℕ
shift_left d zero = d
shift_left d (suc n) = shift_left (d * 2) n

unfoldable pub backoff : ℕ → ℕ
unfolding shift_left
backoff restart_count = let delay = shift_left 2 restart_count in if ltb 60 delay then 60 else delay

abbrev pub exit_event : ℕ → ExitCode → String → RestartEvent
exit_event restart_count k timestamp = record {
  timestamp = timestamp;
  exit_code = k;
  attempt = restart_count + 1;
  max_attempts = max_restarts;
}

-- `waitForExit` from its look at `stopCh` to its sleep.
unfoldable pub decide : ℕ → ℕ → ExitCode → String → Manager → Option Manager
unfolding set_phase push
decide c restart_count k timestamp m =
    if member c m.stopped
    then some (record m { phase = set_phase c returned m.phase })
    else (elim (push (exit_event restart_count k timestamp) m.tracker) [
      | none ↦ none
      | some t ↦
          if leb max_restarts restart_count
          then some (record m { tracker = t; phase = set_phase c returned m.phase })
          else some (record m { tracker = t; phase = set_phase c (sleeping restart_count) m.phase })
    ])

-- `waitForExit` after its sleep up to `startLocked`; a failed save is only logged.
unfoldable pub count_restart : ℕ → Bool → Manager → Manager
unfolding set_phase
count_restart c saves m = record m {
  restart_count = m.restart_count + 1;
  cumulative_restarts = m.cumulative_restarts + 1;
  saved = if saves then some (m.cumulative_restarts + 1) else m.saved;
  phase = set_phase c returned m.phase;
}

unfoldable pub record_start : Manager × Result StartError (Unit {0}) → Manager
record_start (m, ok _) = m
record_start (m, err e) = record m { last_error = some (start_failure e) }

unfoldable pub wake : ℕ → Bool → Launch → Manager → Option Manager
unfolding count_restart start_locked record_start
wake c saves l m = elim (start_locked false l (count_restart c saves m)) [
  | none ↦ none
  | some answer ↦ some (record_start answer)
]
