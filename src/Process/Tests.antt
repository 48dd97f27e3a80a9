-- ===== src/Process/Tests.antt =====
-- internal/service/process_linux.go: a child that crashes and is restarted, and one that is stopped.
use nrcc.Base.{ℕ, ◌+◌, ◌≤◌, ◌<◌, ◌≡◌, ◌≢◌, refl, Option, none, some, true, false, List, [], ◌∷◌, ok}
use nrcc.Apply.Flight.{member}
use nrcc.Ring.{new_buffer}
use nrcc.Process.{
  Manager, code, waiting, sleeping, new_process_manager, Launch, status, max_restarts,
}
use nrcc.Process.Exit.{backoff}
use nrcc.Process.Traces.{Event, start, stop, closes, exits, announces, decides, wakes, run}
use nrcc.Process.Guarantees.{status_tells_the_child, stopped_child_stays_down}
use nrcc.Process.Restarts.{restarts_bounded}

abbrev free_port : Launch
free_port = record {
  runtime = ok "1880";
  port_in_use = λ _. false;
  settings = none;
  stdout_pipe = none;
  stderr_pipe = none;
  command = none;
  now = 100;
}

abbrev crash_and_restart : List Event
crash_and_restart =
    exits 0 (some "exit status 1") (code 1)
    ∷ announces 0
    ∷ decides 0 "t1"
    ∷ wakes 0 true free_port
    ∷ []

abbrev restarted : Option Manager
restarted = run (start free_port ∷ crash_and_restart) (new_process_manager (some 4))

abbrev or_new : Option Manager → Manager
or_new none = new_process_manager none
or_new (some m) = m

status_tells_the_child_example :
    ((c : ℕ)
      → (or_new restarted).phase c ≡ waiting
      → ((status 130 none (or_new restarted)).status ≡ "running")
        × ((status 130 none (or_new restarted)).pid ≡ some c))
    × ((status 130 none (or_new restarted)).status ≡ "running"
        → (c : ℕ) × ((or_new restarted).phase c ≡ waiting))
    × ((c : ℕ) → member c (or_new restarted).finished ≡ true → (or_new restarted).phase c ≢ waiting)
unfolding run new_process_manager new_buffer
status_tells_the_child_example =
    status_tells_the_child (some 4) none (start free_port ∷ crash_and_restart) 130
      (or_new restarted) refl

abbrev marked : Option Manager
marked = run (start free_port ∷ stop ∷ closes 0 ∷ []) (new_process_manager none)

abbrev stopped_run : List Event
stopped_run = exits 0 none (code 0) ∷ announces 0 ∷ decides 0 "t1" ∷ []

stopped_child_stays_down_example : (or_new (run stopped_run (or_new marked))).phase 0 ≢ sleeping 0
unfolding run new_process_manager
stopped_child_stays_down_example =
    stopped_child_stays_down stopped_run 0 0 (or_new marked)
      (or_new (run stopped_run (or_new marked))) refl refl refl

restarts_bounded_example :
    ((or_new restarted).restart_count ≤ max_restarts)
    × ((or_new restarted).cumulative_restarts ≡ 4 + (or_new restarted).restart_count)
    × ((c n : ℕ)
        → (or_new restarted).phase c ≡ sleeping n
        → (n < max_restarts) × (2 ≤ backoff n) × (backoff n ≤ 60))
unfolding run new_process_manager new_buffer
restarts_bounded_example =
    restarts_bounded (some 4) free_port crash_and_restart (or_new restarted) refl refl
