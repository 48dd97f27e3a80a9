-- ===== src/Process.antt =====
-- internal/service/process_linux.go and restart_count_store.go: the manager of the Node-RED child,
-- with the goroutines of waitForExit and the callers of Stop. `none` is a panic.
pub mod Exit
pub mod Traces
mod Steps
mod Kept
mod Invariant
pub mod Guarantees
pub mod Restarts
pub mod Tests
use nrcc.Base.{
  ℕ, zero, suc, ◌+◌, ◌-◌, ◌*◌, String, Bool, true, false, ◌&&◌, Option, none, some, List, [], ◌∷◌,
  Result, ok, err, if◌then◌else◌, ltb, leb, ◌==◌, remove_first,
}
use nrcc.Apply.Flight.{member}
use nrcc.Ring.{Buffer, new_buffer, push}

-- `ExitCode`: -1 where there is none.
pub data ExitCode : Type 0 where
  no_code : ExitCode
  code : ℕ → ExitCode

pub record RestartEvent : Type 0 where
  pub timestamp : String
  pub exit_code : ExitCode
  pub attempt : ℕ
  pub max_attempts : ℕ

-- The errors of `startLocked`, each with its cause.
pub data StartError : Type 0 where
  already_running : ℕ → StartError
  invalid_runtime : String → StartError
  settings_failed : String → StartError
  stdout_failed : String → StartError
  stderr_failed : String → StartError
  start_failed : String → StartError

pub data Failure : Type 0 where
  exit_failure : String → Failure
  start_failure : StartError → Failure

-- How far the goroutine `waitForExit` of a child is. From `exited` on it has its copy of the
-- restart counter; `announced` is after the close of `doneCh`.
pub data Phase : Type 0 where
  absent : Phase
  waiting : Phase
  exited : ℕ → ExitCode → Phase
  announced : ℕ → ExitCode → Phase
  sleeping : ℕ → Phase
  returned : Phase

-- A child has a number in place of its `*exec.Cmd`. The two channels of a child are made with it and
-- read only where there is a current child, so they go by its number: `stopped` has the children whose
-- `stopCh` is closed and `finished` those whose `doneCh` is. `stopping` are the callers of Stop
-- before its close, `leaving` those after it. `saved` is the file of the counter.
pub record Manager : Type 0 where
  pub current : Option ℕ
  pub running : Bool
  pub external_mode : Bool
  pub started_at : ℕ
  pub restart_count : ℕ
  pub last_error : Option Failure
  pub tracker : Buffer RestartEvent
  pub cumulative_restarts : ℕ
  pub saved : Option ℕ
  pub phase : ℕ → Phase
  pub stopped : List ℕ
  pub finished : List ℕ
  pub stopping : List ℕ
  pub leaving : List ℕ
  pub next : ℕ

abbrev pub max_restarts : ℕ
max_restarts = 10

-- `restartCountStore.Load`: zero where the file is missing or cannot be read.
unfoldable pub load : Option ℕ → ℕ
load none = 0
load (some n) = n

abbrev pub no_event : RestartEvent
no_event = record { timestamp = ""; exit_code = code 0; attempt = 0; max_attempts = 0 }

-- `NewProcessManager`
unfoldable pub new_process_manager : Option ℕ → Manager
unfolding load
new_process_manager saved = record {
  current = none;
  running = false;
  external_mode = false;
  started_at = 0;
  restart_count = 0;
  last_error = none;
  tracker = new_buffer no_event 50;
  cumulative_restarts = load saved;
  saved = saved;
  phase = λ _. absent;
  stopped = [];
  finished = [];
  stopping = [];
  leaving = [];
  next = 0;
}

-- What the outside answers to `startLocked`: the port of the resolved runtime, whether a port is taken,
-- the error of each step towards the child, and the time.
pub record Launch : Type 0 where
  pub runtime : Result String String
  pub port_in_use : String → Bool
  pub settings : Option String
  pub stdout_pipe : Option String
  pub stderr_pipe : Option String
  pub command : Option String
  pub now : ℕ

-- The steps of `startLocked` between the check of the port and the running child.
unfoldable pub launch_error : Launch → Option StartError
launch_error l = elim l.settings [
  | some e ↦ some (settings_failed e)
  | none ↦ elim l.stdout_pipe [
    | some e ↦ some (stdout_failed e)
    | none ↦ elim l.stderr_pipe [
      | some e ↦ some (stderr_failed e)
      | none ↦ elim l.command [ some e ↦ some (start_failed e) | none ↦ none ]
    ]
  ]
]

unfoldable pub set_phase : ℕ → Phase → (ℕ → Phase) → ℕ → Phase
set_phase c p phases d = if d == c then p else phases d

-- The child runs and its goroutine waits for it.
unfoldable pub spawn : Bool → ℕ → Manager → Manager
unfolding set_phase
spawn reset now m = record m {
  current = some m.next;
  running = true;
  external_mode = false;
  started_at = now;
  last_error = none;
  restart_count = if reset then 0 else m.restart_count;
  phase = set_phase m.next waiting m.phase;
  next = suc m.next;
}

-- `startLocked` where nothing is running.
unfoldable pub start_stopped : Bool → Launch → Manager → Manager × Result StartError (Unit {0})
unfolding launch_error spawn
start_stopped reset l m = elim l.runtime [
  | err e ↦ (m, err (invalid_runtime e))
  | ok port ↦
      if l.port_in_use port
      then (record m { running = true; external_mode = true }, ok tt)
      else (elim (launch_error l) [
        | some e ↦ (record m { external_mode = false }, err e)
        | none ↦ (spawn reset l.now m, ok tt)
      ])
]

-- `startLocked`; an attached manager has no current child, and its number is asked for.
unfoldable pub start_locked :
    Bool → Launch → Manager → Option (Manager × Result StartError (Unit {0}))
unfolding start_stopped
start_locked reset l m =
    if m.running
    then (elim m.current [ none ↦ none | some c ↦ some (m, err (already_running c)) ])
    else some (start_stopped reset l m)

-- `Stop` under the lock.
unfoldable pub stop_locked : Manager → Manager
stop_locked m =
    if m.running
    then (elim m.current [
      | none ↦ m
      | some c ↦
          if m.external_mode
          then record m { running = false; external_mode = false }
          else record m { stopping = c ∷ m.stopping }
    ])
    else m

-- `close(stopCh)` in `Stop`; a channel that is closed already panics.
unfoldable pub close_stop : ℕ → Manager → Option Manager
close_stop c m =
    if member c m.stopped
    then none
    else some (record m {
      stopped = c ∷ m.stopped;
      stopping = remove_first (λ d. d == c) m.stopping;
      leaving = c ∷ m.leaving;
    })

-- The first check of `Restart`, which goes on with `Stop` and `Start`.
unfoldable pub restart_refused : Manager → Bool
restart_refused m = m.external_mode

-- `RuntimeStatus`, the fields that tell of the process; a child's number stands for its pid.
pub record RuntimeStatus : Type 0 where
  pub status : String
  pub pid : Option ℕ
  pub uptime : ℕ
  pub restart_count : ℕ
  pub consecutive_failures : ℕ

abbrev report : String → Option ℕ → ℕ → Manager → RuntimeStatus
report s pid uptime m = record {
  status = s;
  pid = pid;
  uptime = uptime;
  restart_count = m.cumulative_restarts;
  consecutive_failures = m.restart_count;
}

-- `Status` at a time, given the process that the outside finds.
unfoldable pub status : ℕ → Option ℕ → Manager → RuntimeStatus
status now found m =
    let otherwise =
      if m.external_mode
      then report "running (external)" found 0 m
      else report "stopped" none 0 m in
    if m.running
    then (elim m.current [
      | some c ↦ report "running" (some c) (now - m.started_at) m
      | none ↦ otherwise
    ])
    else otherwise
