-- ===== src/Process/Traces.antt =====
-- internal/service/process_linux.go: the steps of all goroutines, interleaved.
use nrcc.Base.{
  ℕ, String, Bool, true, ◌&&◌, Option, none, some, List, [], ◌∷◌, if◌then◌else◌, ◌==◌, remove_first,
}
use nrcc.Apply.Flight.{member}
use nrcc.Process.{
  ExitCode, Manager, Launch, set_phase, start_locked, stop_locked, close_stop, waiting, exited,
  announced, sleeping,
}
use nrcc.Process.Exit.{child_exited, decide, wake}

-- One step of one goroutine.
pub data Event : Type 0 where
  start : Launch → Event
  stop : Event
  closes : ℕ → Event
  leaves : ℕ → Event
  exits : ℕ → Option String → ExitCode → Event
  announces : ℕ → Event
  decides : ℕ → String → Event
  wakes : ℕ → Bool → Launch → Event

-- A step that its goroutine is not at changes nothing.
unfoldable pub step : Event → Manager → Option Manager
unfolding start_locked stop_locked close_stop child_exited set_phase decide wake
step (start l) m = elim (start_locked true l m) [ none ↦ none | some (m', answer) ↦ some m' ]
step stop m = some (stop_locked m)
step (closes c) m = if member c m.stopping then close_stop c m else some m
step (leaves c) m =
    if member c m.leaving && member c m.finished
    then some (record m { leaving = remove_first (λ d. d == c) m.leaving })
    else some m
step (exits c e k) m = elim (m.phase c) [ waiting ↦ some (child_exited c e k m) | _ ↦ some m ]
step (announces c) m = elim (m.phase c) [
  | exited n k ↦
      some (record m { finished = c ∷ m.finished; phase = set_phase c (announced n k) m.phase })
  | _ ↦ some m
]
step (decides c timestamp) m = elim (m.phase c) [
  | announced n k ↦ decide c n k timestamp m
  | _ ↦ some m
]
step (wakes c saves l) m = elim (m.phase c) [ sleeping n ↦ wake c saves l m | _ ↦ some m ]

unfoldable pub run : List Event → Manager → Option Manager
unfolding step
run [] m = some m
run (e ∷ es) m = elim (step e m) [ none ↦ none | some m' ↦ run es m' ]
