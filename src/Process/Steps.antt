-- ===== src/Process/Steps.antt =====
-- internal/service/process_linux.go: the changes that the steps make to the state.
use nrcc.Base.{ℕ, ◌≡◌, String, Bool, true, false, Option, some, List, ◌∷◌, leb}
use nrcc.Apply.Flight.{member}
use nrcc.Ring.{Buffer}
use nrcc.Process.{
  Manager, ExitCode, RestartEvent, Failure, waiting, exited, announced, sleeping, returned,
  set_phase, spawn, max_restarts,
}
use nrcc.Process.Exit.{child_exited, count_restart}

-- Every change that a step makes; `users` is whether a user may start the process.
pub record Keeps (users : Bool) (P : Manager → Type 0) : Type 0 where
  pub attach :
      (m : Manager)
      → P m
      → m.running ≡ false
      → P (record m { running = true; external_mode = true })
  pub not_external :
      (m : Manager) → P m → m.running ≡ false → P (record m { external_mode = false })
  pub spawns :
      (now : ℕ) (m : Manager) → users ≡ true → P m → m.running ≡ false → P (spawn true now m)
  pub respawns :
      (c n now : ℕ) (saves : Bool) (m : Manager)
      → P m
      → m.phase c ≡ sleeping n
      → m.running ≡ false
      → P (spawn false now (count_restart c saves m))
  pub detach :
      (c : ℕ) (m : Manager)
      → P m
      → m.current ≡ some c
      → m.external_mode ≡ true
      → P (record m { running = false; external_mode = false })
  pub asks : (c : ℕ) (m : Manager) → P m → P (record m { stopping = c ∷ m.stopping })
  pub closed :
      (c : ℕ) (left : List ℕ) (m : Manager)
      → P m
      → P (record m { stopped = c ∷ m.stopped; stopping = left; leaving = c ∷ m.leaving })
  pub left : (l : List ℕ) (m : Manager) → P m → P (record m { leaving = l })
  pub exits :
      (c : ℕ) (e : Option String) (k : ExitCode) (m : Manager)
      → P m
      → m.phase c ≡ waiting
      → P (child_exited c e k m)
  pub announces :
      (c n : ℕ) (k : ExitCode) (m : Manager)
      → P m
      → m.phase c ≡ exited n k
      → P (record m { finished = c ∷ m.finished; phase = set_phase c (announced n k) m.phase })
  pub returns :
      (c n : ℕ) (k : ExitCode) (m : Manager)
      → P m
      → m.phase c ≡ announced n k
      → P (record m { phase = set_phase c returned m.phase })
  pub sleeps :
      (c n : ℕ) (k : ExitCode) (m : Manager)
      → P m
      → m.phase c ≡ announced n k
      → member c m.stopped ≡ false
      → leb max_restarts n ≡ false
      → P (record m { phase = set_phase c (sleeping n) m.phase })
  pub counts :
      (c n : ℕ) (saves : Bool) (m : Manager)
      → P m
      → m.phase c ≡ sleeping n
      → P (count_restart c saves m)
  pub pushed : (t : Buffer RestartEvent) (m : Manager) → P m → P (record m { tracker = t })
  pub fails : (e : Option Failure) (m : Manager) → P m → P (record m { last_error = e })
