-- ===== src/Process/Guarantees.antt =====
-- internal/service/process_linux.go: what holds of every interleaving of the child's exits, its
-- goroutines, the callers of Stop and those of Start.
use mathlib.Core.Bool.{true≢false}
use nrcc.Base.{
  ℕ, ◌≡◌, ◌≢◌, refl, sym, ◌∙◌, ap, inl, inr, true, Option, none, some, List, [], ◌∷◌, arith,
  Bool-cases, Option-cases, str_eq,
}
use nrcc.Apply.Flight.{member}
use nrcc.Process.{Manager, waiting, sleeping, set_phase, spawn, new_process_manager, status}
use nrcc.Process.Exit.{child_exited, count_restart}
use nrcc.Process.Traces.{Event, run}
use nrcc.Process.Steps.{Keeps}
use nrcc.Process.Kept.{all_allowed, run_kept}
use nrcc.Process.Invariant.{IsSound, kept-IsSound}

new-IsSound : (saved : Option ℕ) → IsSound (new_process_manager saved)
unfolding new_process_manager
new-IsSound saved = record {
  alive = λ c h. cc;
  current_alive = λ c h. cc;
  attached = λ h h'. cc;
  gone = λ c h h'. cc;
  known = λ c h. cc;
  fresh = λ c h. refl;
}

all_allowed-true : (es : List Event) → all_allowed true es ≡ true
all_allowed-true [] = refl
all_allowed-true (e ∷ es) = ground (arith, all_allowed-true es)

run-IsSound :
    (saved : Option ℕ) (es : List Event) (m : Manager)
    → run es (new_process_manager saved) ≡ some m
    → IsSound m
run-IsSound saved es m h =
    run_kept kept-IsSound es (new_process_manager saved) m (all_allowed-true es) (new-IsSound saved)
      h

detached_status :
    (now : ℕ) (found : Option ℕ) (m : Manager)
    → m.current ≡ none
    → (status now found m).status ≢ "running"
unfolding status
detached_status now found m gone h = elim (Bool-cases m.external_mode) [
  | inl external ↦
      let is : (status now found m).status ≡ "running (external)" = elim (Bool-cases m.running) [
        | inl runs ↦ simp (runs, gone, external, status)
        | inr still ↦ simp (still, external, status)
      ] in
      true≢false (ap (str_eq "running") (sym h ∙ is))
  | inr child ↦
      let is : (status now found m).status ≡ "stopped" = elim (Bool-cases m.running) [
        | inl runs ↦ simp (runs, gone, child, status)
        | inr still ↦ simp (still, child, status)
      ] in
      true≢false (ap (str_eq "running") (sym h ∙ is))
]

-- After any steps from a new manager, a child that runs is what the status reports, with its
-- number, so that two children never run at once; the status says "running" only where a child runs;
-- and the channel that Stop waits for is closed only once its child has exited.
pub status_tells_the_child :
    (saved found : Option ℕ) (es : List Event) (now : ℕ) (m : Manager)
    → run es (new_process_manager saved) ≡ some m
    → ((c : ℕ)
        → m.phase c ≡ waiting
        → ((status now found m).status ≡ "running") × ((status now found m).pid ≡ some c))
      × ((status now found m).status ≡ "running" → (c : ℕ) × (m.phase c ≡ waiting))
      × ((c : ℕ) → member c m.finished ≡ true → m.phase c ≢ waiting)
unfolding status
status_tells_the_child saved found es now m h =
    let good = run-IsSound saved es m h in
    (
      λ c live.
          let here = good.alive c live in
          let runs = (good.current_alive c here).1 in
          (simp (runs, here, status), simp (runs, here, status)),
      λ told. elim (Option-cases m.current) [
        | inr (c, here) ↦ (c, (good.current_alive c here).0)
        | inl gone ↦ absurd (detached_status now found m gone told)
      ],
      good.gone,
    )

stopped_kept :
    (c : ℕ) → Keeps true (λ m. (member c m.stopped ≡ true) × ((n : ℕ) → m.phase c ≢ sleeping n))
unfolding spawn set_phase child_exited count_restart
stopped_kept c = record {
  attach = λ m p still. p;
  not_external = λ m p still. p;
  spawns = λ now m _ p still. (p.0, λ n h. ground (arith, p.1 n));
  respawns = λ d i now saves m p at still. (p.0, λ n h. ground (arith, p.1 n));
  detach = λ d m p live external. p;
  asks = λ d m p. p;
  closed = λ d l m p. (ground (arith, p.0), p.1);
  left = λ l m p. p;
  exits = λ d e k m p at. (p.0, λ n h. ground (arith, p.1 n));
  announces = λ d i k m p at. (p.0, λ n h. ground (arith, p.1 n));
  returns = λ d i k m p at. (p.0, λ n h. ground (arith, p.1 n));
  sleeps = λ d i k m p at meant more. (p.0, λ n h. ground (arith, p.1 n, p.0, meant));
  counts = λ d i saves m p at. (p.0, λ n h. ground (arith, p.1 n));
  pushed = λ t m p. p;
  fails = λ e m p. p;
}

-- A child that Stop marked as stopped while it ran is not restarted: whatever happens then, its
-- goroutine never comes to the sleep before a restart.
pub stopped_child_stays_down :
    (es : List Event) (c n : ℕ) (m m' : Manager)
    → m.phase c ≡ waiting
    → member c m.stopped ≡ true
    → run es m ≡ some m'
    → m'.phase c ≢ sleeping n
stopped_child_stays_down es c n m m' live marked h =
    (run_kept (stopped_kept c) es m m' (all_allowed-true es) (marked, λ i at. cc) h).1 n
