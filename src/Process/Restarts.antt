-- ===== src/Process/Restarts.antt =====
-- internal/service/process_linux.go: how often the goroutines restart Node-RED after one start.
use nrcc.Base.{
  ℕ, zero, suc, ◌+◌, ◌*◌, ◌≤◌, ◌<◌, ◌≡◌, refl, sym, ◌∙◌, inl, inr, Bool, true, false, Option, none,
  some, List, ◌∷◌, arith, Option-cases,
}
use nrcc.Process.{
  Manager, ExitCode, Phase, absent, exited, announced, sleeping, returned, set_phase, spawn,
  max_restarts, new_process_manager, load, Launch,
}
use nrcc.Process.Exit.{child_exited, count_restart, shift_left, backoff}
use nrcc.Process.Traces.{Event, start, step, run}
use nrcc.Process.Steps.{Keeps}
use nrcc.Process.Kept.{all_allowed, run_kept, start_kept}

-- Whether the goroutine of a child may still restart it.
unfoldable pub is_active : Phase → Bool
is_active absent = false
is_active returned = false
is_active _ = true

-- At most one goroutine is active, and its copy of the counter is the counter.
record IsChain (before : ℕ) (m : Manager) : Type 0 where
  one : (c d : ℕ) → is_active (m.phase c) ≡ true → is_active (m.phase d) ≡ true → c ≡ d
  exit_copy : (c n : ℕ) (k : ExitCode) → m.phase c ≡ exited n k → n ≡ m.restart_count
  told_copy : (c n : ℕ) (k : ExitCode) → m.phase c ≡ announced n k → n ≡ m.restart_count
  sleep_copy : (c n : ℕ) → m.phase c ≡ sleeping n → (n ≡ m.restart_count) × (n < max_restarts)
  limit : m.restart_count ≤ max_restarts
  total : m.cumulative_restarts ≡ before + m.restart_count

-- The phase of one goroutine that was active changes.
set_phase-IsChain :
    (before c : ℕ) (p : Phase) (m : Manager)
    → IsChain before m
    → is_active (m.phase c) ≡ true
    → ((n : ℕ) (k : ExitCode) → p ≡ exited n k → n ≡ m.restart_count)
    → ((n : ℕ) (k : ExitCode) → p ≡ announced n k → n ≡ m.restart_count)
    → ((n : ℕ) → p ≡ sleeping n → (n ≡ m.restart_count) × (n < max_restarts))
    → IsChain before (record m { phase = set_phase c p m.phase })
unfolding set_phase
set_phase-IsChain before c p m chain active e a s = record {
  one = λ d f h h'. ground (arith, chain.one d f, chain.one c d, chain.one c f);
  exit_copy = λ d n k h. ground (arith, chain.exit_copy d n k, e n k);
  told_copy = λ d n k h. ground (arith, chain.told_copy d n k, a n k);
  sleep_copy = λ d n h. ground (arith, chain.sleep_copy d n, s n);
  limit = chain.limit;
  total = chain.total;
}

same-IsChain :
    (before : ℕ) (m m' : Manager)
    → IsChain before m
    → m'.phase ≡ m.phase
    → m'.restart_count ≡ m.restart_count
    → m'.cumulative_restarts ≡ m.cumulative_restarts
    → IsChain before m'
same-IsChain before m m' chain p r t = record {
  one = λ c d h h'. ground (arith, chain.one c d);
  exit_copy = λ c n k h. ground (arith, chain.exit_copy c n k);
  told_copy = λ c n k h. ground (arith, chain.told_copy c n k);
  sleep_copy = λ c n h. ground (arith, chain.sleep_copy c n);
  limit = ground (arith, chain.limit);
  total = ground (arith, chain.total);
}

counted-IsChain :
    (before c n : ℕ) (saves : Bool) (m : Manager)
    → IsChain before m
    → m.phase c ≡ sleeping n
    → IsChain before (count_restart c saves m)
unfolding count_restart set_phase is_active
counted-IsChain before c n saves m chain at = record {
  one = λ d f h h'. ground (arith, chain.one d f);
  exit_copy = λ d i k h. ground (arith, chain.one c d);
  told_copy = λ d i k h. ground (arith, chain.one c d);
  sleep_copy = λ d i h. ground (arith, chain.one c d);
  limit = ground (arith, chain.sleep_copy c n);
  total = ground (arith, chain.total);
}

respawned-IsChain :
    (before c n now : ℕ) (saves : Bool) (m : Manager)
    → IsChain before m
    → m.phase c ≡ sleeping n
    → IsChain before (spawn false now (count_restart c saves m))
unfolding count_restart spawn set_phase is_active
respawned-IsChain before c n now saves m chain at = record {
  one = λ d f h h'. ground (arith, chain.one c d, chain.one c f);
  exit_copy = λ d i k h. ground (arith, chain.one c d);
  told_copy = λ d i k h. ground (arith, chain.one c d);
  sleep_copy = λ d i h. ground (arith, chain.one c d);
  limit = ground (arith, chain.sleep_copy c n);
  total = ground (arith, chain.total);
}

kept-IsChain : (before : ℕ) → Keeps false (IsChain before)
unfolding child_exited is_active
kept-IsChain before = record {
  attach = λ m chain still. same-IsChain before m _ chain refl refl refl;
  not_external = λ m chain still. same-IsChain before m _ chain refl refl refl;
  spawns = λ now m users chain still. absurd cc;
  respawns = λ c n now saves m chain at still. respawned-IsChain before c n now saves m chain at;
  detach = λ c m chain live external. same-IsChain before m _ chain refl refl refl;
  asks = λ c m chain. same-IsChain before m _ chain refl refl refl;
  closed = λ c l m chain. same-IsChain before m _ chain refl refl refl;
  left = λ l m chain. same-IsChain before m _ chain refl refl refl;
  exits = λ c e k m chain at.
      same-IsChain before (record m { phase = set_phase c (exited m.restart_count k) m.phase }) _
        (set_phase-IsChain before c (exited m.restart_count k) m chain (ground arith) (λ n k h. cc)
          (λ n k h. cc) (λ n h. cc))
        refl refl refl;
  announces = λ c n k m chain at.
      same-IsChain before (record m { phase = set_phase c (announced n k) m.phase }) _
        (set_phase-IsChain before c (announced n k) m chain (ground arith) (λ i k' h. cc)
          (λ i k' h. ground (arith, chain.exit_copy c n k)) (λ i h. cc))
        refl refl refl;
  returns = λ c n k m chain at.
      set_phase-IsChain before c returned m chain (ground arith) (λ i k' h. cc) (λ i k' h. cc)
        (λ i h. cc);
  sleeps = λ c n k m chain at meant more.
      set_phase-IsChain before c (sleeping n) m chain (ground arith) (λ i k' h. cc) (λ i k' h. cc)
        (λ i h. ground (arith, chain.told_copy c n k));
  counts = counted-IsChain before;
  pushed = λ t m chain. same-IsChain before m _ chain refl refl refl;
  fails = λ e m chain. same-IsChain before m _ chain refl refl refl;
}

started-IsChain :
    (saved : Option ℕ) (now : ℕ) → IsChain (load saved) (spawn true now (new_process_manager saved))
unfolding new_process_manager spawn set_phase is_active
started-IsChain saved now = record {
  one = λ c d h h'. ground arith;
  exit_copy = λ c n k h. ground arith;
  told_copy = λ c n k h. ground arith;
  sleep_copy = λ c n h. ground arith;
  limit = ground arith;
  total = ground arith;
}

new-IsChain : (saved : Option ℕ) → IsChain (load saved) (new_process_manager saved)
unfolding new_process_manager is_active
new-IsChain saved = record {
  one = λ c d h h'. cc;
  exit_copy = λ c n k h. cc;
  told_copy = λ c n k h. cc;
  sleep_copy = λ c n h. cc;
  limit = ground arith;
  total = ground arith;
}

le-shift_left : (d n : ℕ) → d ≤ shift_left d n
unfolding shift_left
le-shift_left d zero = omega arith
le-shift_left d (suc n) = omega (arith, le-shift_left (d * 2) n)

backoff_bounds : (n : ℕ) → (2 ≤ backoff n) × (backoff n ≤ 60)
unfolding backoff
backoff_bounds n = ground (arith, le-shift_left 2 n)

-- After one start by a user on a new manager, Node-RED is restarted at most ten times until a user
-- starts it again, whatever crashes, stops and failed restarts come in between: the lifetime counter grows
-- by just the backoff counter, which never passes the limit; and a goroutine that sleeps before a restart
-- has counted fewer than ten and sleeps for two seconds to a minute.
pub restarts_bounded :
    (saved : Option ℕ) (l : Launch) (es : List Event) (m : Manager)
    → all_allowed false es ≡ true
    → run (start l ∷ es) (new_process_manager saved) ≡ some m
    → (m.restart_count ≤ max_restarts)
      × (m.cumulative_restarts ≡ load saved + m.restart_count)
      × ((c n : ℕ)
          → m.phase c ≡ sleeping n
          → (n < max_restarts) × (2 ≤ backoff n) × (backoff n ≤ 60))
unfolding run
restarts_bounded saved l es m none_started h =
    let before = new_process_manager saved in
    elim (Option-cases (step (start l) before)) [
      | inl panics ↦ let answer : run (start l ∷ es) before ≡ none = rw (panics, run) refl in cc
      | inr (m1, begun) ↦
          let rest : run (start l ∷ es) before ≡ run es m1 = rw (begun, run) refl in
          let kept = kept-IsChain (load saved) in
          let first =
            start_kept kept l before m1 (λ _. started-IsChain saved l.now) (new-IsChain saved)
              begun in
          let chain = run_kept kept es m1 m none_started first (sym rest ∙ h) in
          (
            chain.limit,
            chain.total,
            λ c n at. ((chain.sleep_copy c n at).1, (backoff_bounds n).0, (backoff_bounds n).1),
          )
    ]
