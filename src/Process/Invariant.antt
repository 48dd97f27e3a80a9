-- ===== src/Process/Invariant.antt =====
-- internal/service/process_linux.go: the invariants that every step of every goroutine keeps.
use nrcc.Base.{
  ℕ, ◌≤◌, ◌<◌, ◌≡◌, ◌≢◌, refl, inl, inr, String, Bool, true, false, Option, none, some, List, ◌∷◌,
  arith, Option-cases,
}
use nrcc.Ring.{Buffer}
use nrcc.Apply.Flight.{member}
use nrcc.Process.{
  Manager, ExitCode, RestartEvent, Failure, Phase, absent, waiting, exited, announced, sleeping,
  returned, set_phase, spawn,
}
use nrcc.Process.Exit.{child_exited, count_restart}
use nrcc.Process.Steps.{Keeps}

-- The child that runs is the current one, and it is waited for.
pub record IsSound (m : Manager) : Type 0 where
  pub alive : (c : ℕ) → m.phase c ≡ waiting → m.current ≡ some c
  pub current_alive :
      (c : ℕ)
      → m.current ≡ some c
      → (m.phase c ≡ waiting) × (m.running ≡ true) × (m.external_mode ≡ false)
  pub attached : m.running ≡ true → m.current ≡ none → m.external_mode ≡ true
  pub gone : (c : ℕ) → member c m.finished ≡ true → m.phase c ≢ waiting
  pub known : (c : ℕ) → member c m.finished ≡ true → c < m.next
  pub fresh : (c : ℕ) → m.next ≤ c → m.phase c ≡ absent

no_child : (m : Manager) → IsSound m → m.running ≡ false → m.current ≡ none
no_child m good still = elim (Option-cases m.current) [
  | inl gone ↦ gone
  | inr (c, live) ↦ absurd (ground (arith, good.current_alive c live))
]

spawn-IsSound :
    (reset : Bool) (now : ℕ) (m : Manager)
    → IsSound m
    → m.running ≡ false
    → IsSound (spawn reset now m)
unfolding spawn set_phase
spawn-IsSound reset now m good still =
    let none_yet = no_child m good still in
    record {
      alive = λ c h. ground (arith, good.alive c);
      current_alive = λ c h. ground arith;
      attached = λ h h'. cc;
      gone = λ c h h'. ground (arith, good.gone c, good.known c);
      known = λ c h. ground (arith, good.known c);
      fresh = λ c h. ground (arith, good.fresh c);
    }

-- A phase other than `waiting` in place of one other than `waiting` or `absent`.
moved-IsSound :
    (c : ℕ) (p : Phase) (m : Manager)
    → IsSound m
    → p ≢ waiting
    → m.phase c ≢ waiting
    → m.phase c ≢ absent
    → IsSound (record m { phase = set_phase c p m.phase })
unfolding set_phase
moved-IsSound c p m good not_p not_c there = record {
  alive = λ d h. ground (arith, good.alive d);
  current_alive = λ d h. ground (arith, good.current_alive d h);
  attached = good.attached;
  gone = λ d h h'. ground (arith, good.gone d h);
  known = good.known;
  fresh = λ d h. ground (arith, good.fresh d);
}

exits-IsSound :
    (c : ℕ) (e : Option String) (k : ExitCode) (m : Manager)
    → IsSound m
    → m.phase c ≡ waiting
    → IsSound (child_exited c e k m)
unfolding child_exited set_phase
exits-IsSound c e k m good at =
    let here = good.alive c at in
    record {
      alive = λ d h. ground (arith, good.alive d);
      current_alive = λ d h. cc;
      attached = λ h h'. cc;
      gone = λ d h h'. ground (arith, good.gone d h);
      known = good.known;
      fresh = λ d h. ground (arith, good.fresh d);
    }

announces-IsSound :
    (c n : ℕ) (k : ExitCode) (m : Manager)
    → IsSound m
    → m.phase c ≡ exited n k
    → IsSound (record m { finished = c ∷ m.finished; phase = set_phase c (announced n k) m.phase })
unfolding set_phase
announces-IsSound c n k m good at = record {
  alive = λ d h. ground (arith, good.alive d);
  current_alive = λ d h. ground (arith, good.current_alive d h);
  attached = good.attached;
  gone = λ d h h'. ground (arith, good.gone d);
  known = λ d h. ground (arith, good.known d, good.fresh c);
  fresh = λ d h. ground (arith, good.fresh d);
}

-- The invariant reads none of the other fields.
reread :
    {f : Option Failure} {t : Buffer RestartEvent} {xs ys zs : List ℕ} {n k : ℕ} {o : Option ℕ}
    (m : Manager)
    → IsSound m
    → IsSound (record m {
      last_error = f;
      tracker = t;
      stopped = xs;
      stopping = ys;
      leaving = zs;
      restart_count = n;
      cumulative_restarts = k;
      saved = o;
    })
reread m good = record {
  alive = good.alive;
  current_alive = good.current_alive;
  attached = good.attached;
  gone = good.gone;
  known = good.known;
  fresh = good.fresh;
}

counted-IsSound :
    (c n : ℕ) (saves : Bool) (m : Manager)
    → IsSound m
    → m.phase c ≡ sleeping n
    → IsSound (count_restart c saves m)
unfolding count_restart
counted-IsSound c n saves m good at =
    reread (record m { phase = set_phase c returned m.phase })
      (moved-IsSound c returned m good (λ h. cc) (λ h. cc) (λ h. cc))

pub kept-IsSound : Keeps true IsSound
unfolding count_restart
kept-IsSound = record {
  attach = λ m good still. record {
    alive = good.alive;
    current_alive = λ c h. ground (arith, no_child m good still);
    attached = λ h h'. refl;
    gone = good.gone;
    known = good.known;
    fresh = good.fresh;
  };
  not_external = λ m good still. record {
    alive = good.alive;
    current_alive = λ c h. ground (arith, no_child m good still);
    attached = λ h h'. cc;
    gone = good.gone;
    known = good.known;
    fresh = good.fresh;
  };
  spawns = λ now m _ good still. spawn-IsSound true now m good still;
  respawns = λ c n now saves m good at still.
      spawn-IsSound false now (count_restart c saves m) (counted-IsSound c n saves m good at) still;
  detach = λ c m good live external. absurd (ground (arith, good.current_alive c live));
  asks = λ c m good. reread m good;
  closed = λ c l m good. reread m good;
  left = λ l m good. reread m good;
  exits = exits-IsSound;
  announces = announces-IsSound;
  returns = λ c n k m good at. moved-IsSound c returned m good (λ h. cc) (λ h. cc) (λ h. cc);
  sleeps = λ c n k m good at _ _. moved-IsSound c (sleeping n) m good (λ h. cc) (λ h. cc) (λ h. cc);
  counts = counted-IsSound;
  pushed = λ t m good. reread m good;
  fails = λ e m good. reread m good;
}
