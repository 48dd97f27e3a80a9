-- ===== src/Process/Kept.antt =====
-- internal/service/process_linux.go: a predicate that each change of the state keeps is kept by every
-- step, and so along a run.
use nrcc.Base.{
  ℕ, ◌≡◌, refl, sym, ap, ◌∙◌, subst, inl, inr, String, Bool, true, false, Option, none, some, List,
  [], ◌∷◌, Result, ok, err, arith, ◌==◌, ◌&&◌, Bool-cases, Option-cases, Result-cases, leb,
  remove_first,
}
use nrcc.Apply.Flight.{member}
use nrcc.Ring.{push}
use nrcc.Process.{
  Manager, ExitCode, StartError, Failure, Phase, waiting, exited, announced, sleeping, returned,
  Launch, launch_error, set_phase, spawn, start_stopped, start_locked, stop_locked, close_stop,
  max_restarts,
}
use nrcc.Process.Exit.{exit_event, child_exited, decide, count_restart, record_start, wake}
use nrcc.Process.Traces.{
  Event, start, stop, closes, leaves, exits, announces, decides, wakes, step, run,
}
use nrcc.Process.Steps.{Keeps}

-- Whether an event may happen where users start the process or do not.
abbrev pub allowed : Bool → Event → Bool
allowed users (start l) = users
allowed users _ = true

abbrev pub all_allowed : Bool → List Event → Bool
all_allowed users [] = true
all_allowed users (e ∷ es) = allowed users e && all_allowed users es

module _ {users : Bool} {P : Manager → Type 0} (kept : Keeps users P) where
  start_stopped_kept :
      (reset : Bool) (l : Launch) (m : Manager)
      → (m.running ≡ false → P (spawn reset l.now m))
      → P m
      → m.running ≡ false
      → P (start_stopped reset l m).0
  unfolding start_stopped
  start_stopped_kept reset l m may p still = elim (Result-cases l.runtime) [
    | inr (e, bad) ↦ rw (bad, start_stopped) p
    | inl (port, fine) ↦ elim (Bool-cases (l.port_in_use port)) [
      | inl taken ↦ rw (fine, start_stopped, taken) (kept.attach m p still)
      | inr free ↦ elim (Option-cases (launch_error l)) [
        | inl started ↦ rw (fine, start_stopped, free, started) (may still)
        | inr (e, failed) ↦ rw (fine, start_stopped, free, failed) (kept.not_external m p still)
      ]
    ]
  ]

  start_locked_kept :
      (reset : Bool) (l : Launch) (m m' : Manager) (r : Result StartError (Unit {0}))
      → (m.running ≡ false → P (spawn reset l.now m))
      → P m
      → start_locked reset l m ≡ some (m', r)
      → P m'
  unfolding start_locked
  start_locked_kept reset l m m' r may p h = elim (Bool-cases m.running) [
    | inr still ↦
        let answer : start_locked reset l m ≡ some (start_stopped reset l m) =
          rw (still, start_locked) refl in
        let same : start_stopped reset l m ≡ (m', r) = cc in
        subst P (ap (λ x. x.0) same) (start_stopped_kept reset l m may p still)
    | inl runs ↦ elim (Option-cases m.current) [
      | inl gone ↦
          let answer : start_locked reset l m ≡ none = simp (runs, start_locked, gone) in cc
      | inr (c, live) ↦
          let answer : start_locked reset l m ≡ some (m, err (StartError.already_running c)) =
            simp (runs, start_locked, live) in
          let same : m ≡ m' = cc in subst P same p
    ]
  ]

  landed : (v m' : Manager) (o : Option Manager) → o ≡ some v → o ≡ some m' → P v → P m'
  landed v m' o is_v is_m' p = let same : v ≡ m' = cc in subst P same p

  decide_kept :
      (c n : ℕ) (k : ExitCode) (timestamp : String) (m m' : Manager)
      → P m
      → m.phase c ≡ announced n k
      → decide c n k timestamp m ≡ some m'
      → P m'
  unfolding decide
  decide_kept c n k timestamp m m' p at h = elim (Bool-cases (member c m.stopped)) [
    | inl meant ↦
        landed (record m { phase = set_phase c returned m.phase }) m' (decide c n k timestamp m)
          (rw (meant, decide) refl) h (kept.returns c n k m p at)
    | inr crash ↦ elim (Option-cases (push (exit_event n k timestamp) m.tracker)) [
      | inl panics ↦
          let answer : decide c n k timestamp m ≡ none = simp (crash, decide, panics) in cc
      | inr (t, kept_event) ↦ elim (Bool-cases (leb max_restarts n)) [
        | inl gives_up ↦
            landed (record m { tracker = t; phase = set_phase c returned m.phase }) m'
              (decide c n k timestamp m) (simp (crash, decide, kept_event, gives_up)) h
              (kept.pushed t (record m { phase = set_phase c returned m.phase })
                (kept.returns c n k m p at))
        | inr again ↦
            landed (record m { tracker = t; phase = set_phase c (sleeping n) m.phase }) m'
              (decide c n k timestamp m) (simp (crash, decide, kept_event, again)) h
              (kept.pushed t (record m { phase = set_phase c (sleeping n) m.phase })
                (kept.sleeps c n k m p at crash again))
      ]
    ]
  ]

  recorded_kept : (m : Manager) (r : Result StartError (Unit {0})) → P m → P (record_start (m, r))
  unfolding record_start
  recorded_kept m (ok _) p = p
  recorded_kept m (err e) p = kept.fails (some (Failure.start_failure e)) m p

  wake_kept :
      (c n : ℕ) (saves : Bool) (l : Launch) (m m' : Manager)
      → P m
      → m.phase c ≡ sleeping n
      → wake c saves l m ≡ some m'
      → P m'
  unfolding wake count_restart
  wake_kept c n saves l m m' p at h =
      elim (Option-cases (start_locked false l (count_restart c saves m))) [
        | inl panics ↦ let answer : wake c saves l m ≡ none = rw (panics, wake) refl in cc
        | inr ((m1, r), answers) ↦
            landed (record_start (m1, r)) m' (wake c saves l m) (rw (answers, wake) refl) h (
              recorded_kept m1 r (
                start_locked_kept false l (count_restart c saves m) m1 r
                  (kept.respawns c n l.now saves m p at) (kept.counts c n saves m p at) answers))
      ]

  stop_kept : (m : Manager) → P m → P (stop_locked m)
  unfolding stop_locked
  stop_kept m p = elim (Bool-cases m.running) [
    | inr still ↦ subst P (simp (still, stop_locked)) p
    | inl runs ↦ elim (Option-cases m.current) [
      | inl gone ↦ subst P (simp (runs, stop_locked, gone)) p
      | inr (c, live) ↦ elim (Bool-cases m.external_mode) [
        | inl external ↦
            subst P (simp (runs, stop_locked, live, external)) (kept.detach c m p live external)
        | inr child ↦ subst P (simp (runs, stop_locked, live, child)) (kept.asks c m p)
      ]
    ]
  ]

  exits_kept :
      (c : ℕ) (e : Option String) (k : ExitCode) (m m' : Manager) (ph : Phase)
      → P m
      → m.phase c ≡ ph
      → (elim ph [ waiting ↦ some (child_exited c e k m) | _ ↦ some m ]) ≡ some m'
      → P m'
  exits_kept c e k m m' waiting p at h =
      landed (child_exited c e k m) m' (some (child_exited c e k m)) refl h
        (kept.exits c e k m p at)
  exits_kept c e k m m' _ p at h = landed m m' (some m) refl h p

  announces_kept :
      (c : ℕ) (m m' : Manager) (ph : Phase)
      → P m
      → m.phase c ≡ ph
      → (elim ph [
        | exited n k ↦
            some
              (record m { finished = c ∷ m.finished; phase = set_phase c (announced n k) m.phase })
        | _ ↦ some m
      ])
        ≡ some m'
      → P m'
  announces_kept c m m' (exited n k) p at h =
      landed (record m { finished = c ∷ m.finished; phase = set_phase c (announced n k) m.phase })
        m'
        (some (record m { finished = c ∷ m.finished; phase = set_phase c (announced n k) m.phase }))
        refl h (kept.announces c n k m p at)
  announces_kept c m m' _ p at h = landed m m' (some m) refl h p

  decides_kept :
      (c : ℕ) (timestamp : String) (m m' : Manager) (ph : Phase)
      → P m
      → m.phase c ≡ ph
      → (elim ph [ announced n k ↦ decide c n k timestamp m | _ ↦ some m ]) ≡ some m'
      → P m'
  decides_kept c timestamp m m' (announced n k) p at h = decide_kept c n k timestamp m m' p at h
  decides_kept c timestamp m m' _ p at h = landed m m' (some m) refl h p

  wakes_kept :
      (c : ℕ) (saves : Bool) (l : Launch) (m m' : Manager) (ph : Phase)
      → P m
      → m.phase c ≡ ph
      → (elim ph [ sleeping n ↦ wake c saves l m | _ ↦ some m ]) ≡ some m'
      → P m'
  wakes_kept c saves l m m' (sleeping n) p at h = wake_kept c n saves l m m' p at h
  wakes_kept c saves l m m' _ p at h = landed m m' (some m) refl h p

  closes_kept : (c : ℕ) (m m' : Manager) → P m → close_stop c m ≡ some m' → P m'
  unfolding close_stop
  closes_kept c m m' p h = elim (Bool-cases (member c m.stopped)) [
    | inl twice ↦ let answer : close_stop c m ≡ none = rw (twice, close_stop) refl in cc
    | inr once ↦
        let waits = remove_first (λ d. d == c) m.stopping in
        landed (record m { stopped = c ∷ m.stopped; stopping = waits; leaving = c ∷ m.leaving }) m'
          (close_stop c m) (rw (once, close_stop) refl) h (kept.closed c waits m p)
  ]

  pub start_kept :
      (l : Launch) (m m' : Manager)
      → (m.running ≡ false → P (spawn true l.now m))
      → P m
      → step (start l) m ≡ some m'
      → P m'
  unfolding step
  start_kept l m m' may p h = elim (Option-cases (start_locked true l m)) [
    | inl panics ↦ let answer : step (start l) m ≡ none = rw (panics, step) refl in cc
    | inr ((m1, r), answers) ↦
        landed m1 m' (step (start l) m) (rw (answers, step) refl) h
          (start_locked_kept true l m m1 r may p answers)
  ]

  step_kept :
      (e : Event) (m m' : Manager) → allowed users e ≡ true → P m → step e m ≡ some m' → P m'
  unfolding step
  step_kept (start l) m m' may p h = start_kept l m m' (kept.spawns l.now m may p) p h
  step_kept stop m m' may p h = landed (stop_locked m) m' (step stop m) refl h (stop_kept m p)
  step_kept (closes c) m m' may p h = elim (Bool-cases (member c m.stopping)) [
    | inl asked ↦ closes_kept c m m' p (ground (arith, h))
    | inr other ↦ landed m m' (step (closes c) m) (rw (other, step) refl) h p
  ]
  step_kept (leaves c) m m' may p h =
      elim (Bool-cases (member c m.leaving && member c m.finished)) [
        | inl done ↦
            let rest = remove_first (λ d. d == c) m.leaving in
            landed (record m { leaving = rest }) m' (step (leaves c) m) (rw (done, step) refl) h
              (kept.left rest m p)
        | inr waits ↦ landed m m' (step (leaves c) m) (rw (waits, step) refl) h p
      ]
  step_kept (exits c e k) m m' may p h = exits_kept c e k m m' (m.phase c) p refl h
  step_kept (announces c) m m' may p h = announces_kept c m m' (m.phase c) p refl h
  step_kept (decides c timestamp) m m' may p h = decides_kept c timestamp m m' (m.phase c) p refl h
  step_kept (wakes c saves l) m m' may p h = wakes_kept c saves l m m' (m.phase c) p refl h

  -- What every change keeps holds all along a run.
  pub run_kept :
      (es : List Event) (m m' : Manager)
      → all_allowed users es ≡ true
      → P m
      → run es m ≡ some m'
      → P m'
  unfolding run
  run_kept [] m m' may p h = let same : m ≡ m' = cc in subst P same p
  run_kept (e ∷ es) m m' may p h = elim (Option-cases (step e m)) [
    | inl panics ↦ let answer : run (e ∷ es) m ≡ none = rw (panics, run) refl in cc
    | inr (m1, next) ↦
        let rest : run (e ∷ es) m ≡ run es m1 = rw (next, run) refl in
        run_kept es m1 m' (ground arith) (step_kept e m m1 (ground arith) p next) (sym rest ∙ h)
  ]
