-- ===== src/Apply/Flight/Exclusion.antt =====
-- internal/service/apply_coordinator.go: any number of callers, interleaved at their calls of
-- `acquire` and at the two halves of `release`.
use nrcc.Base.{
  ℕ, suc, ◌≤◌, ◌<◌, ◌≡◌, refl, sym, ◌∙◌, ap, inl, inr, ◌⊎◌, String, true, false, ◌&&◌, none, some,
  List, [], ◌∷◌, Result, ok, err, arith, if◌then◌else◌, ◌==◌, str_eq, eq_iff, length, subst,
  Bool-cases, Option-cases,
}
use nrcc.Base.Assoc.{lookup, insert, erase, lookup-insert, lookup-erase}
use nrcc.Apply.{Cause, apply_in_flight}
use nrcc.Apply.Flight.{member, Flights, take_slot, acquire, vacate, close}

-- The flights, who is inside a transaction, and which flights wait for their channel to close.
pub record System : Type 0 where
  pub flights : Flights
  pub holding : List (String × ℕ)
  pub leaving : List ℕ

-- The flights that are inside a transaction on a path.
unfoldable pub of_path : String → List (String × ℕ) → List ℕ
of_path p [] = []
of_path p ((q, f) ∷ held) = if str_eq q p then f ∷ of_path p held else of_path p held

without : ℕ → List ℕ → List ℕ
without f [] = []
without f (g ∷ gs) = if g == f then without f gs else g ∷ without f gs

unfoldable leave : String → ℕ → List (String × ℕ) → List (String × ℕ)
leave p f [] = []
leave p f ((q, g) ∷ held) =
    if str_eq q p && (g == f) then leave p f held else (q, g) ∷ leave p f held

pub data Event : Type 0 where
  begin : String → Event
  unlock : String → ℕ → Event
  finish : ℕ → Event

abbrev entered : String → System → Flights × Result Cause ℕ → System
entered p s (fl, ok f) = record { flights = fl; holding = (p, f) ∷ s.holding; leaving = s.leaving }
entered p s (fl, err e) = record s { flights = fl }

-- One step; only who is inside can leave, and only a flight that left is closed.
unfoldable pub step : Event → System → System
unfolding leave
step (begin p) s = entered p s (acquire p s.flights)
step (unlock p f) s =
    if member f (of_path p s.holding)
    then record {
      flights = vacate p f s.flights;
      holding = leave p f s.holding;
      leaving = f ∷ s.leaving;
    }
    else s
step (finish f) s = if member f s.leaving then record s { flights = close f s.flights } else s

unfoldable pub run : List Event → System → System
run [] s = s
run (e ∷ es) s = run es (step e s)

-- A slot holds a flight that is known, open, and in that slot only; and a path has at most one
-- caller inside, the one of its slot.
pub record IsExclusive (s : System) : Type 0 where
  pub known : (p : String) (f : ℕ) → lookup p s.flights.slots ≡ some f → f < s.flights.next
  pub is_open :
      (p : String) (f : ℕ)
      → lookup p s.flights.slots ≡ some f
      → (member f s.flights.closed ≡ false) × (member f s.leaving ≡ false)
  pub one_slot :
      (p q : String) (f : ℕ)
      → lookup p s.flights.slots ≡ some f
      → lookup q s.flights.slots ≡ some f
      → str_eq p q ≡ true
  pub known_closed : (f : ℕ) → member f s.flights.closed ≡ true → f < s.flights.next
  pub known_leaving : (f : ℕ) → member f s.leaving ≡ true → f < s.flights.next
  pub inside :
      (p : String)
      → (of_path p s.holding ≡ [])
        ⊎ ((f : ℕ) × (of_path p s.holding ≡ f ∷ []) × (lookup p s.flights.slots ≡ some f))

of_path-leave :
    (p q : String) (f : ℕ) (held : List (String × ℕ))
    → of_path q (leave p f held)
      ≡ (if str_eq p q then without f (of_path q held) else of_path q held)
unfolding of_path leave without
of_path-leave p q f [] = ground arith
of_path-leave p q f ((r, g) ∷ held) =
    ground (arith, of_path-leave p q f held, eq_iff p q, eq_iff r p, eq_iff r q)

begin_free :
    (p : String) (s : System)
    → IsExclusive s
    → lookup p s.flights.slots ≡ none
    → IsExclusive (record {
      flights = record s.flights {
        slots = insert p s.flights.next s.flights.slots;
        next = suc s.flights.next;
      };
      holding = (p, s.flights.next) ∷ s.holding;
      leaving = s.leaving;
    })
unfolding of_path
begin_free p s good free =
    let slots = s.flights.slots in
    let n = s.flights.next in
    record {
      known = λ q f h. ground (arith, lookup-insert p q n slots, good.known q f);
      is_open = λ q f h. ground (
        arith,
        lookup-insert p q n slots,
        good.is_open q f,
        good.known_closed n,
        good.known_leaving n,
      );
      one_slot = λ q r f h h'. ground (
        arith,
        lookup-insert p q n slots,
        lookup-insert p r n slots,
        good.one_slot q r f,
        good.known q f,
        good.known r f,
        eq_iff p q,
        eq_iff p r,
        eq_iff q r,
      );
      known_closed = λ f h. ground (arith, good.known_closed f);
      known_leaving = λ f h. ground (arith, good.known_leaving f);
      inside = λ q. elim (Bool-cases (str_eq p q)) [
        | inl same ↦ rw same (elim (good.inside q) [
          | inl empty ↦ inr (n, ap (λ l. n ∷ l) empty, ground (arith, lookup-insert p q n slots))
          | inr (f, one, slot) ↦ absurd (ground (arith, eq_iff p q))
        ])
        | inr other ↦ rw other (elim (good.inside q) [
          | inl empty ↦ inl empty
          | inr (f, one, slot) ↦ inr (f, one, ground (arith, lookup-insert p q n slots))
        ])
      ];
    }

unlock_held :
    (p : String) (f : ℕ) (s : System)
    → IsExclusive s
    → of_path p s.holding ≡ f ∷ []
    → lookup p s.flights.slots ≡ some f
    → IsExclusive (record {
      flights = record s.flights { slots = erase p s.flights.slots };
      holding = leave p f s.holding;
      leaving = f ∷ s.leaving;
    })
unfolding without
unlock_held p f s good held slot =
    let slots = s.flights.slots in
    record {
      known = λ q g h. ground (arith, lookup-erase p q slots, good.known q g);
      is_open = λ q g h.
          ground (arith, lookup-erase p q slots, good.is_open q g, good.one_slot p q f, eq_iff p q);
      one_slot = λ q r g h h'.
          ground (arith, lookup-erase p q slots, lookup-erase p r slots, good.one_slot q r g);
      known_closed = λ g h. ground (arith, good.known_closed g);
      known_leaving = λ g h. ground (arith, good.known_leaving g, good.known p f);
      inside = λ q. elim (Bool-cases (str_eq p q)) [
        | inl same ↦ inl (ground (arith, of_path-leave p q f s.holding, eq_iff p q))
        | inr other ↦ elim (good.inside q) [
          | inl empty ↦ inl (ground (arith, of_path-leave p q f s.holding))
          | inr (g, one, kept) ↦ inr (
            g,
            ground (arith, of_path-leave p q f s.holding),
            ground (arith, lookup-erase p q slots),
          )
        ]
      ];
    }

finish_left :
    (f : ℕ) (s : System)
    → IsExclusive s
    → member f s.leaving ≡ true
    → IsExclusive (record s { flights = record s.flights { closed = f ∷ s.flights.closed } })
finish_left f s good left = record {
  known = good.known;
  is_open = λ p g h. ground (arith, good.is_open p g h);
  one_slot = good.one_slot;
  known_closed = λ g h. ground (arith, good.known_closed g, good.known_leaving f);
  known_leaving = good.known_leaving;
  inside = good.inside;
}

pub acquire_free :
    (p : String) (fl : Flights) → lookup p fl.slots ≡ none → acquire p fl ≡ take_slot p fl
unfolding acquire
acquire_free p fl free = rw (free, acquire) refl

pub acquire_busy :
    (p : String) (f : ℕ) (fl : Flights)
    → lookup p fl.slots ≡ some f
    → member f fl.closed ≡ false
    → acquire p fl ≡ (fl, err apply_in_flight)
unfolding acquire
acquire_busy p f fl busy opened = rw (busy, acquire, opened) refl

pub vacate_held :
    (p : String) (f : ℕ) (fl : Flights)
    → lookup p fl.slots ≡ some f
    → vacate p f fl ≡ record fl { slots = erase p fl.slots }
unfolding vacate
vacate_held p f fl held = let same : (f == f) ≡ true = ground arith in rw (held, vacate, same) refl

pub step-IsExclusive : (e : Event) (s : System) → IsExclusive s → IsExclusive (step e s)
unfolding step take_slot close
step-IsExclusive (begin p) s good = elim (Option-cases (lookup p s.flights.slots)) [
  | inl free ↦
      subst (λ a. IsExclusive (entered p s a)) (sym (acquire_free p s.flights free))
        (begin_free p s good free)
  | inr (f, busy) ↦
      let (opened, staying) = good.is_open p f busy in
      subst (λ a. IsExclusive (entered p s a)) (sym (acquire_busy p f s.flights busy opened)) good
]
step-IsExclusive (unlock p f) s good = elim (good.inside p) [
  | inl empty ↦ rw (empty, step) good
  | inr (g, held, slot) ↦ elim (Bool-cases (g == f)) [
    | inr other ↦ rw (held, step, other) good
    | inl same ↦
        let is_f : g ≡ f = ground arith in
        let held' = held ∙ ap (λ x. x ∷ []) is_f in
        let slot' = slot ∙ ap some is_f in
        let itself : (f == f) ≡ true = ground arith in
        rw (held', step, itself, vacate_held p f s.flights slot')
          (unlock_held p f s good held' slot')
  ]
]
step-IsExclusive (finish f) s good = elim (Bool-cases (member f s.leaving)) [
  | inl left ↦ rw (left, step) (finish_left f s good left)
  | inr staying ↦ rw (staying, step) good
]

run-IsExclusive : (es : List Event) (s : System) → IsExclusive s → IsExclusive (run es s)
unfolding run
run-IsExclusive [] s good = good
run-IsExclusive (e ∷ es) s good = run-IsExclusive es (step e s) (step-IsExclusive e s good)

-- A coordinator before its first call.
abbrev pub idle : System
idle = record { flights = record { slots = []; closed = []; next = 0 }; holding = []; leaving = [] }

idle-IsExclusive : IsExclusive idle
unfolding of_path lookup
idle-IsExclusive = record {
  known = λ p f h. cc;
  is_open = λ p f h. cc;
  one_slot = λ p q f h h'. cc;
  known_closed = λ f h. cc;
  known_leaving = λ f h. cc;
  inside = λ p. inl refl;
}

-- However the callers' steps interleave, at most one of them is inside a transaction on a path.
pub at_most_one_inside :
    (es : List Event) (p : String) → length (of_path p (run es idle).holding) ≤ 1
at_most_one_inside es p = elim ((run-IsExclusive es idle idle-IsExclusive).inside p) [
  | inl empty ↦ rw empty (omega arith)
  | inr (f, held, slot) ↦ rw held (omega arith)
]
