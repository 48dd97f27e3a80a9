-- ===== src/Apply/Flight.antt =====
-- internal/service/apply_coordinator.go: one transaction at a time for a path.
pub mod Exclusion
pub mod Release
use nrcc.Base.{
  ℕ, suc, ◌+◌, ◌≡◌, String, Bool, true, false, ◌&&◌, ◌||◌, Option, none, some, List, [], ◌∷◌,
  Result, ok, err, if◌then◌else◌, ◌==◌, str_eq,
}
use nrcc.Base.Assoc.{lookup, insert, erase}
use nrcc.Apply.{
  World, Outside, Cause, SourceRevision, validate, path_required, apply_in_flight,
  coordinator_failure, emit,
}
use nrcc.Apply.Service.{ConfigService, ApplyRequest, ApplyResult, ApplyError}
use nrcc.Apply.Pipeline.{apply}
use nrcc.Apply.Runtime.{
  check_revision_precondition, stage_structured, fail_restored, restored_error, apply_runtime,
}

abbrev pub member : ℕ → List ℕ → Bool
member f [] = false
member f (g ∷ gs) = (g == f) || member f gs

-- `ApplyCoordinator`'s flights: a flight is a number in place of a pointer, and `closed` has those
-- whose channel is closed.
pub record Flights : Type 0 where
  pub slots : List (String × ℕ)
  pub closed : List ℕ
  pub next : ℕ

-- A new flight in the slot of the path.
unfoldable pub take_slot : String → Flights → Flights × Result Cause ℕ
take_slot path fl =
    (record fl { slots = insert path fl.next fl.slots; next = suc fl.next }, ok fl.next)

-- `acquire`
unfoldable pub acquire : String → Flights → Flights × Result Cause ℕ
unfolding take_slot
acquire path fl = elim (lookup path fl.slots) [
  | none ↦ take_slot path fl
  | some f ↦ if member f fl.closed then take_slot path fl else (fl, err apply_in_flight)
]

-- `release` under the lock.
unfoldable pub vacate : String → ℕ → Flights → Flights
vacate path f fl = elim (lookup path fl.slots) [
  | none ↦ fl
  | some g ↦ if g == f then record fl { slots = erase path fl.slots } else fl
]

-- `release` after the lock was given back.
unfoldable pub close : ℕ → Flights → Flights
close f fl = record fl { closed = f ∷ fl.closed }

-- `release`
unfoldable pub release : String → ℕ → Flights → Flights
unfolding vacate close
release path f fl = close f (vacate path f fl)

module _ {S Config Patch : Type 0} (sha256_hex : String → String) (out : Outside)
    (svc : ConfigService S Config Patch) where
  abbrev pub Answer : Type 0
  Answer = World S × Result ApplyError (ApplyResult Config)

  -- The end of `Apply` without a runtime.
  unfoldable pub apply_staged : ApplyRequest Config Patch → World S → Answer
  apply_staged req w =
      let (w1, begun) = stage_structured sha256_hex out svc req w in
      elim begun [
        | err e ↦ (w1, err e)
        | ok (state, req') ↦
            let (w2, applied) = apply sha256_hex out svc req' true w1 in
            elim applied [
              | err e ↦ elim state [
                | none ↦ (w2, err e)
                | some s ↦ fail_restored sha256_hex out svc (some s) (restored_error e) w2
              ]
              | ok result ↦ (
                w2,
                ok (elim state [
                  | none ↦ result
                  | some s ↦ record result { configuration = some s.committed }
                ]),
              )
            ]
      ]

  -- A conflict of revisions has an error type of its own in the source, `RevisionConflictError`; here
  -- it is the validate stage's error with that cause.
  abbrev refuse : Cause → World S → Answer
  refuse e w =
      (emit out (coordinator_failure "validate" e) w, err (record { stage = validate; cause = e }))

  -- The preview of a patch, wanted by a runtime where no configuration came with it.
  unfoldable pub with_preview :
      ApplyRequest Config Patch → World S → Result Cause (ApplyRequest Config Patch)
  with_preview req w = elim req.structured_patch [
    | none ↦ ok req
    | some patch ↦ elim req.structured_config [
      | some c ↦ ok req
      | none ↦ elim (svc.preview_structured_patch w.tick patch w.store) [
        | err e ↦ err e
        | ok preview ↦ ok (record req { structured_config = some preview })
      ]
    ]
  ]

  -- What `Apply` does in its slot; without a resolver there is no runtime.
  unfoldable pub apply_in_slot :
      Option (ApplyRequest Config Patch → Result Cause Bool)
      → ApplyRequest Config Patch
      → World S
      → Answer
  unfolding with_preview
  apply_in_slot resolver req w =
      let (w1, checked) = check_revision_precondition sha256_hex out svc req w in
      elim checked [
        | err e ↦ refuse e w1
        | ok _ ↦ elim resolver [
          | none ↦ apply_staged req w1
          | some resolve ↦
              let w1' = record w1 { tick = suc w1.tick } in
              elim (with_preview req w1) [
                | err e ↦ refuse e w1'
                | ok req' ↦ apply_runtime sha256_hex out svc resolve req' w1'
              ]
        ]
      ]

  -- `Apply` from the answer of `acquire` on.
  abbrev pub with_slot :
      Option (ApplyRequest Config Patch → Result Cause Bool)
      → ApplyRequest Config Patch
      → World S
      → Flights × Result Cause ℕ
      → (Flights × World S) × Result Cause (Result ApplyError (ApplyResult Config))
  with_slot resolver req w (fl, err e) = ((fl, emit out (coordinator_failure "start" e) w), err e)
  with_slot resolver req w (fl, ok f) =
      let (w', answer) = apply_in_slot resolver req w in ((release req.path f fl, w'), ok answer)

  -- `ApplyCoordinator.Apply`; its slot is released whatever happens in it. That a transaction is in
  -- flight is no `ApplyError`.
  unfoldable pub coordinated_apply :
      Option (ApplyRequest Config Patch → Result Cause Bool)
      → ApplyRequest Config Patch
      → Flights × World S
      → (Flights × World S) × Result Cause (Result ApplyError (ApplyResult Config))
  coordinated_apply resolver req (fl, w) =
      if str_eq req.path ""
      then (let (w', answer) = refuse path_required w in ((fl, w'), ok answer))
      else with_slot resolver req w (acquire req.path fl)
