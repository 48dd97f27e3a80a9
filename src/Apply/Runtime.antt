-- ===== src/Apply/Runtime.antt =====
-- internal/service/apply_runtime.go, apply_coordinator.go, apply_revision.go: the transaction of a
-- coordinator. It stages a structured configuration, applies, restarts the runtime, waits for it,
-- and rolls back where that fails.
pub mod Recovery
pub mod Guarantees
use nrcc.Base.{
  ℕ, suc, String, Bool, true, false, Option, none, some, Result, ok, err, if◌then◌else◌, str_eq,
  not,
}
use nrcc.Apply.{
  World, Action, Outside, Cause, Stage, SourceRevision, validate, restart, ready, rollback,
  apply_success, apply_failure, source_revision_mismatch, unsupported_adapter, joined, next_tick,
  result_of, emit,
}
use nrcc.Apply.Revision.{revision_matches}
use nrcc.Apply.Service.{
  StructuredApplyInput, ConfigService, ApplyRequest, ApplyResult, ApplyError, MirrorSnapshot,
  get_raw_settings,
}
use nrcc.Apply.Pipeline.{apply_validate, apply}
use nrcc.Apply.Rollback.{RollbackRequest, RollbackError, execute_rollback}

-- What the adapter reports: the stage that failed, with its error.
pub record AdapterFailure : Type 0 where
  pub stage : Stage
  pub cause : Cause

-- The error of an apply that failed, after what was staged was restored.
abbrev pub restored_error : ApplyError → Option Cause → ApplyError
restored_error e none = e
restored_error e (some r) = record { stage = rollback; cause = joined e.cause r }

module _ {S Config Patch : Type 0} (sha256_hex : String → String) (out : Outside)
    (svc : ConfigService S Config Patch) where
  -- `CheckRevisionPrecondition`: no expected fingerprint, no check.
  unfoldable pub check_revision_precondition : ApplyRequest Config Patch → Action S (Unit {0})
  check_revision_precondition req w = elim (out.cancelled w.tick) [
    | some e ↦ (next_tick w, err e)
    | none ↦
        if str_eq req.expected.fingerprint ""
        then (next_tick w, ok tt)
        else let (w', live) = get_raw_settings sha256_hex out svc (next_tick w) in
          (
            w',
            elim live [
              | err e ↦ err e
              | ok revision ↦
                  if revision_matches req.expected revision
                  then ok tt
                  else err source_revision_mismatch
            ],
          )
  ]

  -- The request with the committed content, after `stageStructured`.
  abbrev pub Staged : Type 0
  Staged = Option (StructuredApplyInput Config) × ApplyRequest Config Patch

  -- How `stageStructured` takes up a commit: its content and backup directory go into the request.
  unfoldable pub take_up :
      Option Config
      → ApplyRequest Config Patch
      → World S
      → S × Result Cause (StructuredApplyInput Config)
      → World S × Result ApplyError Staged
  take_up given req w (store', ok state) = (
    record w { store = store'; tick = suc w.tick },
    ok (
      some state,
      record req {
        content = state.content;
        backup_dir = state.backup_dir;
        structured_config = elim given [ none ↦ some state.committed | some c ↦ some c ];
      },
    ),
  )
  take_up given req w (store', err e) = (
    emit out (apply_failure validate e) (record w { store = store'; tick = suc w.tick }),
    err (record { stage = validate; cause = e }),
  )

  -- `stageStructured`: a patch goes before a whole configuration, and the configuration that it was
  -- merged to takes the place of the request's; a raw apply stages nothing.
  unfoldable pub stage_structured :
      ApplyRequest Config Patch → World S → World S × Result ApplyError Staged
  unfolding take_up
  stage_structured req w = elim req.structured_patch [
    | some patch ↦ take_up none req w (svc.commit_structured_patch w.tick patch w.store)
    | none ↦ elim req.structured_config [
      | some c ↦ take_up (some c) req w (svc.commit_structured w.tick c w.store)
      | none ↦ (w, ok (none, req))
    ]
  ]

  -- `RestoreStructured` of what was staged, if anything was.
  unfoldable pub restore_staged : ℕ → Option (StructuredApplyInput Config) → S → S × Option Cause
  restore_staged tick none store = (store, none)
  restore_staged tick (some state) store = svc.restore_structured tick state store

  -- The restored store, with the error extended by what the restoration reported.
  unfoldable pub fail_restored :
      {A : Type 0}
      → Option (StructuredApplyInput Config)
      → (Option Cause → ApplyError)
      → World S
      → World S × Result ApplyError A
  unfolding restore_staged
  fail_restored state error w =
      let (store', failure) = restore_staged w.tick state w.store in
      (record w { store = store'; tick = suc w.tick }, err (error failure))

  -- The `RestoreState` of a recovery: what was staged, then the mirror of a raw apply.
  unfoldable pub restore_state :
      ℕ
      → Option (StructuredApplyInput Config)
      → Option (MirrorSnapshot Config)
      → S
      → S × Option Cause
  restore_state tick state mirror store =
      let (store', failure) = restore_staged tick state store in
      elim failure [
        | some e ↦ (store', some e)
        | none ↦ elim mirror [
          | none ↦ (store', none)
          | some m ↦ svc.restore_mirror (suc tick) m store'
        ]
      ]

  -- The restart and the readiness probe, each with a look at the context after it.
  unfoldable pub run_adapter : World S → World S × Option AdapterFailure
  run_adapter w = elim (out.restart_error w.tick) [
    | some e ↦ (next_tick w, some (record { stage = restart; cause = e }))
    | none ↦ elim (out.cancelled (suc w.tick)) [
      | some e ↦ (next_tick (next_tick w), some (record { stage = restart; cause = e }))
      | none ↦
          let probed = next_tick (next_tick w) in
          elim (out.ready_error probed.tick) [
            | some e ↦ (next_tick probed, some (record { stage = ready; cause = e }))
            | none ↦ (
              next_tick (next_tick probed),
              elim (out.cancelled (suc probed.tick)) [
                | some e ↦ some (record { stage = ready; cause = e })
                | none ↦ none
              ],
            )
          ]
    ]
  ]

  -- The recovery after a failure of the adapter.
  unfoldable pub recover :
      {A : Type 0}
      → ApplyRequest Config Patch
      → Option (StructuredApplyInput Config)
      → ApplyResult Config
      → AdapterFailure
      → World S
      → World S × Result ApplyError A
  recover req state result failure w =
      let request : RollbackRequest S = record {
        backup_path = result.backup_path;
        active_path = req.path;
        stage = failure.stage;
        has_adapter = true;
        restore_state = some (restore_state w.tick state result.mirror);
      } in
      let (w', recovered) = execute_rollback out request w in
      let cause : Cause = elim recovered [
        | ok _ ↦ failure.cause
        | err r ↦ joined failure.cause r.cause
      ] in
      (
        emit out (apply_failure failure.stage cause) w',
        err (record { stage = failure.stage; cause = cause }),
      )

  -- `applyRuntime` after the staging.
  unfoldable pub runtime_stages :
      Option (StructuredApplyInput Config)
      → ApplyRequest Config Patch
      → World S
      → World S × Result ApplyError (ApplyResult Config)
  runtime_stages state req w =
      let (w1, checked) = apply_validate sha256_hex out svc req w in
      elim checked [
        | err e ↦
            fail_restored state
              (λ failure. record {
                stage = validate;
                cause = elim failure [ none ↦ e | some r ↦ joined e r ];
              })
              w1
        | ok _ ↦
            let (w2, applied) = apply sha256_hex out svc req false w1 in
            elim applied [
              | err e ↦ fail_restored state (restored_error e) w2
              | ok result ↦
                  let (w3, failure) = run_adapter w2 in
                  elim failure [
                    | some f ↦ recover req state result f w3
                    | none ↦ (
                      emit out (apply_success ready) w3,
                      ok (elim state [
                        | none ↦ result
                        | some s ↦ record result { configuration = some s.committed }
                      ]),
                    )
                  ]
            ]
      ]

  -- `applyRuntime`; resolving an adapter may fail or find none.
  unfoldable pub apply_runtime :
      (ApplyRequest Config Patch → Result Cause Bool)
      → ApplyRequest Config Patch
      → World S
      → World S × Result ApplyError (ApplyResult Config)
  apply_runtime resolve req w =
      let no_adapter : Cause → World S × Result ApplyError (ApplyResult Config) = λ e.
        (emit out (apply_failure validate e) w, err (record { stage = validate; cause = e })) in
      elim (resolve req) [
        | err e ↦ no_adapter e
        | ok false ↦ no_adapter unsupported_adapter
        | ok true ↦
            let (w1, begun) = stage_structured req w in
            elim begun [ err e ↦ (w1, err e) | ok (state, req') ↦ runtime_stages state req' w1 ]
      ]
