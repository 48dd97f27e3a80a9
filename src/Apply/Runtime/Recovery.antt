-- ===== src/Apply/Runtime/Recovery.antt =====
-- internal/service/apply_runtime.go: what a transaction with a runtime leaves of the settings file.
use nrcc.Base.{
  suc, ◌≡◌, refl, sym, ◌∙◌, ap, subst, inl, inr, ◌⊎◌, String, Bool, true, false, Option, none, some,
  Result, ok, err, Option-cases, Result-cases,
}
use nrcc.Base.Assoc.{lookup}
use nrcc.Apply.{
  FileMap, World, Outside, Cause, Stage, validate, backup, write, reconcile, restart, ready,
  apply_success, apply_failure, joined, emit, apply_backup, apply_write,
}
use nrcc.Apply.Files.{atomic_write_settings}
use nrcc.Apply.Service.{StructuredApplyInput, ConfigService, ApplyRequest, ApplyResult, ApplyError}
use nrcc.Apply.Pipeline.{
  apply_validate, apply_backup_stage, apply_reconcile_stage, staged, apply, finish, result_for,
}
use nrcc.Apply.Pipeline.Stages.{emit_still, staged_rule, apply_validate_still}
use nrcc.Apply.Pipeline.Atomic.{
  Outcome, apply-Outcome, from_reconcile, other_path, moved, stopped_early,
}
use nrcc.Apply.Rollback.{RollbackRequest, RollbackError, execute_rollback}
use nrcc.Apply.Rollback.Restores.{KeepsOthers, execute_rollback_restores}
use nrcc.Apply.Runtime.{
  AdapterFailure, restore_state, fail_restored, run_adapter, recover, runtime_stages,
  restored_error,
}

-- The stages that only a runtime adds, as a test.
abbrev pub runtime_stage : Stage → Bool
runtime_stage restart = true
runtime_stage ready = true
runtime_stage _ = false

abbrev pub runtime_error : {A : Type 0} → Result ApplyError A → Bool
runtime_error (ok a) = false
runtime_error (err e) = runtime_stage e.stage

module _ {S Config Patch : Type 0} (sha256_hex : String → String) (out : Outside)
    (svc : ConfigService S Config Patch) where
  -- What a caller learns of a failure of the adapter that was met at `before`, and what became of the
  -- content that was live at the path.
  pub record Recovered (path old : String) (e : ApplyError) (files : FileMap) : Type 0 where
    pub before : World S
    pub failure : AdapterFailure
    pub failed : (run_adapter sha256_hex out svc before).1 ≡ some failure
    pub at_stage : e.stage ≡ failure.stage
    pub outcome :
        ((e.cause ≡ failure.cause) × (lookup path files ≡ some old))
        ⊎ ((request : RollbackRequest S) × (b : RollbackError) × (request.active_path ≡ path)
            × (lookup request.backup_path (run_adapter sha256_hex out svc before).0.files
                ≡ some old)
            × ((execute_rollback out request (run_adapter sha256_hex out svc before).0).1 ≡ err b)
            × (e.cause ≡ joined failure.cause b.cause))

module _ {S Config Patch : Type 0} (sha256_hex : String → String) (out : Outside)
    (svc : ConfigService S Config Patch) (req : ApplyRequest Config Patch) where
  Fine : World S × Result ApplyError (ApplyResult Config) → Type 0
  Fine r = runtime_error r.1 ≡ false

  stage-Fine :
      {A : Type 0} (stage : Stage) (r : World S × Result Cause A)
      (next : A → World S → World S × Result ApplyError (ApplyResult Config))
      → runtime_stage stage ≡ false
      → ((a : A) (w : World S) → Fine (next a w))
      → Fine (staged sha256_hex out svc stage r next)
  unfolding Fine
  stage-Fine stage r next other fine =
      staged_rule sha256_hex out svc Fine stage r next (λ a _. fine a r.0) (λ e _. other)

  -- An apply fails at none of the runtime's stages.
  apply_stages :
      (emit_success : Bool) (w : World S) → Fine (apply sha256_hex out svc req emit_success w)
  unfolding apply Fine
  apply_stages emit_success w = stage-Fine validate _ _ refl λ _ w1.
      stage-Fine validate (apply_validate sha256_hex out svc req w1) _ refl λ _ w2.
        stage-Fine backup (apply_backup_stage sha256_hex out svc req w2) _ refl λ live w3.
          stage-Fine write
            (atomic_write_settings out req.path req.content (emit out apply_backup w3))
            (λ _ w4.
              from_reconcile sha256_hex out svc req emit_success live (emit out apply_write w4))
            refl
            λ _ w4.
              stage-Fine reconcile
                (apply_reconcile_stage sha256_hex out svc req live (emit out apply_write w4))
                (λ mirror w5. (
                  finish sha256_hex out svc emit_success w5,
                  ok (result_for sha256_hex out svc req live mirror),
                ))
                refl λ mirror w5. refl

  run_adapter_files : (w : World S) → (run_adapter sha256_hex out svc w).0.files ≡ w.files
  unfolding run_adapter
  run_adapter_files w = elim (Option-cases (out.restart_error w.tick)) [
    | inr (e, bad) ↦ rw (bad, run_adapter) refl
    | inl fine ↦
        rw (fine, run_adapter)
          (elim (Option-cases (out.cancelled (suc w.tick))) [
            | inr (e, bad) ↦ rw bad refl
            | inl going ↦ rw going (elim (Option-cases (out.ready_error (suc (suc w.tick)))) [
              | inr (e, bad) ↦ rw bad refl
              | inl up ↦ rw up refl
            ])
          ])
  ]

  -- What a transaction with a runtime leaves of the files of `w`.
  pub record Left (w : World S) (r : World S × Result ApplyError (ApplyResult Config))
      : Type 0 where
    pub others : KeepsOthers req.path w r.0
    pub old_kept :
        (old : String)
        → lookup req.path w.files ≡ some old
        → (p : String) × (lookup p r.0.files ≡ some old)
    pub applied :
        (res : ApplyResult Config) → r.1 ≡ ok res → lookup req.path r.0.files ≡ some req.content
    pub recovered :
        (e : ApplyError) (old : String)
        → r.1 ≡ err e
        → runtime_stage e.stage ≡ true
        → lookup req.path w.files ≡ some old
        → Recovered sha256_hex out svc req.path old e r.0.files

  abbrev stage_in : Result ApplyError (ApplyResult Config) → Stage → Stage
  stage_in (ok res) s = s
  stage_in (err e) s = e.stage

  abbrev cause_in : Result ApplyError (ApplyResult Config) → Cause → Cause
  cause_in (ok res) c = c
  cause_in (err e) c = e.cause

  -- A recovery: with a rollback that succeeds the old content is live again.
  recover-Left :
      (state : Option (StructuredApplyInput Config)) (result : ApplyResult Config)
      (failure : AdapterFailure) (w w2 : World S)
      → Outcome {Config = Config} req.path req.content w (w2, ok result)
      → (run_adapter sha256_hex out svc w2).1 ≡ some failure
      → Left w (
          recover sha256_hex out svc req state result failure (run_adapter sha256_hex out svc w2).0)
  unfolding recover
  recover-Left state result failure w w2 o down =
      let w3 = (run_adapter sha256_hex out svc w2).0 in
      let files = run_adapter_files w2 in
      let request : RollbackRequest S = record {
        backup_path = result.backup_path;
        active_path = req.path;
        stage = failure.stage;
        has_adapter = true;
        restore_state = some (restore_state sha256_hex out svc w3.tick state result.mirror);
      } in
      let r = execute_rollback out request w3 in
      let joined_by : Result RollbackError (Unit {0}) → Cause =
        λ x. elim x [ ok _ ↦ failure.cause | err e ↦ joined failure.cause e.cause ] in
      let cause = joined_by r.1 in
      let (others, restored) = execute_rollback_restores out request w3 in
      let (emitted, store) = emit_still out (apply_failure failure.stage cause) r.0 in
      let (written, held) = o.applied result refl in
      record {
        others = λ p c h there.
            ap (lookup p) emitted ∙ others p c h (ap (lookup p) files ∙ o.others p c h there);
        old_kept = λ old there.
            let (free, full) = held old there in
            (
              result.backup_path,
              ap (lookup result.backup_path) emitted
                  ∙ others result.backup_path old
                      (other_path w req.path result.backup_path old there free)
                      (ap (lookup result.backup_path) files ∙ full),
            );
        applied = λ res h. cc;
        recovered = λ e old h late there.
            let (free, full) = held old there in
            record {
              before = w2;
              failure = failure;
              failed = down;
              at_stage = sym (ap (λ x. stage_in x failure.stage) h);
              outcome = elim (Result-cases r.1) [
                | inl (a, done) ↦ inl (
                  sym (ap (λ x. cause_in x failure.cause) h) ∙ ap joined_by done,
                  ap (lookup req.path) emitted
                      ∙ restored old (ap (lookup result.backup_path) files ∙ full) done,
                )
                | inr (f, bad) ↦ inr (
                  request,
                  f,
                  refl,
                  ap (lookup result.backup_path) files ∙ full,
                  bad,
                  sym (ap (λ x. cause_in x failure.cause) h) ∙ ap joined_by bad,
                )
              ];
            };
      }

  fail_restored-Left :
      (state : Option (StructuredApplyInput Config)) (error : Option Cause → ApplyError)
      (w w' : World S) (e : ApplyError)
      → Outcome {Config = Config} req.path req.content w (w', err e)
      → ((failure : Option Cause) → runtime_stage (error failure).stage ≡ false)
      → Left w (fail_restored sha256_hex out svc state error w')
  unfolding fail_restored
  fail_restored-Left state error w w' e o other = record {
    others = o.others;
    old_kept = o.old_kept;
    applied = λ res h. cc;
    recovered = λ e' old h late there.
        let clash : false ≡ true = sym (other _) ∙ ap runtime_error h ∙ late in cc;
  }

  applied-Left :
      (state : Option (StructuredApplyInput Config)) (w w2 : World S) (result : ApplyResult Config)
      (res : ApplyResult Config)
      → Outcome {Config = Config} req.path req.content w (w2, ok result)
      → (w3 : World S) → w3.files ≡ w2.files
      → Left w (w3, ok res)
  applied-Left state w w2 result res o w3 files = record {
    others = λ p c h there. ap (lookup p) files ∙ o.others p c h there;
    old_kept = λ old there. let (p, kept) = o.old_kept old there in (p, ap (lookup p) files ∙ kept);
    applied = λ res' h. ap (lookup req.path) files ∙ (o.applied result refl).0;
    recovered = λ e old h late there. cc;
  }

  late_error :
      (e : ApplyError)
      → runtime_stage e.stage ≡ false
      → (failure : Option Cause) → runtime_stage (restored_error e failure).stage ≡ false
  late_error e other none = other
  late_error e other (some r) = refl

  pub runtime_stages-Left :
      (state : Option (StructuredApplyInput Config)) (w : World S)
      → Left w (runtime_stages sha256_hex out svc state req w)
  unfolding runtime_stages Fine
  runtime_stages-Left state w =
      let checked = apply_validate sha256_hex out svc req w in
      let (files, store, audit) = apply_validate_still sha256_hex out svc req w in
      elim (Result-cases checked.1) [
        | inr (e, bad) ↦
            rw (bad, runtime_stages)
              (fail_restored-Left state _ w checked.0 (record { stage = validate; cause = e })
                (stopped_early sha256_hex out svc req w checked.0
                  (record { stage = validate; cause = e }) files store)
                (λ failure. refl))
        | inl (a, passed) ↦
            let r = apply sha256_hex out svc req false checked.0 in
            let o =
              moved w checked.0 (sym files) (sym store)
                (apply-Outcome sha256_hex out svc req false checked.0) in
            elim (Result-cases r.1) [
              | inr (e, bad) ↦
                  rw (passed, runtime_stages, bad)
                    (fail_restored-Left state _ w r.0 e
                      (subst (λ x. Outcome req.path req.content w (r.0, x)) bad o)
                      (late_error e (sym (ap runtime_error bad) ∙ apply_stages false checked.0)))
              | inl (result, done) ↦
                  let o' = subst (λ x. Outcome req.path req.content w (r.0, x)) done o in
                  let adapter = run_adapter sha256_hex out svc r.0 in
                  let still = run_adapter_files r.0 in
                  elim (Option-cases adapter.1) [
                    | inl up ↦
                        rw (passed, runtime_stages, done, up)
                          (applied-Left state w r.0 result _ o' _
                            ((emit_still out (apply_success ready) adapter.0).0 ∙ still))
                    | inr (failure, down) ↦
                        rw (passed, runtime_stages, done, down)
                          (recover-Left state result failure w r.0 o' down)
                  ]
            ]
      ]
