-- ===== src/Apply/Runtime/Guarantees.antt =====
-- internal/service/apply_runtime.go: what a caller of the coordinator may rely on where a runtime is
-- restarted.
use nrcc.Base.{
  ◌≡◌, refl, sym, ◌∙◌, ap, subst, inl, inr, String, Bool, true, false, Option, none, some, Result,
  ok, err, str_eq, Option-cases, Result-cases,
}
use nrcc.Base.Assoc.{lookup}
use nrcc.Apply.{World, Outside, Cause, validate, apply_failure, unsupported_adapter, emit}
use nrcc.Apply.Service.{StructuredApplyInput, ConfigService, ApplyRequest, ApplyResult, ApplyError}
use nrcc.Apply.Rollback.Restores.{KeepsOthers, emit_files}
use nrcc.Apply.Runtime.{Staged, take_up, stage_structured, apply_runtime}
use nrcc.Apply.Runtime.Recovery.{Recovered, Left, runtime_stage, runtime_error, runtime_stages-Left}

module _ {S Config Patch : Type 0} (sha256_hex : String → String) (out : Outside)
    (svc : ConfigService S Config Patch) (req : ApplyRequest Config Patch) where
  -- What staging leaves: the files; an error of the validation or a request for the same path.
  abbrev StagedWell : World S → World S × Result ApplyError (Staged sha256_hex out svc) → Type 0
  StagedWell w r =
      (r.0.files ≡ w.files)
      × (runtime_error r.1 ≡ false)
      × ((state : Option (StructuredApplyInput Config)) (req' : ApplyRequest Config Patch)
          → r.1 ≡ ok (state, req')
          → req'.path ≡ req.path)

  abbrev path_in : Result ApplyError (Staged sha256_hex out svc) → String
  path_in (ok (state, req')) = req'.path
  path_in (err e) = req.path

  take_up-StagedWell :
      (given : Option Config) (w : World S) (r : S × Result Cause (StructuredApplyInput Config))
      → StagedWell w (take_up sha256_hex out svc given req w r)
  unfolding take_up
  take_up-StagedWell given w (store', ok state) = (refl, refl, λ s r h. sym (ap path_in h))
  take_up-StagedWell given w (store', err e) = (
    emit_files out (apply_failure validate e) (record w { store = store'; tick = _ }),
    refl,
    λ s r h. cc,
  )

  stage_structured-StagedWell :
      (w : World S) → StagedWell w (stage_structured sha256_hex out svc req w)
  unfolding stage_structured
  stage_structured-StagedWell w = elim (Option-cases req.structured_patch) [
    | inr (p, given) ↦
        rw (given, stage_structured)
          (take_up-StagedWell none w (svc.commit_structured_patch w.tick p w.store))
    | inl no_patch ↦
        rw (no_patch, stage_structured)
          (elim (Option-cases req.structured_config) [
            | inr (c, given) ↦
                rw given (take_up-StagedWell (some c) w (svc.commit_structured w.tick c w.store))
            | inl raw ↦ rw raw (refl, refl, λ s r h. sym (ap path_in h))
          ])
  ]

  -- What holds of the files after any end of the transaction.
  record Safe (w : World S) (r : World S × Result ApplyError (ApplyResult Config)) : Type 0 where
    others : KeepsOthers req.path w r.0
    old_kept :
        (old : String)
        → lookup req.path w.files ≡ some old
        → (p : String) × (lookup p r.0.files ≡ some old)
    recovered :
        (e : ApplyError) (old : String)
        → r.1 ≡ err e
        → runtime_stage e.stage ≡ true
        → lookup req.path w.files ≡ some old
        → Recovered sha256_hex out svc req.path old e r.0.files

  refused_early :
      (w w' : World S) (e : ApplyError)
      → w'.files ≡ w.files
      → runtime_stage e.stage ≡ false
      → Safe w (w', err e)
  refused_early w w' e files early = record {
    others = λ p c h there. ap (lookup p) files ∙ there;
    old_kept = λ old there. (req.path, ap (lookup req.path) files ∙ there);
    recovered = λ e' old h late there.
        let clash : false ≡ true = sym early ∙ ap runtime_error h ∙ late in cc;
  }

  from_Left :
      (req' : ApplyRequest Config Patch) (w w' : World S)
      (r : World S × Result ApplyError (ApplyResult Config))
      → w'.files ≡ w.files
      → req'.path ≡ req.path
      → Left sha256_hex out svc req' w' r
      → Safe w r
  from_Left req' w w' r files same left = record {
    others = λ p c h there. left.others p c (ap (str_eq p) same ∙ h) (ap (lookup p) files ∙ there);
    old_kept = λ old there.
        left.old_kept old (ap (λ q. lookup q w'.files) same ∙ ap (lookup req.path) files ∙ there);
    recovered = λ e old h late there.
        subst (λ p. Recovered sha256_hex out svc p old e r.0.files) same
          (left.recovered e old h late
            (ap (λ q. lookup q w'.files) same ∙ ap (lookup req.path) files ∙ there));
  }

  apply_runtime-Safe :
      (resolve : ApplyRequest Config Patch → Result Cause Bool) (w : World S)
      → Safe w (apply_runtime sha256_hex out svc resolve req w)
  unfolding apply_runtime
  apply_runtime-Safe resolve w =
      let no_adapter : (e : Cause)
          → Safe w (
            emit out (apply_failure validate e) w,
            err (record { stage = validate; cause = e }),
          ) =
        λ e. refused_early w _ _ (emit_files out (apply_failure validate e) w) refl in
      elim (Result-cases (resolve req)) [
        | inr (e, bad) ↦ rw (bad, apply_runtime) (no_adapter e)
        | inl (false, nil) ↦ rw (nil, apply_runtime) (no_adapter unsupported_adapter)
        | inl (true, found) ↦
            let r = stage_structured sha256_hex out svc req w in
            let (files, early, same) = stage_structured-StagedWell w in
            elim (Result-cases r.1) [
              | inr (e, bad) ↦
                  rw (found, apply_runtime, bad)
                    (refused_early w r.0 e files (ap runtime_error (sym bad) ∙ early))
              | inl ((state, req'), done) ↦
                  rw (found, apply_runtime, done)
                    (from_Left req' w r.0 _ files (same state req' done)
                      (runtime_stages-Left sha256_hex out svc req' state r.0))
            ]
      ]

  -- Whatever fails and whatever succeeds, a transaction with a runtime loses no settings: some file
  -- holds the content that was live before, and every other file keeps its content.
  pub apply_runtime_loses_nothing :
      (resolve : ApplyRequest Config Patch → Result Cause Bool) (w : World S)
      → let r = apply_runtime sha256_hex out svc resolve req w in
        ((old : String)
          → lookup req.path w.files ≡ some old
          → (p : String) × (lookup p r.0.files ≡ some old))
        × KeepsOthers req.path w r.0
  apply_runtime_loses_nothing resolve w =
      let safe = apply_runtime-Safe resolve w in (safe.old_kept, safe.others)

  -- Where the restart or the readiness probe failed and a file was live before, the error has the stage of
  -- that failure. Either its cause is that of the failure and the file holds its old content again; or the
  -- rollback, given a backup that held the old content, failed too, and the cause joins that of the failure
  -- with that of the rollback.
  pub apply_runtime_recovers :
      (resolve : ApplyRequest Config Patch → Result Cause Bool) (w : World S) (e : ApplyError)
      (old : String)
      → (apply_runtime sha256_hex out svc resolve req w).1 ≡ err e
      → runtime_stage e.stage ≡ true
      → lookup req.path w.files ≡ some old
      → Recovered sha256_hex out svc req.path old e
          (apply_runtime sha256_hex out svc resolve req w).0.files
  apply_runtime_recovers resolve w e old h late there =
      (apply_runtime-Safe resolve w).recovered e old h late there
