-- ===== src/Apply/Pipeline/Atomic.antt =====
-- internal/service/apply.go: what a whole transaction leaves of the settings file, on every branch.
use nrcc.Base.{
  ◌≡◌, ◌≢◌, refl, sym, ◌∙◌, ap, subst, inl, inr, ◌⊎◌, String, Bool, true, false, none, some, Result,
  ok, err, arith, str_eq, eq_iff, Bool-cases,
}
use nrcc.Base.Assoc.{lookup}
use nrcc.Apply.{
  World, Outside, Stage, validate, backup, write, reconcile, apply_start, apply_backup, apply_write,
  apply_success, apply_failure, result_of, emit,
}
use nrcc.Apply.Files.{
  Elsewhere, insert_there, atomic_write_settings, atomic_write_settings_outcome,
  atomic_write_settings-Elsewhere,
}
use nrcc.Apply.Snapshot.{Keeps}
use nrcc.Apply.Service.{ConfigService, ApplyRequest, ApplyResult, ApplyError}
use nrcc.Apply.Pipeline.{
  LiveCopy, request_error, apply_validate, apply_backup_stage, apply_reconcile_stage, staged,
  result_for, finish, apply,
}
use nrcc.Apply.Pipeline.Stages.{
  BackedUp, emit_still, staged_rule, apply_validate_still, apply_backup_stage-BackedUp,
  apply_reconcile_stage_outcome,
}

-- What a transaction leaves of the files of `w`.
pub record Outcome {S Config : Type 0} (path content : String) (w : World S)
    (r : World S × Result ApplyError (ApplyResult Config)) : Type 0 where
  pub others :
      (p c : String)
      → str_eq p path ≡ false
      → lookup p w.files ≡ some c
      → lookup p r.0.files ≡ some c
  pub old_kept :
      (old : String)
      → lookup path w.files ≡ some old
      → (p : String) × (lookup p r.0.files ≡ some old)
  pub applied :
      (res : ApplyResult Config)
      → r.1 ≡ ok res
      → (lookup path r.0.files ≡ some content)
        × ((old : String)
            → lookup path w.files ≡ some old
            → (lookup res.backup_path w.files ≡ none)
              × (lookup res.backup_path r.0.files ≡ some old))
  pub failed :
      (e : ApplyError)
      → r.1 ≡ err e
      → e.stage ≢ reconcile
      → (r.0.store ≡ w.store)
        × ((lookup path r.0.files ≡ lookup path w.files)
            ⊎ ((e.stage ≡ write) × (lookup path r.0.files ≡ some content)))

-- A path that was free when the live one was not is another path.
pub other_path :
    {S : Type 0} (w : World S) (path target old : String)
    → lookup path w.files ≡ some old
    → lookup target w.files ≡ none
    → str_eq target path ≡ false
other_path w path target old there free = elim (Bool-cases (str_eq target path)) [
  | inr differs ↦ differs
  | inl same ↦ absurd (ground (arith, eq_iff target path))
]

module _ {Config : Type 0} where
  abbrev backup_path_in : Result ApplyError (ApplyResult Config) → String
  backup_path_in (ok res) = res.backup_path
  backup_path_in (err e) = ""

  abbrev stage_in : Result ApplyError (ApplyResult Config) → Stage
  stage_in (ok res) = validate
  stage_in (err e) = e.stage

module _ {S Config : Type 0} where
  -- A failure before the live file is written.
  early :
      (path content : String) (w w' : World S) (e : ApplyError)
      → Keeps w.files w'.files
      → lookup path w'.files ≡ lookup path w.files
      → w'.store ≡ w.store
      → Outcome {Config = Config} path content w (w', err e)
  early path content w w' e keeps live store = record {
    others = λ p c o h. keeps p c h;
    old_kept = λ old h. (path, keeps path old h);
    applied = λ res h. cc;
    failed = λ e' h n. (store, inl live);
  }

  -- What holds from the backup on, as only the live file is touched.
  later :
      (path content : String) (w w3 w' : World S) (live : LiveCopy)
      (r : Result ApplyError (ApplyResult Config))
      → BackedUp path w (w3, ok live)
      → Elsewhere path w3 w'
      → ((res : ApplyResult Config)
          → r ≡ ok res
          → (lookup path w'.files ≡ some content) × (res.backup_path ≡ live.backup_path))
      → ((e : ApplyError)
          → r ≡ err e
          → e.stage ≢ reconcile
          → (w'.store ≡ w.store)
            × ((lookup path w'.files ≡ lookup path w.files)
                ⊎ ((e.stage ≡ write) × (lookup path w'.files ≡ some content))))
      → Outcome path content w (w', r)
  later path content w w3 w' live r up elsewhere good bad =
      let held : (old : String)
          → lookup path w.files ≡ some old
          → (lookup live.backup_path w.files ≡ none)
            × (lookup live.backup_path w'.files ≡ some old) =
        λ old h.
          let (free, full) = up.holds live old refl h in
          (
            free,
            elsewhere live.backup_path (other_path w path live.backup_path old h free) ∙ full,
          ) in
      record {
        others = λ p c o h. elsewhere p o ∙ up.keeps p c h;
        old_kept = λ old h. (live.backup_path, (held old h).1);
        applied = λ res h.
            let (written, target) = good res h in
            (
              written,
              λ old h'.
                  subst (λ p. (lookup p w.files ≡ none) × (lookup p w'.files ≡ some old))
                    (sym target) (held old h'),
            );
        failed = bad;
      }

-- The outcome looks at the files and the store of the first world only.
pub moved :
    {S Config : Type 0} {path content : String}
    {r : World S × Result ApplyError (ApplyResult Config)} (w w2 : World S)
    → w.files ≡ w2.files
    → w.store ≡ w2.store
    → Outcome path content w2 r
    → Outcome path content w r
moved {path} {content} {r} w w2 files store out2 = record {
  others = λ p c o h. out2.others p c o (ap (lookup p) (sym files) ∙ h);
  old_kept = λ old h. out2.old_kept old (ap (lookup path) (sym files) ∙ h);
  applied = λ res h.
      let (written, held) = out2.applied res h in
      (
        written,
        λ old h'.
            let (free, full) = held old (ap (lookup path) (sym files) ∙ h') in
            (ap (lookup res.backup_path) files ∙ free, full),
      );
  failed = λ e h n.
      let (store', live) = out2.failed e h n in
      (
        store' ∙ sym store,
        elim live [ inl same ↦ inl (same ∙ ap (lookup path) (sym files)) | inr done ↦ inr done ],
      );
}

module _ {S Config Patch : Type 0} (sha256_hex : String → String) (out : Outside)
    (svc : ConfigService S Config Patch) (req : ApplyRequest Config Patch) where
  -- The end of the transaction, from the reconciliation on.
  abbrev pub from_reconcile :
      Bool → LiveCopy → World S → World S × Result ApplyError (ApplyResult Config)
  from_reconcile emit_success live w =
      staged sha256_hex out svc reconcile (apply_reconcile_stage sha256_hex out svc req live w)
        λ mirror w5. (
          finish sha256_hex out svc emit_success w5,
          ok (result_for sha256_hex out svc req live mirror),
        )

  finish_still :
      (emit_success : Bool) (w : World S)
      → (finish sha256_hex out svc emit_success w).files ≡ w.files
  finish_still true w = (emit_still out (apply_success write) w).0
  finish_still false w = refl

  from_reconcile-Outcome :
      (emit_success : Bool) (live : LiveCopy) (w w3 w4 : World S)
      → BackedUp req.path w (w3, ok live)
      → Elsewhere req.path w3 w4
      → lookup req.path w4.files ≡ some req.content
      → Outcome req.path req.content w (from_reconcile emit_success live w4)
  from_reconcile-Outcome emit_success live w w3 w4 up elsewhere written =
      let r = apply_reconcile_stage sha256_hex out svc req live w4 in
      let (others, kept) = apply_reconcile_stage_outcome sha256_hex out svc req live w4 in
      staged_rule sha256_hex out svc (Outcome req.path req.content w) reconcile r
        (λ mirror w5. (
          finish sha256_hex out svc emit_success w5,
          ok (result_for sha256_hex out svc req live mirror),
        ))
        (λ mirror done.
          let files = finish_still emit_success r.0 ∙ kept mirror done in
          later req.path req.content w w3 _ live (ok _) up
            (λ p o. ap (lookup p) files ∙ elsewhere p o)
            (λ res h. (ap (lookup req.path) files ∙ written, sym (ap backup_path_in h)))
            (λ e h. cc))
        (λ e bad.
          let (files, store) = emit_still out (apply_failure reconcile e) r.0 in
          later req.path req.content w w3 _ live (err _) up
            (λ p o. ap (lookup p) files ∙ others p o ∙ elsewhere p o) (λ res h. cc)
            (λ e' h n. absurd (n (sym (ap stage_in h)))))

  abbrev pub from_write :
      Bool → LiveCopy → World S → World S × Result ApplyError (ApplyResult Config)
  from_write emit_success live w3 =
      staged sha256_hex out svc write
        (atomic_write_settings out req.path req.content (emit out apply_backup w3))
        λ _ w4. from_reconcile emit_success live (emit out apply_write w4)

  from_write-Outcome :
      (emit_success : Bool) (live : LiveCopy) (w w3 : World S)
      → BackedUp req.path w (w3, ok live)
      → Outcome req.path req.content w (from_write emit_success live w3)
  from_write-Outcome emit_success live w w3 up =
      let w3' = emit out apply_backup w3 in
      let (files3, store3) = emit_still out apply_backup w3 in
      let r = atomic_write_settings out req.path req.content w3' in
      let elsewhere : Elsewhere req.path w3 r.0 = λ p o.
        atomic_write_settings-Elsewhere out req.path req.content w3' p o ∙ ap (lookup p) files3 in
      let (store, audit, ended) = atomic_write_settings_outcome out req.path req.content w3' in
      staged_rule sha256_hex out svc (Outcome req.path req.content w) write r
        (λ _ w4. from_reconcile emit_success live (emit out apply_write w4))
        (λ a done.
          let (files4, store4) = emit_still out apply_write r.0 in
          from_reconcile-Outcome emit_success live w w3 (emit out apply_write r.0) up
            (λ p o. ap (lookup p) files4 ∙ elsewhere p o)
            (ap (lookup req.path) files4 ∙ elim ended [
              | inl (files, (e, bad)) ↦ cc
              | inr files ↦ insert_there req.path req.content w3' r.0 files
            ]))
        (λ e bad.
          let (files4, store4) = emit_still out (apply_failure write e) r.0 in
          later req.path req.content w w3 _ live (err (record { stage = write; cause = e })) up
            (λ p o. ap (lookup p) files4 ∙ elsewhere p o) (λ res h. cc)
            (λ e' h n. (
              store4 ∙ store ∙ store3 ∙ up.same_store,
              elim ended [
                | inl (files, _) ↦
                    inl (ap (lookup req.path) (files4 ∙ files ∙ files3) ∙ up.same_live)
                | inr files ↦ inr (
                  sym (ap stage_in h),
                  ap (lookup req.path) files4 ∙ insert_there req.path req.content w3' r.0 files,
                )
              ],
            )))

  abbrev pub from_backup : Bool → World S → World S × Result ApplyError (ApplyResult Config)
  from_backup emit_success w2 =
      staged sha256_hex out svc backup (apply_backup_stage sha256_hex out svc req w2)
        (from_write emit_success)

  -- The transaction from a world whose files and store are those of `w`.
  from_backup-Outcome :
      (emit_success : Bool) (w w2 : World S)
      → w2.files ≡ w.files
      → w2.store ≡ w.store
      → Outcome req.path req.content w (from_backup emit_success w2)
  from_backup-Outcome emit_success w w2 files store =
      let r = apply_backup_stage sha256_hex out svc req w2 in
      let up = apply_backup_stage-BackedUp sha256_hex out svc req w2 in
      moved w w2 (sym files) (sym store) (
        staged_rule sha256_hex out svc (Outcome req.path req.content w2) backup r
          (from_write emit_success)
          (λ live done.
            from_write-Outcome emit_success live w2 r.0
              (subst (λ a. BackedUp req.path w2 (r.0, a)) done up))
          (λ e bad.
            let (files', store') = emit_still out (apply_failure backup e) r.0 in
            early req.path req.content w2 _ (record { stage = backup; cause = e })
              (λ p c h. ap (lookup p) files' ∙ up.keeps p c h)
              (ap (lookup req.path) files' ∙ up.same_live) (store' ∙ up.same_store)))

  pub stopped_early :
      (w w' : World S) (e : ApplyError)
      → w'.files ≡ w.files
      → w'.store ≡ w.store
      → Outcome {Config = Config} req.path req.content w (w', err e)
  stopped_early w w' e files store =
      early req.path req.content w w' e (λ p c h. ap (lookup p) files ∙ h)
        (ap (lookup req.path) files) store

  pub apply-Outcome :
      (emit_success : Bool) (w : World S)
      → Outcome req.path req.content w (apply sha256_hex out svc req emit_success w)
  unfolding apply
  apply-Outcome emit_success w =
      let started = emit out apply_start w in
      let (files, store) = emit_still out apply_start w in
      let Q = Outcome {S = S} {Config = Config} req.path req.content w in
      let checked = apply_validate sha256_hex out svc req started in
      let (files', store', audit') = apply_validate_still sha256_hex out svc req started in
      staged_rule sha256_hex out svc Q validate (started, result_of (request_error req) tt)
        (λ _ w1.
          staged sha256_hex out svc validate (apply_validate sha256_hex out svc req w1)
            λ _ w2. from_backup emit_success w2)
        (λ _ _.
          staged_rule sha256_hex out svc Q validate checked (λ _ w2. from_backup emit_success w2)
            (λ _ _. from_backup-Outcome emit_success w checked.0 (files' ∙ files) (store' ∙ store))
            (λ e bad.
              let (files2, store2) = emit_still out (apply_failure validate e) checked.0 in
              stopped_early w _ (record { stage = validate; cause = e }) (files2 ∙ files' ∙ files)
                (store2 ∙ store' ∙ store)))
        (λ e bad.
          let (files2, store2) = emit_still out (apply_failure validate e) started in
          stopped_early w _ (record { stage = validate; cause = e }) (files2 ∙ files)
            (store2 ∙ store))
