-- ===== src/Apply/Pipeline/Guarantees.antt =====
-- internal/service/apply.go: what a caller of `ApplyService.Apply` may rely on.
use nrcc.Base.{◌≡◌, ◌≢◌, ◌⊎◌, String, Bool, true, false, some, none, Result, ok, err, str_eq}
use nrcc.Base.Assoc.{lookup}
use nrcc.Apply.{
  World, Outside, SourceRevision, validate, write, reconcile, apply_start, next_tick, result_of,
  emit,
}
use nrcc.Apply.Revision.{revision_matches}
use nrcc.Apply.Service.{ConfigService, ApplyRequest, ApplyResult, ApplyError, get_raw_settings}
use nrcc.Apply.Pipeline.{request_error, apply_validate, staged, apply}
use nrcc.Apply.Pipeline.Stages.{staged_rule, apply_validate_ok}
use nrcc.Apply.Pipeline.Atomic.{apply-Outcome, from_backup}

module _ {S Config Patch : Type 0} (sha256_hex : String → String) (out : Outside)
    (svc : ConfigService S Config Patch) (req : ApplyRequest Config Patch) (emit_success : Bool)
    (w : World S) where
  -- Whatever fails and whatever succeeds, an apply loses no settings: some file holds the content
  -- that was live before, and every other file keeps its content.
  pub apply_loses_nothing :
      let r = apply sha256_hex out svc req emit_success w in
      ((old : String)
        → lookup req.path w.files ≡ some old
        → (p : String) × (lookup p r.0.files ≡ some old))
      × ((p c : String)
          → str_eq p req.path ≡ false
          → lookup p w.files ≡ some c
          → lookup p r.0.files ≡ some c)
  apply_loses_nothing =
      let o = apply-Outcome sha256_hex out svc req emit_success w in (o.old_kept, o.others)

  -- After an apply that succeeds the file at the path holds the requested content; and if a file
  -- was there, whether with the requested content or another, the result names a backup, at a path
  -- that was free, that holds the old content.
  pub apply_success_installs :
      (res : ApplyResult Config)
      → (apply sha256_hex out svc req emit_success w).1 ≡ ok res
      → let files' = (apply sha256_hex out svc req emit_success w).0.files in
        (lookup req.path files' ≡ some req.content)
        × ((old : String)
            → lookup req.path w.files ≡ some old
            → (lookup res.backup_path w.files ≡ none) × (lookup res.backup_path files' ≡ some old))
  apply_success_installs res h = (apply-Outcome sha256_hex out svc req emit_success w).applied res h

  -- After an apply that failed before its reconciliation the store is what it was, and so is the
  -- file at the path; only where the write stage failed may it hold the whole new content.
  pub apply_failure_leaves :
      (e : ApplyError)
      → (apply sha256_hex out svc req emit_success w).1 ≡ err e
      → e.stage ≢ reconcile
      → let w' = (apply sha256_hex out svc req emit_success w).0 in
        (w'.store ≡ w.store)
        × ((lookup req.path w'.files ≡ lookup req.path w.files)
            ⊎ ((e.stage ≡ write) × (lookup req.path w'.files ≡ some req.content)))
  apply_failure_leaves e h n = (apply-Outcome sha256_hex out svc req emit_success w).failed e h n

  -- An apply succeeds only if the revision read from the active file, after the start of the
  -- transaction was recorded, matches the one that the request expects.
  pub apply_checks_revision :
      (res : ApplyResult Config)
      → (apply sha256_hex out svc req emit_success w).1 ≡ ok res
      → (live : SourceRevision) × ((get_raw_settings sha256_hex out svc
            (next_tick (emit out apply_start w))).1
          ≡ ok live)
        × (revision_matches req.expected live ≡ true)
  unfolding apply
  apply_checks_revision res =
      let started = emit out apply_start w in
      let Seen : World S × Result ApplyError (ApplyResult Config) → Type 0 = λ r.
        r.1 ≡ ok res
        → (live : SourceRevision) × ((get_raw_settings sha256_hex out svc (next_tick started)).1
            ≡ ok live)
          × (revision_matches req.expected live ≡ true) in
      let checked = apply_validate sha256_hex out svc req started in
      staged_rule sha256_hex out svc Seen validate (started, result_of (request_error req) tt)
        (λ _ w1.
          staged sha256_hex out svc validate (apply_validate sha256_hex out svc req w1)
            λ _ w2. from_backup sha256_hex out svc req emit_success w2)
        (λ _ _.
          staged_rule sha256_hex out svc Seen validate checked
            (λ _ w2. from_backup sha256_hex out svc req emit_success w2)
            (λ a passed _. apply_validate_ok sha256_hex out svc req started a passed)
            (λ e bad h. cc))
        (λ e bad h. cc)
