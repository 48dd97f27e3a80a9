-- ===== src/Apply/Rollback/Restores.antt =====
-- internal/service/apply_rollback.go: what a rollback leaves of the files.
use Prim.Native.String.{◌++◌}
use nrcc.Base.{
  suc, ◌≡◌, refl, sym, ◌∙◌, ap, inl, inr, String, false, Option, none, some, [], ◌∷◌, Result, ok,
  err, str_eq, Bool-cases, Option-cases, Result-cases,
}
use nrcc.Base.Assoc.{lookup}
use nrcc.Apply.{
  World, AuditEvent, Outside, Cause, Stage, rollback_started, rollback_succeeded, rollback_degraded,
  rollback_failed, next_tick, first_error, result_of, emit,
}
use nrcc.Apply.Paths.{validate_settings_path}
use nrcc.Apply.Files.{
  read_file, read_file_still, atomic_write_settings-Elsewhere, atomic_write_settings_done,
}
use nrcc.Apply.Snapshot.{Keeps, write_file_exclusive-Keeps}
use nrcc.Apply.Rollback.{
  RollbackRequest, RollbackError, rollback_request_error, copy_file_exclusive,
  keep_failed_candidate, restore_snapshot, run_restore_state, rollback_step, execute_rollback,
}

-- Every file but the one at the path keeps its content.
abbrev pub KeepsOthers : {S : Type 0} → String → World S → World S → Type 0
KeepsOthers path w w' =
    (p c : String) → str_eq p path ≡ false → lookup p w.files ≡ some c → lookup p w'.files ≡ some c

pub emit_files :
    {S : Type 0} (out : Outside) (event : AuditEvent) (w : World S)
    → (emit out event w).files ≡ w.files
emit_files out event w = elim (Bool-cases out.has_audit_hook) [
  | inl on ↦ rw on refl
  | inr off ↦ rw off refl
]

module _ {S : Type 0} (out : Outside) where
  rollback_rule {ℓ} :
      (Q : World S × Result RollbackError (Unit {0}) → Type ℓ) (stage : Stage)
      (r : World S × Result Cause (Unit {0}))
      (next : World S → World S × Result RollbackError (Unit {0}))
      → ((a : Unit {0}) → r.1 ≡ ok a → Q (next r.0))
      → ((e : Cause)
          → r.1 ≡ err e
          → Q (emit out (rollback_failed e) r.0, err (record { stage = stage; cause = e })))
      → Q (rollback_step out stage r next)
  unfolding rollback_step
  rollback_rule Q stage (w, ok a) next good bad = good a refl
  rollback_rule Q stage (w, err e) next good bad = bad e refl

  copy_file_exclusive-Keeps :
      (src dst : String) (w : World S) → Keeps w.files (copy_file_exclusive out src dst w).0.files
  unfolding copy_file_exclusive
  copy_file_exclusive-Keeps src dst w =
      let r = read_file out src w in
      let (files, _, _, _) = read_file_still out src w in
      elim (Result-cases r.1) [
        | inr (e, bad) ↦ rw (bad, copy_file_exclusive) (λ p c h. ap (lookup p) files ∙ h)
        | inl (content, good) ↦
            rw (good, copy_file_exclusive)
              (elim (Option-cases content) [
                | inl absent ↦ rw absent (λ p c h. ap (lookup p) files ∙ h)
                | inr (t, there) ↦ rw there (elim (Option-cases (out.mkdir_error r.0.tick)) [
                  | inr (e, bad) ↦ rw bad (λ p c h. ap (lookup p) files ∙ h)
                  | inl fine ↦
                      let (_, _, keeps, _) = write_file_exclusive-Keeps out dst t (next_tick r.0) in
                      rw fine (λ p c h. keeps p c (ap (lookup p) files ∙ h))
                ])
              ])
      ]

  keep_failed_candidate-Keeps :
      (path : String) (w : World S) → Keeps w.files (keep_failed_candidate out path w).files
  unfolding keep_failed_candidate
  keep_failed_candidate-Keeps path w = elim (Result-cases (out.random_name w.tick)) [
    | inr (e, bad) ↦
        rw (bad, keep_failed_candidate)
          (λ p c h. ap (lookup p) (emit_files out (rollback_degraded e) (next_tick w)) ∙ h)
    | inl (token, drawn) ↦
        let dst = path ++ ".failed-" ++ token in
        let r = copy_file_exclusive out path dst (next_tick w) in
        let keeps = copy_file_exclusive-Keeps path dst (next_tick w) in
        rw (drawn, keep_failed_candidate)
          (elim (Option-cases r.1) [
            | inl fine ↦ rw fine keeps
            | inr (e, bad) ↦
                rw bad
                  (λ p c h. ap (lookup p) (emit_files out (rollback_degraded e) r.0) ∙ keeps p c h)
          ])
  ]

  -- What `restore_snapshot` leaves: the other files; and, if it succeeded, the snapshot's content.
  restore_snapshot_outcome :
      (backup_path active_path : String) (w : World S)
      → let r = restore_snapshot out backup_path active_path w in
        KeepsOthers active_path w r.0
        × ((a : Unit {0})
            → r.1 ≡ ok a
            → (c : String) × (lookup backup_path w.files ≡ some c)
              × (lookup active_path r.0.files ≡ some c))
  unfolding restore_snapshot
  restore_snapshot_outcome backup_path active_path w =
      elim (Option-cases (
        first_error
          (validate_settings_path backup_path ∷ validate_settings_path active_path ∷ []))) [
            | inr (e, bad) ↦ rw (bad, restore_snapshot) (λ p c o h. h, λ a h. cc)
            | inl fine ↦
                let r = read_file out backup_path w in
                let (files, _, _, content) = read_file_still out backup_path w in
                rw (fine, restore_snapshot)
                  (elim (Result-cases r.1) [
                    | inr (e, bad) ↦ rw bad (λ p c o h. ap (lookup p) files ∙ h, λ a h. cc)
                    | inl (c, good) ↦ rw good (elim (Option-cases c) [
                      | inl absent ↦ rw absent (λ p c o h. ap (lookup p) files ∙ h, λ a h. cc)
                      | inr (t, there) ↦
                          let elsewhere = atomic_write_settings-Elsewhere out active_path t r.0 in
                          rw there (
                            λ p c' o h. elsewhere p o ∙ ap (lookup p) files ∙ h,
                            λ a h. (
                              t,
                              sym (content c good) ∙ there,
                              atomic_write_settings_done out active_path t r.0 a h,
                            ),
                          )
                    ])
                  ])
          ]

  run_restore_state_files :
      (restore : Option (S → S × Option Cause)) (w : World S)
      → (run_restore_state out restore w).0.files ≡ w.files
  unfolding run_restore_state
  run_restore_state_files none w = refl
  run_restore_state_files (some restore) w = refl

  -- The rollback after its restore.
  abbrev rest : RollbackRequest S → World S → World S × Result RollbackError (Unit {0})
  rest req w3 = rollback_step out req.stage (run_restore_state out req.restore_state w3) λ w4.
      rollback_step out req.stage (next_tick w4, result_of (out.restart_error w4.tick) tt)
        λ w5.
          rollback_step out req.stage (next_tick w5, result_of (out.ready_error w5.tick) tt)
            λ w6. (emit out rollback_succeeded w6, ok tt)

  rest_files : (req : RollbackRequest S) (w3 : World S) → (rest req w3).0.files ≡ w3.files
  rest_files req w3 =
      let Still : World S × Result RollbackError (Unit {0}) → Type 0 = λ r. r.0.files ≡ w3.files in
      let restored = run_restore_state out req.restore_state w3 in
      let w4 = restored.0 in
      let same = run_restore_state_files req.restore_state w3 in
      let probed : World S → World S × Result RollbackError (Unit {0}) = λ w5.
        rollback_step out req.stage (next_tick w5, result_of (out.ready_error w5.tick) tt)
          λ w6. (emit out rollback_succeeded w6, ok tt) in
      rollback_rule Still req.stage restored
        (λ w4.
          rollback_step out req.stage (next_tick w4, result_of (out.restart_error w4.tick) tt)
            probed)
        (λ _ _.
          rollback_rule Still req.stage (next_tick w4, result_of (out.restart_error w4.tick) tt)
            probed
            (λ _ _.
              rollback_rule Still req.stage
                (next_tick (next_tick w4), result_of (out.ready_error (suc w4.tick)) tt)
                (λ w6. (emit out rollback_succeeded w6, ok tt))
                (λ _ _. emit_files out rollback_succeeded (next_tick (next_tick w4)) ∙ same)
                (λ e _. emit_files out (rollback_failed e) (next_tick (next_tick w4)) ∙ same))
            (λ e _. emit_files out (rollback_failed e) (next_tick w4) ∙ same))
        (λ e _. emit_files out (rollback_failed e) w4 ∙ same)

  -- A rollback changes no file but the live one. If it succeeds, and the backup was there, the live
  -- file holds what the backup holds.
  pub execute_rollback_restores :
      (req : RollbackRequest S) (w : World S)
      → let r = execute_rollback out req w in
        KeepsOthers req.active_path w r.0
        × ((content : String)
            → lookup req.backup_path w.files ≡ some content
            → r.1 ≡ ok tt
            → lookup req.active_path r.0.files ≡ some content)
  unfolding execute_rollback
  execute_rollback_restores req w =
      let Q : World S × Result RollbackError (Unit {0}) → Type 0 = λ r.
        KeepsOthers req.active_path w r.0
        × ((content : String)
            → lookup req.backup_path w.files ≡ some content
            → r.1 ≡ ok tt
            → lookup req.active_path r.0.files ≡ some content) in
      let started = emit out rollback_started w in
      let begun = emit_files out rollback_started w in
      let w2 = keep_failed_candidate out req.active_path started in
      let keeps : Keeps w.files w2.files = λ p c h.
        keep_failed_candidate-Keeps req.active_path started p c (ap (lookup p) begun ∙ h) in
      let r3 = restore_snapshot out req.backup_path req.active_path w2 in
      let (others, restored) = restore_snapshot_outcome req.backup_path req.active_path w2 in
      rollback_rule Q req.stage (w, result_of (rollback_request_error req) tt)
        (λ w1.
          rollback_step out req.stage
            (restore_snapshot out req.backup_path req.active_path
              (keep_failed_candidate out req.active_path (emit out rollback_started w1)))
            (rest req))
        (λ _ _.
          rollback_rule Q req.stage r3 (rest req)
            (λ a done.
              let files = rest_files req r3.0 in
              (
                λ p c o h. ap (lookup p) files ∙ others p c o (keeps p c h),
                λ c h _.
                    let (c', there, live) = restored a done in
                    ap (lookup req.active_path) files
                    ∙ live
                    ∙ sym there
                    ∙ keeps req.backup_path c h,
              ))
            (λ e _.
              let files = emit_files out (rollback_failed e) r3.0 in
              (λ p c o h. ap (lookup p) files ∙ others p c o (keeps p c h), λ c h h'. cc)))
        (λ e _.
          let files = emit_files out (rollback_failed e) w in
          (λ p c o h. ap (lookup p) files ∙ h, λ c h h'. cc))
