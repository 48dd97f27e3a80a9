-- ===== src/Apply/Rollback.antt =====
-- internal/service/apply_rollback.go: going back to the snapshot after a restart or a readiness
-- probe failed.
use Prim.Native.String.{◌++◌}
use nrcc.Base.{
  suc, ◌≡◌, refl, sym, ◌∙◌, ap, inl, inr, String, Bool, true, false, Option, none, some, [], ◌∷◌,
  Result, ok, err, arith, str_eq, eq_refl, Option-cases, Result-cases,
}
use nrcc.Base.Assoc.{lookup, insert, lookup-insert}
use nrcc.Apply.{
  World, Action, Outside, Cause, Stage, adapter_nil, not_exist, other, rollback_started,
  rollback_succeeded, rollback_degraded, rollback_failed, next_tick, first_error, error_if,
  result_of, emit,
}
use nrcc.Apply.Paths.{validate_settings_path}
use nrcc.Apply.Files.{read_file, atomic_write_settings}
use nrcc.Apply.Snapshot.{Created, made, name_taken, failed, write_file_exclusive}
pub mod Restores

-- `RollbackRequest`, less what only feeds the audit trail. What restores further state changes
-- nothing but the store.
pub record RollbackRequest (S : Type 0) : Type 0 where
  pub backup_path : String
  pub active_path : String
  pub stage : Stage
  pub has_adapter : Bool
  pub restore_state : Option (S → S × Option Cause)

-- `RollbackError`
pub record RollbackError : Type 0 where
  pub stage : Stage
  pub cause : Cause

-- The checks at the head of `ExecuteRollback`.
unfoldable pub rollback_request_error : {S : Type 0} → RollbackRequest S → Option Cause
rollback_request_error req = first_error (
    error_if (str_eq req.backup_path "") (other "rollback: backup path is empty")
    ∷ error_if (str_eq req.active_path "") (other "rollback: active path is empty")
    ∷ (elim req.has_adapter [ true ↦ none | false ↦ some adapter_nil ])
    ∷ [])

unfoldable pub creation_error : Created → Option Cause
creation_error made = none
creation_error name_taken = some (other "file exists")
creation_error (failed e) = some e

module _ {S : Type 0} (out : Outside) where
  -- `copyFileExclusive`: a source that is not there is no error.
  unfoldable pub copy_file_exclusive : String → String → World S → World S × Option Cause
  unfolding read_file creation_error
  copy_file_exclusive src dst w =
      let (w', read) = read_file out src w in
      elim read [
        | err e ↦ (w', some e)
        | ok none ↦ (w', none)
        | ok (some content) ↦ elim (out.mkdir_error w'.tick) [
          | some e ↦ (next_tick w', some e)
          | none ↦
              let (w'', created) = write_file_exclusive out dst content (next_tick w') in
              (w'', creation_error created)
        ]
      ]

  -- The post-mortem copy of the rejected candidate (`failedSiblingPath` draws its name); what goes
  -- wrong here is recorded only.
  unfoldable pub keep_failed_candidate : String → World S → World S
  unfolding copy_file_exclusive
  keep_failed_candidate path w = elim (out.random_name w.tick) [
    | err e ↦ emit out (rollback_degraded e) (next_tick w)
    | ok token ↦
        let (w', copied) = copy_file_exclusive path (path ++ ".failed-" ++ token) (next_tick w) in
        elim copied [ none ↦ w' | some e ↦ emit out (rollback_degraded e) w' ]
  ]

  -- `restoreSnapshotContext`
  unfoldable pub restore_snapshot : String → String → Action S (Unit {0})
  restore_snapshot backup_path active_path w =
      elim (first_error
        (validate_settings_path backup_path ∷ validate_settings_path active_path ∷ [])) [
          | some e ↦ (w, err e)
          | none ↦
              let (w', read) = read_file out backup_path w in
              elim read [
                | err e ↦ (w', err e)
                | ok none ↦ (w', err not_exist)
                | ok (some content) ↦ atomic_write_settings out active_path content w'
              ]
        ]

  unfoldable pub run_restore_state : Option (S → S × Option Cause) → Action S (Unit {0})
  run_restore_state none w = (w, ok tt)
  run_restore_state (some restore) w =
      let (store', failure) = restore w.store in
      (record w { store = store'; tick = suc w.tick }, result_of failure tt)

  -- A step of the rollback: where it fails, the failure is recorded and the rollback ends.
  unfoldable pub rollback_step :
      Stage
      → World S × Result Cause (Unit {0})
      → (World S → World S × Result RollbackError (Unit {0}))
      → World S × Result RollbackError (Unit {0})
  rollback_step stage (w, ok _) next = next w
  rollback_step stage (w, err e) next =
      (emit out (rollback_failed e) w, err (record { stage = stage; cause = e }))

  -- `ExecuteRollback`
  unfoldable pub execute_rollback :
      RollbackRequest S → World S → World S × Result RollbackError (Unit {0})
  unfolding rollback_step
  execute_rollback req w =
      rollback_step req.stage (w, result_of (rollback_request_error req) tt)
        λ w1.
          let w2 = keep_failed_candidate req.active_path (emit out rollback_started w1) in
          rollback_step req.stage (restore_snapshot req.backup_path req.active_path w2) λ w3.
            rollback_step req.stage (run_restore_state req.restore_state w3) λ w4.
              rollback_step req.stage (next_tick w4, result_of (out.restart_error w4.tick) tt)
                λ w5.
                  rollback_step req.stage (next_tick w5, result_of (out.ready_error w5.tick) tt)
                    λ w6. (emit out rollback_succeeded w6, ok tt)
