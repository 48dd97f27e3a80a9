-- ===== src/Apply/Pipeline.antt =====
-- internal/service/apply.go: `ApplyService.Apply`, its stages in order and what each leaves behind
-- when it fails.
pub mod Stages
pub mod Atomic
pub mod Guarantees
use nrcc.Base.{
  ℕ, suc, ◌≡◌, String, Bool, true, false, Option, none, some, List, [], ◌∷◌, Result, ok, err,
  if◌then◌else◌, str_eq,
}
use nrcc.Apply.{
  World, Action, Outside, Cause, Stage, SourceRevision, validate, backup, write, reconcile,
  apply_start, apply_backup, apply_write, apply_reconcile, apply_success, apply_failure,
  path_required, backup_dir_required, source_revision_mismatch, joined, next_tick, first_error,
  error_if, result_of, emit,
}
use nrcc.Apply.Paths.{validate_settings_path}
use nrcc.Apply.Revision.{fingerprint_source, revision_matches}
use nrcc.Apply.Files.{read_file, atomic_write_settings, restore_source_bytes}
use nrcc.Apply.Snapshot.{write_settings_snapshot}
use nrcc.Apply.Service.{
  MirrorSnapshot, ConfigService, ApplyRequest, ApplyResult, ApplyError, get_raw_settings,
}

-- The backup path, empty where no file was there, with the content that was live.
pub record LiveCopy : Type 0 where
  pub backup_path : String
  pub live_content : String

-- The boundary checks at the head of `apply`.
unfoldable pub request_error : {Config Patch : Type 0} → ApplyRequest Config Patch → Option Cause
request_error req = first_error (
    error_if (str_eq req.path "") path_required
    ∷ error_if (str_eq req.backup_dir "") backup_dir_required
    ∷ validate_settings_path req.path
    ∷ validate_settings_path req.backup_dir
    ∷ [])

module _ {S Config Patch : Type 0} (sha256_hex : String → String) (out : Outside)
    (svc : ConfigService S Config Patch) where
  -- The checks of `applyValidate` after the live settings were read.
  unfoldable pub candidate_error : ApplyRequest Config Patch → SourceRevision → ℕ → Option Cause
  candidate_error req live tick =
      if revision_matches req.expected live
      then elim (svc.parse_config_from_content tick req.content) [
        | err e ↦ some e
        | ok parsed ↦ svc.admin_auth_passwords_error parsed
      ]
      else some source_revision_mismatch

  -- `applyValidate`
  unfoldable pub apply_validate : ApplyRequest Config Patch → Action S (Unit {0})
  unfolding candidate_error
  apply_validate req w = elim (out.cancelled w.tick) [
    | some e ↦ (next_tick w, err e)
    | none ↦
        let (w', live) = get_raw_settings sha256_hex out svc (next_tick w) in
        elim live [
          | err e ↦ (w', err e)
          | ok revision ↦ (next_tick w', result_of (candidate_error req revision w'.tick) tt)
        ]
  ]

  -- `applyBackup`: no live file, no backup.
  unfoldable pub apply_backup_stage : ApplyRequest Config Patch → Action S LiveCopy
  apply_backup_stage req w =
      let (w', read) = read_file out req.path w in
      elim read [
        | err e ↦ (w', err e)
        | ok none ↦ (w', ok (record { backup_path = ""; live_content = "" }))
        | ok (some content) ↦
            let (w'', taken) = write_settings_snapshot out req.backup_dir content w' in
            elim taken [
              | err e ↦ (w'', err e)
              | ok target ↦ (w'', ok (record { backup_path = target; live_content = content }))
            ]
      ]

  -- The reconciliation of a raw apply; where it fails the old bytes are put back.
  unfoldable pub reconcile_or_restore :
      ApplyRequest Config Patch → LiveCopy → Action S (MirrorSnapshot Config)
  reconcile_or_restore req live w =
      let (store', mirrored) = svc.reconcile_raw_settings w.tick req.content w.store in
      let w' = record w { store = store'; tick = suc w.tick } in
      elim mirrored [
        | ok snapshot ↦ (w', ok snapshot)
        | err e ↦
            let existed = if str_eq live.backup_path "" then false else true in
            let (w'', restored) = restore_source_bytes out req.path live.live_content existed w' in
            (w'', err (elim restored [ ok _ ↦ e | err r ↦ joined e r ]))
      ]

  -- Only a raw apply reconciles.
  unfoldable pub apply_reconcile_stage :
      ApplyRequest Config Patch → LiveCopy → Action S (Option (MirrorSnapshot Config))
  unfolding reconcile_or_restore
  apply_reconcile_stage req live w = elim req.structured_config [
    | some c ↦ (w, ok none)
    | none ↦ elim req.structured_patch [
      | some p ↦ (w, ok none)
      | none ↦
          let (w', mirrored) = reconcile_or_restore req live w in
          elim mirrored [
            | err e ↦ (w', err e)
            | ok snapshot ↦ (emit out apply_reconcile w', ok (some snapshot))
          ]
    ]
  ]

  -- One stage of `apply`: where it fails, the failure is recorded and the transaction ends.
  unfoldable pub staged {ℓ} :
      {A : Type 0} {B : Type ℓ}
      → Stage
      → World S × Result Cause A
      → (A → World S → World S × Result ApplyError B)
      → World S × Result ApplyError B
  staged stage (w, ok a) next = next a w
  staged stage (w, err e) next =
      (emit out (apply_failure stage e) w, err (record { stage = stage; cause = e }))

  abbrev pub result_for :
      ApplyRequest Config Patch → LiveCopy → Option (MirrorSnapshot Config) → ApplyResult Config
  result_for req live mirror = record {
    configuration = elim mirror [ none ↦ none | some m ↦ some m.committed ];
    revision = fingerprint_source sha256_hex "" req.content;
    backup_path = live.backup_path;
    path = req.path;
    mirror = mirror;
  }

  abbrev pub finish : Bool → World S → World S
  finish emit_success w = if emit_success then emit out (apply_success write) w else w

  -- `apply`
  unfoldable pub apply :
      ApplyRequest Config Patch → Bool → World S → World S × Result ApplyError (ApplyResult Config)
  unfolding staged
  apply req emit_success w =
      let started = emit out apply_start w in
      staged validate (started, result_of (request_error req) tt)
        λ _ w1. staged validate (apply_validate req w1) λ _ w2.
          staged backup (apply_backup_stage req w2) λ live w3.
            staged write (atomic_write_settings out req.path req.content (emit out apply_backup w3))
              λ _ w4.
                staged reconcile (apply_reconcile_stage req live (emit out apply_write w4))
                  λ mirror w5. (finish emit_success w5, ok (result_for req live mirror))
