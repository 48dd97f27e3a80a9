-- ===== src/Apply/Pipeline/Stages.antt =====
-- internal/service/apply.go: what each stage of the transaction does to the world.
use nrcc.Base.{
  suc, ◌≡◌, ◌≢◌, refl, sym, ◌∙◌, ap, inl, inr, String, Bool, true, false, Option, none, some,
  Result, ok, err, arith, if◌then◌else◌, str_eq, eq_iff, Option-cases, Bool-cases, Result-cases,
}
use nrcc.Base.Assoc.{lookup, lookup-erase}
use nrcc.Apply.{
  World, AuditEvent, Outside, Cause, Stage, SourceRevision, apply_reconcile, apply_failure,
  next_tick, emit,
}
use nrcc.Apply.Files.{
  read_file, read_file_still, restore_source_bytes, Elsewhere, atomic_write_settings-Elsewhere,
}
use nrcc.Apply.Snapshot.{Keeps, Taken, write_settings_snapshot, write_settings_snapshot-Taken}
use nrcc.Apply.Revision.{revision_matches}
use nrcc.Apply.Service.{MirrorSnapshot, ConfigService, ApplyRequest, ApplyError, get_raw_settings}
use nrcc.Apply.Pipeline.{
  LiveCopy, candidate_error, apply_validate, apply_backup_stage, reconcile_or_restore,
  apply_reconcile_stage, staged,
}

-- The files, the store and the audit trail are what they were.
abbrev pub Same : {S : Type 0} → World S → World S → Type 0
Same w w' = (w'.files ≡ w.files) × (w'.store ≡ w.store) × (w'.audit ≡ w.audit)

-- What the backup stage leaves: every file and the live one among them; and where a file was live,
-- a formerly free path that holds its content.
pub record BackedUp {S : Type 0} (path : String) (w : World S) (r : World S × Result Cause LiveCopy)
    : Type 0 where
  pub same_store : r.0.store ≡ w.store
  pub same_audit : r.0.audit ≡ w.audit
  pub keeps : Keeps w.files r.0.files
  pub same_live : lookup path r.0.files ≡ lookup path w.files
  pub holds :
      (live : LiveCopy) (old : String)
      → r.1 ≡ ok live
      → lookup path w.files ≡ some old
      → (lookup live.backup_path w.files ≡ none) × (lookup live.backup_path r.0.files ≡ some old)

abbrev backup_path_of : Result Cause LiveCopy → Result Cause String
backup_path_of (ok live) = ok live.backup_path
backup_path_of (err e) = err e

pub emit_still :
    {S : Type 0} (out : Outside) (event : AuditEvent) (w : World S)
    → ((emit out event w).files ≡ w.files) × ((emit out event w).store ≡ w.store)
emit_still out event w = elim (Bool-cases out.has_audit_hook) [
  | inl on ↦ rw on (refl, refl)
  | inr off ↦ rw off (refl, refl)
]

module _ {S Config Patch : Type 0} (sha256_hex : String → String) (out : Outside)
    (svc : ConfigService S Config Patch) where
  -- A fact about the end of a transaction follows from both ends of a stage.
  pub staged_rule {ℓ κ} :
      {A : Type 0} {B : Type ℓ} (Q : World S × Result ApplyError B → Type κ) (stage : Stage)
      (r : World S × Result Cause A) (next : A → World S → World S × Result ApplyError B)
      → ((a : A) → r.1 ≡ ok a → Q (next a r.0))
      → ((e : Cause)
          → r.1 ≡ err e
          → Q (emit out (apply_failure stage e) r.0, err (record { stage = stage; cause = e })))
      → Q (staged sha256_hex out svc stage r next)
  unfolding staged
  staged_rule Q stage (w, ok a) next good bad = good a refl
  staged_rule Q stage (w, err e) next good bad = bad e refl

  get_raw_settings_still : (w : World S) → Same w (get_raw_settings sha256_hex out svc w).0
  unfolding get_raw_settings
  get_raw_settings_still w =
      let (files, store, audit, content) = read_file_still out svc.active_path w in
      elim (Result-cases (read_file out svc.active_path w).1) [
        | inr (e, bad) ↦ rw (bad, get_raw_settings) (files, store, audit)
        | inl (c, good) ↦
            rw (good, get_raw_settings)
              (elim (Option-cases c) [
                | inl none_there ↦ rw none_there (files, store, audit)
                | inr (t, there) ↦ rw there (files, store, audit)
              ])
      ]

  pub apply_validate_still :
      (req : ApplyRequest Config Patch) (w : World S)
      → Same w (apply_validate sha256_hex out svc req w).0
  unfolding apply_validate
  apply_validate_still req w = elim (Option-cases (out.cancelled w.tick)) [
    | inr (e, stopped) ↦ rw (stopped, apply_validate) (refl, refl, refl)
    | inl going ↦
        let still = get_raw_settings_still (next_tick w) in
        elim (Result-cases (get_raw_settings sha256_hex out svc (next_tick w)).1) [
          | inr (e, bad) ↦ rw (going, apply_validate, bad) still
          | inl (c, good) ↦ rw (going, apply_validate, good) still
        ]
  ]

  -- A validation that passes compared the revision of the active file with the expected one.
  pub apply_validate_ok :
      (req : ApplyRequest Config Patch) (w : World S) (a : Unit {0})
      → (apply_validate sha256_hex out svc req w).1 ≡ ok a
      → (live : SourceRevision) × ((get_raw_settings sha256_hex out svc (next_tick w)).1 ≡ ok live)
        × (revision_matches req.expected live ≡ true)
  unfolding apply_validate candidate_error
  apply_validate_ok req w a = elim (Option-cases (out.cancelled w.tick)) [
    | inr (e, stopped) ↦ rw (stopped, apply_validate) (λ h. cc)
    | inl going ↦
        let r = get_raw_settings sha256_hex out svc (next_tick w) in
        elim (Result-cases r.1) [
          | inr (e, bad) ↦ rw (going, apply_validate, bad) (λ h. cc)
          | inl (live, good) ↦ elim (Bool-cases (revision_matches req.expected live)) [
            | inl same ↦ λ h. (live, good, same)
            | inr differs ↦ rw (going, apply_validate, good, candidate_error, differs) (λ h. cc)
          ]
        ]
  ]

  BackedUp-nothing :
      (path : String) (w : World S) (r : World S × Result Cause LiveCopy)
      → Same w r.0
      → ((live : LiveCopy) (old : String) → r.1 ≡ ok live → lookup path w.files ≢ some old)
      → BackedUp path w r
  BackedUp-nothing path w r (files, store, audit) nothing = record {
    same_store = store;
    same_audit = audit;
    keeps = λ p c h. ap (lookup p) files ∙ h;
    same_live = ap (lookup path) files;
    holds = λ live old h there. absurd (nothing live old h there);
  }

  BackedUp-file :
      (path old : String) (w w' : World S) (taken : World S × Result Cause String)
      (r : Result Cause LiveCopy)
      → Same w w'
      → Taken old w' taken
      → lookup path w.files ≡ some old
      → ((live : LiveCopy) → r ≡ ok live → taken.1 ≡ ok live.backup_path)
      → BackedUp path w (taken.0, r)
  BackedUp-file path old w w' taken r (files, store, audit) snap live reached =
      let there = ap (lookup path) files ∙ live in
      record {
        same_store = snap.same_store ∙ store;
        same_audit = snap.same_audit ∙ audit;
        keeps = λ p c h. snap.keeps p c (ap (lookup p) files ∙ h);
        same_live = snap.keeps path old there ∙ sym live;
        holds = λ l old' h h'.
            let (free, held) = snap.holds l.backup_path (reached l h) in
            (ap (lookup l.backup_path) (sym files) ∙ free, held ∙ (cc));
      }

  pub apply_backup_stage-BackedUp :
      (req : ApplyRequest Config Patch) (w : World S)
      → BackedUp req.path w (apply_backup_stage sha256_hex out svc req w)
  unfolding apply_backup_stage
  apply_backup_stage-BackedUp req w =
      let read = read_file out req.path w in
      let (files, store, audit, content) = read_file_still out req.path w in
      elim (Result-cases read.1) [
        | inr (e, bad) ↦
            rw (bad, apply_backup_stage)
              (BackedUp-nothing req.path w (read.0, err e) (files, store, audit) (λ l o h. cc))
        | inl (c, good) ↦ elim (Option-cases c) [
          | inl absent ↦
              rw (good, apply_backup_stage, absent)
                (BackedUp-nothing req.path w (read.0, ok _) (files, store, audit)
                  (λ l o h there. cc (content c good)))
          | inr (old, there) ↦
              let taken = write_settings_snapshot out req.backup_dir old read.0 in
              let snap = write_settings_snapshot-Taken out req.backup_dir old read.0 in
              let live = sym (content c good) ∙ there in
              elim (Result-cases taken.1) [
                | inr (e, bad) ↦
                    rw (good, apply_backup_stage, there, bad)
                      (BackedUp-file req.path old w read.0 taken (err e) (files, store, audit) snap
                        live (λ l h. cc))
                | inl (target, done) ↦
                    rw (good, apply_backup_stage, there, done)
                      (BackedUp-file req.path old w read.0 taken (ok _) (files, store, audit) snap
                        live (λ l h. done ∙ ap backup_path_of h))
              ]
        ]
      ]

  restore_source_bytes-Elsewhere :
      (path previous : String) (existed : Bool) (w : World S)
      → Elsewhere path w (restore_source_bytes out path previous existed w).0
  unfolding restore_source_bytes
  restore_source_bytes-Elsewhere path previous true w p other =
      atomic_write_settings-Elsewhere out path previous w p other
  restore_source_bytes-Elsewhere path previous false w p other =
      elim (Option-cases (out.remove_error w.tick)) [
        | inr (e, bad) ↦ rw (bad, restore_source_bytes) refl
        | inl fine ↦
            rw (fine, restore_source_bytes)
              (ground (arith, lookup-erase path p w.files, eq_iff path p, eq_iff p path))
      ]

  reconcile_or_restore_outcome :
      (req : ApplyRequest Config Patch) (live : LiveCopy) (w : World S)
      → let r = reconcile_or_restore sha256_hex out svc req live w in
        Elsewhere req.path w r.0 × ((m : MirrorSnapshot Config) → r.1 ≡ ok m → r.0.files ≡ w.files)
  unfolding reconcile_or_restore
  reconcile_or_restore_outcome req live w =
      let mirrored = svc.reconcile_raw_settings w.tick req.content w.store in
      let w' = record w { store = mirrored.0; tick = suc w.tick } in
      let existed = if str_eq live.backup_path "" then false else true in
      elim (Result-cases mirrored.1) [
        | inl (m, good) ↦ rw (good, reconcile_or_restore) (λ p o. refl, λ m' h. refl)
        | inr (e, bad) ↦
            rw (bad, reconcile_or_restore)
              (restore_source_bytes-Elsewhere req.path live.live_content existed w', λ m h. cc)
      ]

  -- Reconciling touches no file but the live one, and that one only where it fails.
  pub apply_reconcile_stage_outcome :
      (req : ApplyRequest Config Patch) (live : LiveCopy) (w : World S)
      → let r = apply_reconcile_stage sha256_hex out svc req live w in
        Elsewhere req.path w r.0
        × ((m : Option (MirrorSnapshot Config)) → r.1 ≡ ok m → r.0.files ≡ w.files)
  unfolding apply_reconcile_stage
  apply_reconcile_stage_outcome req live w = elim (Option-cases req.structured_config) [
    | inr (c, given) ↦ rw (given, apply_reconcile_stage) (λ p o. refl, λ m h. refl)
    | inl no_config ↦
        rw (no_config, apply_reconcile_stage)
          (elim (Option-cases req.structured_patch) [
            | inr (c, given) ↦ rw given (λ p o. refl, λ m h. refl)
            | inl no_patch ↦
                let r = reconcile_or_restore sha256_hex out svc req live w in
                let (others, kept) = reconcile_or_restore_outcome req live w in
                elim (Result-cases r.1) [
                  | inr (e, bad) ↦ rw (no_patch, bad) (others, λ m h. cc)
                  | inl (m, good) ↦
                      let (files, store) = emit_still out apply_reconcile r.0 in
                      rw (no_patch, good)
                        (λ p o. ap (lookup p) files ∙ others p o, λ m' h. files ∙ kept m good)
                ]
          ])
  ]
