-- ===== src/Apply.antt =====
-- internal/service/apply.go, apply_revision.go, source_revision.go: what an apply transaction on
-- settings.js works with. The file system is a map from paths to contents; every call that the
-- operating system or another service answers takes the next answer of an oracle, at `tick`.
pub mod Paths
pub mod Revision
pub mod Files
pub mod Snapshot
pub mod Service
pub mod Pipeline
pub mod Rollback
pub mod Runtime
pub mod Flight
pub mod Tests
use nrcc.Base.{
  ℕ, suc, String, Bool, true, false, Option, none, some, List, [], ◌∷◌, ◌++◌, Result, ok, err,
  if◌then◌else◌,
}

-- `ApplyStage`
pub data Stage : Type 0 where
  validate backup write reconcile restart ready rollback : Stage

-- The `Cause` of an error, by its sentinel where it has one.
pub data Cause : Type 0 where
  path_required backup_dir_required adapter_nil : Cause
  path_invalid symlink_rejected not_exist : Cause
  source_revision_mismatch unsupported_adapter apply_in_flight : Cause
  snapshot_attempts_exhausted : Cause
  other : String → Cause
  joined : Cause → Cause → Cause

-- `model.SourceRevision`; equality looks at the first two fields only.
pub record SourceRevision : Type 0 where
  pub fingerprint : String
  pub algorithm : String
  pub captured_at : String

-- The verbs of the audit trail with the stage that each event carries.
pub data AuditEvent : Type 0 where
  apply_start apply_backup apply_write apply_reconcile : AuditEvent
  apply_success : Stage → AuditEvent
  apply_failure : Stage → Cause → AuditEvent
  rollback_started rollback_succeeded : AuditEvent
  rollback_degraded rollback_failed : Cause → AuditEvent
  coordinator_failure : String → Cause → AuditEvent

abbrev pub FileMap : Type 0
FileMap = List (String × String)

-- `S` is the state of the structured configuration store.
pub record World (S : Type 0) : Type 0 where
  pub files : FileMap
  pub store : S
  pub audit : List AuditEvent
  pub tick : ℕ

-- The answers of the operating system to one `AtomicWriteSettings`.
pub record WriteAnswers : Type 0 where
  pub mkdir_error : Option Cause
  pub tmp_error : Option Cause
  pub symlink_error : Option Cause
  pub rename_error : Option Cause
  pub sync_error : Option Cause
  pub chmod_error : Option Cause

-- Its answers to one exclusive creation of a file.
pub record CreateAnswers : Type 0 where
  pub open_error : Option Cause
  pub write_error : Option Cause
  pub left_behind : Option String
  pub sync_dir_error : Option Cause

-- The world outside the transaction, by the tick at which it is asked.
pub record Outside : Type 0 where
  pub cancelled : ℕ → Option Cause
  pub read_error : ℕ → Option Cause
  pub write_answers : ℕ → WriteAnswers
  pub create_answers : ℕ → CreateAnswers
  pub mkdir_error : ℕ → Option Cause
  pub remove_error : ℕ → Option Cause
  pub random_name : ℕ → Result Cause String
  pub restart_error : ℕ → Option Cause
  pub ready_error : ℕ → Option Cause
  pub has_audit_hook : Bool

-- A step of the transaction: it may fail, and what it did before stays done.
abbrev pub Action : Type 0 → Type 0 → Type 0
Action S A = World S → World S × Result Cause A

abbrev pub next_tick : {S : Type 0} → World S → World S
next_tick w = record w { tick = suc w.tick }

-- The first error of a row of checks.
abbrev pub first_error : List (Option Cause) → Option Cause
first_error [] = none
first_error (none ∷ rest) = first_error rest
first_error (some e ∷ rest) = some e

abbrev pub error_if : Bool → Cause → Option Cause
error_if true e = some e
error_if false e = none

abbrev pub result_of : {A : Type 0} → Option Cause → A → Result Cause A
result_of none a = ok a
result_of (some e) a = err e

-- What `emit` and `emitRollback` append, if a hook is there.
abbrev pub emit : {S : Type 0} → Outside → AuditEvent → World S → World S
emit out event w = if out.has_audit_hook then record w { audit = w.audit ++ event ∷ [] } else w
