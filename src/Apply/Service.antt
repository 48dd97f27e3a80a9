-- ===== src/Apply/Service.antt =====
-- internal/service/apply.go: the request, the result and the configuration service that the
-- transaction calls. That service (config.go, config_reconcile.go) is an interface here; each of its
-- calls that may meet a fault is told the tick at which it is made.
use nrcc.Base.{ℕ, String, Bool, Option, none, some, Result, ok, err}
use nrcc.Apply.{Action, Outside, Cause, Stage, SourceRevision}
use nrcc.Apply.Files.{read_file}
use nrcc.Apply.Revision.{fingerprint_source}

-- `MirrorSnapshot`
pub record MirrorSnapshot (Config : Type 0) : Type 0 where
  pub existed : Bool
  pub previous : Config
  pub committed : Config

-- `StructuredApplyInput`; the live document is not read by the transaction.
pub record StructuredApplyInput (Config : Type 0) : Type 0 where
  pub previous : Config
  pub committed : Config
  pub content : String
  pub backup_dir : String

-- What the transaction calls of `ConfigService`. A call that changes the store returns the new one
-- with its result.
pub record ConfigService (S Config Patch : Type 0) : Type 0 where
  -- `hostSvc.Detect().Settings.Path`, and the default settings rendered.
  pub active_path : String
  pub default_content : String
  pub parse_config_from_content : ℕ → String → Result Cause Config
  pub admin_auth_passwords_error : Config → Option Cause
  pub reconcile_raw_settings : ℕ → String → S → S × Result Cause (MirrorSnapshot Config)
  pub restore_mirror : ℕ → MirrorSnapshot Config → S → S × Option Cause
  pub preview_structured_patch : ℕ → Patch → S → Result Cause Config
  pub commit_structured : ℕ → Config → S → S × Result Cause (StructuredApplyInput Config)
  pub commit_structured_patch : ℕ → Patch → S → S × Result Cause (StructuredApplyInput Config)
  pub restore_structured : ℕ → StructuredApplyInput Config → S → S × Option Cause

-- `ApplyRequest`, less what only feeds the audit trail's meta data.
pub record ApplyRequest (Config Patch : Type 0) : Type 0 where
  pub path : String
  pub content : String
  pub expected : SourceRevision
  pub backup_dir : String
  pub structured_config : Option Config
  pub structured_patch : Option Patch

-- `ApplyResult`, less the redacted diff.
pub record ApplyResult (Config : Type 0) : Type 0 where
  pub configuration : Option Config
  pub revision : SourceRevision
  pub backup_path : String
  pub path : String
  pub mirror : Option (MirrorSnapshot Config)

-- `ApplyError`
pub record ApplyError : Type 0 where
  pub stage : Stage
  pub cause : Cause

-- `GetRawSettings`: the revision and content of the active file, or of the defaults where no file
-- is.
unfoldable pub get_raw_settings :
    {S Config Patch : Type 0}
    → (String → String)
    → Outside
    → ConfigService S Config Patch
    → Action S SourceRevision
unfolding read_file
get_raw_settings sha256_hex out svc w =
    let (w', read) = read_file out svc.active_path w in
    elim read [
      | err e ↦ (w', err e)
      | ok none ↦ (w', ok (fingerprint_source sha256_hex "" svc.default_content))
      | ok (some content) ↦ (w', ok (fingerprint_source sha256_hex "" content))
    ]
