-- ===== src/Apply/Tests.antt =====
-- internal/service/apply*.go: the theorems on apply transactions at one settings file, with a
-- configuration service that mirrors the raw text.
use Prim.Native.String.{◌++◌}
use mathlib.Core.Bool.{true≢false}
use nrcc.Base.{
  ap, ℕ, ◌≡◌, ◌≢◌, ◌⊎◌, ◌↔◌, ◌≤◌, refl, String, Bool, true, false, none, some, [], ◌∷◌, Result, ok,
  err, length, ltb, if◌then◌else◌, str_eq,
}
use nrcc.Base.Assoc.{lookup, insert}
use nrcc.Apply.{
  World, WriteAnswers, Outside, Cause, Stage, SourceRevision, write, reconcile, restart, other,
  apply_start, next_tick, emit, apply_in_flight,
}
use nrcc.Apply.Paths.{validate_settings_path}
use nrcc.Apply.Revision.{
  source_revision_algorithm, fingerprint_source, revision_matches,
  revision_matches-fingerprint_source,
}
use nrcc.Apply.Files.{
  atomic_write_settings, atomic_write_settings_outcome, finish_error, prepare_error,
}
use nrcc.Apply.Snapshot.{Taken, write_settings_snapshot, write_settings_snapshot-Taken}
use nrcc.Apply.Service.{
  StructuredApplyInput, ConfigService, ApplyRequest, ApplyResult, ApplyError, get_raw_settings,
}
use nrcc.Apply.Pipeline.{
  apply, apply_backup_stage, apply_reconcile_stage, apply_validate, request_error,
}
use nrcc.Apply.Pipeline.Guarantees.{
  apply_loses_nothing, apply_success_installs, apply_failure_leaves, apply_checks_revision,
}
use nrcc.Apply.Rollback.{
  RollbackRequest, execute_rollback, keep_failed_candidate, restore_snapshot,
  rollback_request_error, run_restore_state,
}
use nrcc.Apply.Rollback.Restores.{KeepsOthers, execute_rollback_restores}
use nrcc.Apply.Runtime.{
  apply_runtime, recover, restore_staged, restore_state, run_adapter, runtime_stages,
  stage_structured,
}
use nrcc.Apply.Runtime.Recovery.{Recovered}
use nrcc.Apply.Runtime.Guarantees.{apply_runtime_loses_nothing, apply_runtime_recovers}
use nrcc.Apply.Flight.{Flights, coordinated_apply}
use nrcc.Apply.Flight.Exclusion.{begin, unlock, finish, of_path, run, idle, at_most_one_inside}
use nrcc.Apply.Flight.Release.{coordinated_apply_slots}

abbrev sha : String → String
sha content = "sha:" ++ content

abbrev fine_write : WriteAnswers
fine_write = record {
  mkdir_error = none;
  tmp_error = none;
  symlink_error = none;
  rename_error = none;
  sync_error = none;
  chmod_error = none;
}

abbrev calm : Outside
calm = record {
  cancelled = λ t. none;
  read_error = λ t. none;
  write_answers = λ t. fine_write;
  create_answers = λ t. record {
    open_error = none;
    write_error = none;
    left_behind = none;
    sync_dir_error = none;
  };
  mkdir_error = λ t. none;
  remove_error = λ t. none;
  random_name = λ t. ok "settings-1.js.bak";
  restart_error = λ t. none;
  ready_error = λ t. none;
  has_audit_hook = true;
}

-- The first restart fails.
abbrev shaky : Outside
shaky = record calm { restart_error = λ t. if ltb t 15 then some (other "restart") else none }

abbrev input : String → StructuredApplyInput String
input content = record {
  previous = "m";
  committed = content;
  content = content;
  backup_dir = "/data/backups";
}

abbrev service : ConfigService String String String
service = record {
  active_path = "/data/settings.js";
  default_content = "default";
  parse_config_from_content = λ t c. ok c;
  admin_auth_passwords_error = λ c. none;
  reconcile_raw_settings =
      λ t c s. (c, ok (record { existed = true; previous = s; committed = c }));
  restore_mirror = λ t m s. (m.previous, none);
  preview_structured_patch = λ t p s. ok p;
  commit_structured = λ t c s. (c, ok (input c));
  commit_structured_patch = λ t p s. (p, ok (input p));
  restore_structured = λ t i s. (i.previous, none);
}

abbrev old_revision : SourceRevision
old_revision = record { fingerprint = "sha:old"; algorithm = "sha256"; captured_at = "" }

abbrev new_revision : SourceRevision
new_revision = record { fingerprint = "sha:new"; algorithm = "sha256"; captured_at = "" }

abbrev request : ApplyRequest String String
request = record {
  path = "/data/settings.js";
  content = "new";
  expected = old_revision;
  backup_dir = "/data/backups";
  structured_config = none;
  structured_patch = none;
}

abbrev world : World String
world = record { files = ("/data/settings.js", "old") ∷ []; store = "m"; audit = []; tick = 0 }

abbrev result : ApplyResult String
result = record {
  configuration = some "new";
  revision = new_revision;
  backup_path = "/data/backups/settings-1.js.bak";
  path = "/data/settings.js";
  mirror = some (record { existed = true; previous = "m"; committed = "new" });
}

abbrev applied : World String × Result ApplyError (ApplyResult String)
applied = apply sha calm service request true world

abbrev ran : World String × Result ApplyError (ApplyResult String)
ran = apply_runtime sha shaky service (λ r. ok true) request world

abbrev recovery : RollbackRequest String
recovery = record {
  backup_path = "/data/backups/settings-1.js.bak";
  active_path = "/data/settings.js";
  stage = restart;
  has_adapter = true;
  restore_state = some (λ s. ("m", none));
}

abbrev written_world : World String
written_world = record world {
  files = ("/data/settings.js", "new") ∷ ("/data/backups/settings-1.js.bak", "old") ∷ [];
}

abbrev is_write : Stage → Bool
is_write write = true
is_write _ = false

applied-ok : applied.1 ≡ ok result
unfolding apply request_error validate_settings_path apply_validate get_raw_settings lookup
    revision_matches fingerprint_source apply_backup_stage write_settings_snapshot
    atomic_write_settings prepare_error finish_error apply_reconcile_stage
applied-ok = refl

-- The disk fails after the rename of a write.
abbrev unsynced : Outside
unsynced = record calm {
  write_answers = λ t. record fine_write { sync_error = some (other "fsync") };
}

abbrev unsynced_error : ApplyError
unsynced_error = record { stage = write; cause = other "fsync" }

unsynced-err : (apply sha unsynced service request true world).1 ≡ err unsynced_error
unfolding apply request_error validate_settings_path apply_validate get_raw_settings lookup
    revision_matches fingerprint_source apply_backup_stage write_settings_snapshot
    atomic_write_settings prepare_error finish_error apply_reconcile_stage
unsynced-err = refl

abbrev restart_error : ApplyError
restart_error = record { stage = restart; cause = other "restart" }

ran-err : ran.1 ≡ err restart_error
unfolding apply request_error validate_settings_path apply_validate get_raw_settings lookup
    revision_matches fingerprint_source apply_backup_stage write_settings_snapshot
    atomic_write_settings prepare_error finish_error apply_reconcile_stage apply_runtime
    stage_structured runtime_stages run_adapter recover execute_rollback rollback_request_error
    restore_snapshot keep_failed_candidate insert run_restore_state restore_state restore_staged
ran-err = refl

apply_loses_nothing_example :
    ((old : String)
      → lookup "/data/settings.js" world.files ≡ some old
      → (p : String) × (lookup p (apply sha unsynced service request true world).0.files
          ≡ some old))
    × ((p c : String)
        → str_eq p "/data/settings.js" ≡ false
        → lookup p world.files ≡ some c
        → lookup p (apply sha unsynced service request true world).0.files ≡ some c)
apply_loses_nothing_example = apply_loses_nothing sha unsynced service request true world

apply_success_installs_example :
    (lookup "/data/settings.js" applied.0.files ≡ some "new")
    × ((old : String)
        → lookup "/data/settings.js" world.files ≡ some old
        → (lookup "/data/backups/settings-1.js.bak" world.files ≡ none)
          × (lookup "/data/backups/settings-1.js.bak" applied.0.files ≡ some old))
apply_success_installs_example =
    apply_success_installs sha calm service request true world result applied-ok

write_not_reconcile : ◌≢◌ {A = Stage} write reconcile
write_not_reconcile h = true≢false (ap is_write h)

apply_failure_leaves_example :
    let w' = (apply sha unsynced service request true world).0 in
    (◌≡◌ {A = String} w'.store "m")
    × ((lookup "/data/settings.js" w'.files ≡ lookup "/data/settings.js" world.files)
        ⊎ ((◌≡◌ {A = Stage} write write) × (lookup "/data/settings.js" w'.files ≡ some "new")))
apply_failure_leaves_example =
    apply_failure_leaves sha unsynced service request true world unsynced_error unsynced-err
      write_not_reconcile

apply_checks_revision_example :
    (live : SourceRevision) × ((get_raw_settings sha calm service
        (next_tick (emit calm apply_start world))).1
      ≡ ok live)
    × (revision_matches old_revision live ≡ true)
apply_checks_revision_example =
    apply_checks_revision sha calm service request true world result applied-ok

execute_rollback_restores_example :
    let r = execute_rollback calm recovery written_world in
    KeepsOthers "/data/settings.js" written_world r.0
    × ((content : String)
        → lookup "/data/backups/settings-1.js.bak" written_world.files ≡ some content
        → r.1 ≡ ok tt
        → lookup "/data/settings.js" r.0.files ≡ some content)
execute_rollback_restores_example = execute_rollback_restores calm recovery written_world

apply_runtime_loses_nothing_example :
    ((old : String)
      → lookup "/data/settings.js" world.files ≡ some old
      → (p : String) × (lookup p ran.0.files ≡ some old))
    × KeepsOthers "/data/settings.js" world ran.0
apply_runtime_loses_nothing_example =
    apply_runtime_loses_nothing sha shaky service request (λ r. ok true) world

apply_runtime_recovers_example :
    Recovered sha shaky service "/data/settings.js" "old" restart_error ran.0.files
unfolding lookup
apply_runtime_recovers_example =
    apply_runtime_recovers sha shaky service request (λ r. ok true) world restart_error "old"
      ran-err refl refl

at_most_one_inside_example :
    length (
      of_path "/data/settings.js"
        (run
          (begin "/data/settings.js"
            ∷ begin "/data/settings.js"
            ∷ unlock "/data/settings.js" 0
            ∷ begin "/data/settings.js"
            ∷ finish 0
            ∷ [])
          idle).holding)
    ≤ 1
at_most_one_inside_example =
    at_most_one_inside
      (begin "/data/settings.js"
        ∷ begin "/data/settings.js"
        ∷ unlock "/data/settings.js" 0
        ∷ begin "/data/settings.js"
        ∷ finish 0
        ∷ [])
      "/data/settings.js"

abbrev busy : Flights
busy = record { slots = ("/data/settings.js", 0) ∷ []; closed = []; next = 1 }

coordinated_apply_slots_example :
    let r = coordinated_apply sha calm service (some (λ q. ok true)) request (busy, world) in
    ((q : String) → lookup q r.0.0.slots ≡ lookup q busy.slots)
    × ((f : ℕ)
        → str_eq "/data/settings.js" "" ≡ false
        → lookup "/data/settings.js" busy.slots ≡ some f
        → (r.1 ≡ err apply_in_flight)
          × (r.0.1.files ≡ world.files)
          × (◌≡◌ {A = String} r.0.1.store "m"))
coordinated_apply_slots_example =
    coordinated_apply_slots sha calm service (some (λ q. ok true)) request busy world (λ f h. refl)

write_settings_snapshot-Taken_example :
    Taken "old" world (write_settings_snapshot calm "/data/backups" "old" world)
write_settings_snapshot-Taken_example =
    write_settings_snapshot-Taken calm "/data/backups" "old" world

atomic_write_settings_outcome_example :
    let r = atomic_write_settings unsynced "/data/settings.js" "new" world in
    (◌≡◌ {A = String} r.0.store "m")
    × (r.0.audit ≡ world.audit)
    × (((r.0.files ≡ world.files) × ((e : Cause) × (r.1 ≡ err e)))
        ⊎ (r.0.files ≡ insert "/data/settings.js" "new" world.files))
atomic_write_settings_outcome_example =
    atomic_write_settings_outcome unsynced "/data/settings.js" "new" world

revision_matches-fingerprint_source_example :
    (revision_matches old_revision (fingerprint_source sha "now" "old") ≡ true) ↔ (
      (◌≡◌ {A = String} "sha:old" "")
      ⊎ ((◌≡◌ {A = String} "sha:old" (sha "old"))
          × ((◌≡◌ {A = String} "sha256" "")
              ⊎ (◌≡◌ {A = String} "sha256" source_revision_algorithm))))
revision_matches-fingerprint_source_example =
    revision_matches-fingerprint_source sha "now" "old" old_revision
