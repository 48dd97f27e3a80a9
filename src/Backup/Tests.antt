-- ===== src/Backup/Tests.antt =====
-- internal/service/backup.go: pruning to one automatic backup, a configuration with nothing in it, and
-- a removal that crashed.
use nrcc.Base.{ℕ, suc, ◌≡◌, ◌≢◌, refl, String, true, false, none, some, List, [], ◌∷◌, err}
use nrcc.Backup.{
  BackupType, manual, auto, Backup, pos, negsuc, BackupConfig, retention_for_type, removed,
  prune_backups, normalize_backup_config, schedule_spec, unsupported_schedule,
}
use nrcc.Backup.Retention.{IsPruned, prune_backups-IsPruned}
use nrcc.Backup.Schedule.{normalize_backup_config_settles}
use nrcc.Backup.Removal.{
  Slot, crashes_renamed, ends, done, atomic_remove, remove_all, atomic_remove_recovers,
}

abbrev backup : String → BackupType → ℕ → Backup
backup id t at = record { id = id; backup_type = t; created_at = at; mod_time = some at }

abbrev directory : List Backup
directory = backup "a" auto 10 ∷ backup "m" manual 5 ∷ backup "b" auto 30 ∷ backup "c" auto 20 ∷ []

abbrev config : BackupConfig
config = record {
  enabled = true;
  schedule = "weekly";
  custom_schedule = "";
  retention_manual = negsuc 3;
  retention_auto = pos 1;
  retention_pre_restore = pos 0;
  include_config = true;
  include_settings = true;
  include_flows_cred = true;
  include_package_json = true;
}

prune_backups-IsPruned_example :
    IsPruned auto "b" 1 directory (prune_backups (λ _. removed) config auto "b" directory)
unfolding retention_for_type
prune_backups-IsPruned_example =
    prune_backups-IsPruned (λ _. removed) config auto "b" 0 directory refl

normalize_backup_config_settles_example :
    let n = normalize_backup_config (λ s. s) (λ s. s) config in
    (normalize_backup_config (λ s. s) (λ s. s) n ≡ n)
    × ((t : BackupType) → (k : ℕ) × (retention_for_type n t ≡ pos (suc k)))
    × ((s : String)
        → schedule_spec (λ s. s) (λ s. s) (λ _. none) config ≢ err (unsupported_schedule s))
normalize_backup_config_settles_example =
    normalize_backup_config_settles (λ s. s) (λ s. s) (λ _. none) config (λ s _. refl) refl
      (λ s. refl)

abbrev there : Slot
there = record { present = true; marker = false }

atomic_remove_recovers_example :
    ((atomic_remove (ends none none) (remove_all (crashes_renamed ∷ []) there)).1 ≡ done
      → (atomic_remove (ends none none) (remove_all (crashes_renamed ∷ []) there)).0
        ≡ record { present = false; marker = false })
    × ((atomic_remove (ends none none) (remove_all (crashes_renamed ∷ []) there)).0
        ≡ record { present = false; marker = false })
atomic_remove_recovers_example =
    atomic_remove_recovers (crashes_renamed ∷ []) (ends none none) there refl
