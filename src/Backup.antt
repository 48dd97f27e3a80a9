-- ===== src/Backup.antt =====
-- internal/service/backup.go: the configuration of the backups, and which backups are kept.
mod Counts
mod Order
pub mod Retention
pub mod Schedule
pub mod Removal
pub mod Tests
use Prim.Native.Nat.{Ordering}
use Prim.Native.String.{compare}
use nrcc.Base.{
  ℕ, zero, suc, String, Bool, true, false, not, ◌&&◌, ◌||◌, Option, none, some, List, [], ◌∷◌,
  Result, ok, err, if◌then◌else◌, ltb, leb, ◌==◌, str_eq, keep_if, length, drop,
}

-- `BackupType`
pub data BackupType : Type 0 where
  manual : BackupType
  auto : BackupType
  pre_restore : BackupType

abbrev pub same_type : BackupType → BackupType → Bool
same_type manual manual = true
same_type auto auto = true
same_type pre_restore pre_restore = true
same_type _ _ = false

-- `Backup`, a file of the backup directory named after its id. `created_at` is a time stamp in RFC 3339 at
-- UTC, which is ordered as its time is; `mod_time` is what a stat of the file finds.
pub record Backup : Type 0 where
  pub id : String
  pub backup_type : BackupType
  pub created_at : ℕ
  pub mod_time : Option ℕ

-- A number of the configuration, which a client may send negative.
pub data ℤ : Type 0 where
  pos : ℕ → ℤ
  negsuc : ℕ → ℤ

-- `BackupConfig`
pub record BackupConfig : Type 0 where
  pub enabled : Bool
  pub schedule : String
  pub custom_schedule : String
  pub retention_manual : ℤ
  pub retention_auto : ℤ
  pub retention_pre_restore : ℤ
  pub include_config : Bool
  pub include_settings : Bool
  pub include_flows_cred : Bool
  pub include_package_json : Bool

abbrev pub id_after : String → String → Bool
id_after a b = elim (compare a b) [ Ordering.gt ↦ true | _ ↦ false ]

-- The order of `pruneBackups`: the newer one first, by the time of creation, then by the time of the
-- file where both are found and differ, then by the id.
unfoldable pub is_newer : Backup → Backup → Bool
is_newer a b =
    if a.created_at == b.created_at
    then (elim a.mod_time [
      | none ↦ id_after a.id b.id
      | some s ↦ elim b.mod_time [
        | none ↦ id_after a.id b.id
        | some t ↦ if s == t then id_after a.id b.id else ltb t s
      ]
    ])
    else ltb b.created_at a.created_at

-- `sort.Slice`, as an insertion sort.
abbrev pub place : Backup → List Backup → List Backup
place b [] = b ∷ []
place b (c ∷ cs) = if is_newer b c then b ∷ c ∷ cs else c ∷ place b cs

abbrev pub sort_newest : List Backup → List Backup
sort_newest [] = []
sort_newest (b ∷ bs) = place b (sort_newest bs)

-- `retentionForType`
unfoldable pub retention_for_type : BackupConfig → BackupType → ℤ
retention_for_type cfg auto = cfg.retention_auto
retention_for_type cfg pre_restore = cfg.retention_pre_restore
retention_for_type cfg manual = cfg.retention_manual

-- What the disk answers to a removal.
pub data RemoveAnswer : Type 0 where
  removed : RemoveAnswer
  not_there : RemoveAnswer
  failed : String → RemoveAnswer

abbrev pub without_id : String → List Backup → List Backup
without_id key dir = keep_if (λ b. not (str_eq b.id key)) dir

-- A directory after a removal, and the ids removed so far with the error that ended the loop.
abbrev pub Pruned : Type 0
Pruned = List Backup × List String × Option String

abbrev pub pruned_one : String → Pruned → Pruned
pruned_one key (dir, ids, e) = (without_id key dir, key ∷ ids, e)

-- The loop of `pruneBackups` over the backups past the limit.
unfoldable pub prune_loop : (String → RemoveAnswer) → String → List Backup → List Backup → Pruned
prune_loop answers keep_id dir [] = (dir, [], none)
prune_loop answers keep_id dir (b ∷ bs) =
    let rest = prune_loop answers keep_id dir bs in
    if str_eq b.id keep_id
    then rest
    else elim (answers b.id) [ failed e ↦ (dir, [], some e) | _ ↦ pruned_one b.id rest ]

-- `pruneBackups` over the backups that `List` finds, for a limit above zero.
unfoldable pub prune_to : (String → RemoveAnswer) → BackupType → String → ℕ → List Backup → Pruned
unfolding prune_loop
prune_to answers backup_type keep_id limit dir =
    let matching = keep_if (λ b. same_type b.backup_type backup_type) dir in
    if leb (length matching) limit
    then (dir, [], none)
    else prune_loop answers keep_id dir (drop limit (sort_newest matching))

unfoldable pub prune_backups :
    (String → RemoveAnswer) → BackupConfig → BackupType → String → List Backup → Pruned
unfolding retention_for_type prune_to
prune_backups answers cfg backup_type keep_id dir = elim (retention_for_type cfg backup_type) [
  | negsuc n ↦ (dir, [], none)
  | pos zero ↦ (dir, [], none)
  | pos (suc n) ↦ prune_to answers backup_type keep_id (suc n) dir
]

-- `maxInt`
unfoldable pub max_int : ℕ → ℤ → ℕ → ℤ
max_int minimum (negsuc n) fallback = pos (if ltb fallback minimum then minimum else fallback)
max_int minimum (pos zero) fallback = pos (if ltb fallback minimum then minimum else fallback)
max_int minimum (pos (suc n)) fallback = pos (if ltb (suc n) minimum then minimum else suc n)

unfoldable pub is_schedule : String → Bool
is_schedule s =
    str_eq s "disabled"
    || str_eq s "hourly"
    || str_eq s "every6h"
    || str_eq s "daily"
    || str_eq s "weekly"
    || str_eq s "custom"

-- The switch of `normalizeBackupConfig`.
unfoldable pub named_schedule : (String → String) → (String → String) → String → String
unfolding is_schedule
named_schedule trim_space to_lower s =
    let value = trim_space (to_lower s) in if is_schedule value then value else "disabled"

-- `normalizeBackupConfig`
unfoldable pub normalize_backup_config :
    (String → String) → (String → String) → BackupConfig → BackupConfig
unfolding max_int named_schedule
normalize_backup_config trim_space to_lower cfg =
    let schedule = named_schedule trim_space to_lower cfg.schedule in
    record {
      enabled = if str_eq schedule "disabled" then false else cfg.enabled;
      schedule = schedule;
      custom_schedule = if str_eq schedule "custom" then trim_space cfg.custom_schedule else "";
      retention_manual = max_int 1 cfg.retention_manual 10;
      retention_auto = max_int 1 cfg.retention_auto 30;
      retention_pre_restore = max_int 1 cfg.retention_pre_restore 5;
      include_config = cfg.include_config;
      include_settings = cfg.include_settings;
      include_flows_cred = cfg.include_flows_cred;
      include_package_json = cfg.include_package_json;
    }

pub data ScheduleError : Type 0 where
  custom_required : ScheduleError
  invalid_custom : String → ScheduleError
  unsupported_schedule : String → ScheduleError

-- The switch of `scheduleSpec` over a normalized configuration.
unfoldable pub spec_of : (String → Option String) → BackupConfig → Result ScheduleError String
spec_of parse_error n =
    if not n.enabled || str_eq n.schedule "disabled"
    then ok ""
    else if str_eq n.schedule "hourly"
    then ok "0 * * * *"
    else if str_eq n.schedule "every6h"
    then ok "0 */6 * * *"
    else if str_eq n.schedule "daily"
    then ok "0 2 * * *"
    else if str_eq n.schedule "weekly"
    then ok "0 2 * * 0"
    else if not (str_eq n.schedule "custom")
    then err (unsupported_schedule n.schedule)
    else if str_eq n.custom_schedule ""
    then err custom_required
    else elim (parse_error n.custom_schedule) [
      | none ↦ ok n.custom_schedule
      | some e ↦ err (invalid_custom e)
    ]

-- `scheduleSpec`
unfoldable pub schedule_spec :
    (String → String)
    → (String → String)
    → (String → Option String)
    → BackupConfig
    → Result ScheduleError String
unfolding normalize_backup_config spec_of
schedule_spec trim_space to_lower parse_error cfg =
    spec_of parse_error (normalize_backup_config trim_space to_lower cfg)
