-- ===== src/Backup/Schedule.antt =====
-- internal/service/backup.go: a normalized configuration.
use nrcc.Base.{
  ℕ, zero, suc, ◌≡◌, ◌≢◌, refl, ◌∙◌, ap, inl, inr, String, Bool, true, false, Option, err,
  if◌then◌else◌, str_eq, arith, Bool-cases,
}
use nrcc.Backup.{
  BackupType, manual, auto, pre_restore, ℤ, pos, negsuc, BackupConfig, retention_for_type, max_int,
  is_schedule, named_schedule, normalize_backup_config, spec_of, schedule_spec,
  unsupported_schedule,
}

max_int_positive : (r : ℤ) (d : ℕ) → (n : ℕ) × (max_int 1 r d ≡ pos (suc n))
unfolding max_int
max_int_positive (negsuc n) zero = (0, refl)
max_int_positive (negsuc n) (suc d) = (d, ground arith)
max_int_positive (pos zero) zero = (0, refl)
max_int_positive (pos zero) (suc d) = (d, ground arith)
max_int_positive (pos (suc n)) d = (n, ground arith)

max_int_again : (n d : ℕ) → max_int 1 (pos (suc n)) d ≡ pos (suc n)
unfolding max_int
max_int_again n d = ground arith

module _ (trim_space to_lower : String → String) where
  -- The named schedules are trimmed and in lower case.
  abbrev pub AreNamed : Type 0
  AreNamed = (s : String) → is_schedule s ≡ true → trim_space (to_lower s) ≡ s

  named_schedule-is_schedule :
      (s : String) → is_schedule (named_schedule trim_space to_lower s) ≡ true
  unfolding named_schedule is_schedule
  named_schedule-is_schedule s = elim (Bool-cases (is_schedule (trim_space (to_lower s)))) [
    | inl known ↦ rw (known, named_schedule) known
    | inr unknown ↦ rw (unknown, named_schedule) refl
  ]

  named_schedule_same :
      (v : String)
      → trim_space (to_lower v) ≡ v
      → is_schedule v ≡ true
      → named_schedule trim_space to_lower v ≡ v
  unfolding named_schedule
  named_schedule_same v same known = rw (named_schedule, same, known) refl

  custom_again :
      (test : Bool) (s : String)
      → trim_space "" ≡ ""
      → trim_space (trim_space s) ≡ trim_space s
      → (if test then trim_space (if test then trim_space s else "") else "")
        ≡ (if test then trim_space s else "")
  custom_again true s empty twice = twice
  custom_again false s empty twice = refl

  off_again :
      (test e : Bool)
      → (if test then false else (if test then false else e)) ≡ (if test then false else e)
  off_again true e = refl
  off_again false e = refl

  max_int_settled : (r : ℤ) (d : ℕ) → max_int 1 (max_int 1 r d) d ≡ max_int 1 r d
  max_int_settled r d = let (n, is) = max_int_positive r d in rw is (max_int_again n d)

  spec_of_known :
      (parse_error : String → Option String) (n : BackupConfig) (s : String)
      → is_schedule n.schedule ≡ true
      → spec_of parse_error n ≢ err (unsupported_schedule s)
  unfolding spec_of is_schedule
  spec_of_known parse_error n s known h = ground arith

  normalized_again :
      (cfg : BackupConfig)
      → AreNamed
      → trim_space "" ≡ ""
      → ((s : String) → trim_space (trim_space s) ≡ trim_space s)
      → normalize_backup_config trim_space to_lower
          (normalize_backup_config trim_space to_lower cfg)
        ≡ normalize_backup_config trim_space to_lower cfg
  unfolding normalize_backup_config
  normalized_again cfg are_named empty twice =
      let v = named_schedule trim_space to_lower cfg.schedule in
      let known = named_schedule-is_schedule cfg.schedule in
      let same = named_schedule_same v (are_named v known) known in
      let off : Bool → String → Bool = λ e x. if str_eq x "disabled" then false else e in
      let custom : String → String → String =
        λ c x. if str_eq x "custom" then trim_space c else "" in
      let enabled_same : off (off cfg.enabled v) (named_schedule trim_space to_lower v)
          ≡ off cfg.enabled v =
        ap (off (off cfg.enabled v)) same ∙ off_again (str_eq v "disabled") cfg.enabled in
      let custom_same : custom (custom cfg.custom_schedule v) (named_schedule trim_space to_lower v)
          ≡ custom cfg.custom_schedule v =
        ap (custom (custom cfg.custom_schedule v)) same
        ∙ custom_again (str_eq v "custom") cfg.custom_schedule empty (twice cfg.custom_schedule) in
      λ i. record {
        enabled = enabled_same i;
        schedule = same i;
        custom_schedule = custom_same i;
        retention_manual = max_int_settled cfg.retention_manual 10 i;
        retention_auto = max_int_settled cfg.retention_auto 30 i;
        retention_pre_restore = max_int_settled cfg.retention_pre_restore 5 i;
        include_config = cfg.include_config;
        include_settings = cfg.include_settings;
        include_flows_cred = cfg.include_flows_cred;
        include_package_json = cfg.include_package_json;
      }

  retained :
      (cfg : BackupConfig) (t : BackupType)
      → (k : ℕ) × (retention_for_type (normalize_backup_config trim_space to_lower cfg) t
          ≡ pos (suc k))
  unfolding normalize_backup_config retention_for_type
  retained cfg manual = max_int_positive cfg.retention_manual 10
  retained cfg auto = max_int_positive cfg.retention_auto 30
  retained cfg pre_restore = max_int_positive cfg.retention_pre_restore 5

  known_after :
      (cfg : BackupConfig)
      → is_schedule (normalize_backup_config trim_space to_lower cfg).schedule ≡ true
  unfolding normalize_backup_config
  known_after cfg = named_schedule-is_schedule cfg.schedule

  -- For any configuration, one that is normalized stays as it is when it is normalized again, keeps at
  -- least one backup of each type, and has a schedule that `scheduleSpec` supports. Lower case and trimming
  -- leave the named schedules alone, and trimming twice is trimming once.
  pub normalize_backup_config_settles :
      (parse_error : String → Option String) (cfg : BackupConfig)
      → AreNamed
      → trim_space "" ≡ ""
      → ((s : String) → trim_space (trim_space s) ≡ trim_space s)
      → let n = normalize_backup_config trim_space to_lower cfg in
        (normalize_backup_config trim_space to_lower n ≡ n)
        × ((t : BackupType) → (k : ℕ) × (retention_for_type n t ≡ pos (suc k)))
        × ((s : String)
            → schedule_spec trim_space to_lower parse_error cfg ≢ err (unsupported_schedule s))
  unfolding schedule_spec
  normalize_backup_config_settles parse_error cfg are_named empty twice = (
    normalized_again cfg are_named empty twice,
    retained cfg,
    λ s.
        spec_of_known parse_error (normalize_backup_config trim_space to_lower cfg) s
          (known_after cfg),
  )
