-- ===== src/Adapter/Tests.antt =====
-- internal/service/apply_adapter.go and apply_readiness.go: a container that is restarted, and a probe
-- that reaches it at its third attempt.
use nrcc.Base.Texts.{codes}
use nrcc.Base.{
  ℕ, ◌-◌, ◌*◌, ◌≤◌, ◌≡◌, ◌↔◌, refl, true, false, none, some, [], ◌∷◌, if◌then◌else◌, length, arith,
  ltb,
}
use nrcc.Adapter.{
  docker_mode, NodeRedEnvironment, ApplyAdapterDeps, docker_target, select_apply_adapter, acted,
  restart,
}
use nrcc.Adapter.Compatibility.{SettingsDocument, major_version, resolve_configuration_capabilities}
use nrcc.Adapter.Selection.{own_restart, selected_restarts_own}
use nrcc.Adapter.Readiness.{
  Network, network_error, response, probe_admin_ready, default_config, default_backoff_max,
}
use nrcc.Adapter.Readiness.Attempts.{sum, probe_admin_ready_ends}
use nrcc.Adapter.Readiness.Alive.{IsAliveAt, probe_admin_ready_iff}

abbrev container : NodeRedEnvironment
container = record {
  mode = docker_mode;
  managed_by_nrcc = true;
  container_name = "nodered";
  container_id = "c0ffee";
  readiness_url = "http://127.0.0.1:1880/settings";
  ambiguous = false;
}

abbrev no_deps : ApplyAdapterDeps
no_deps = record { process_manager = false; systemd_manager = false; readiness_url_resolver = none }

abbrev settings : SettingsDocument
settings = record { source = "file"; writable = true }

selected_restarts_own_example :
    (restart none
        (λ _. none)
        (docker_target "c0ffee" "http://127.0.0.1:1880/settings" "docker-compose")
      ≡ acted (λ _. none) (own_restart (λ s. s) container))
    × (major_version (codes "v5.0.6") ≡ some (b'5' ∷ []))
    × (container.ambiguous ≡ false)
unfolding select_apply_adapter resolve_configuration_capabilities major_version
selected_restarts_own_example =
    selected_restarts_own (λ s. s) refl "v5.0.6" settings container no_deps
      (docker_target "c0ffee" "http://127.0.0.1:1880/settings" "docker-compose") (λ _. none) refl

abbrev slow_boot : Network
slow_boot = record {
  cancelled = λ _. none;
  reply = λ n. if ltb n 3 then network_error "connection refused" else response 401;
  cancelled_asleep = λ _. none;
}

probe_admin_ready_ends_example :
    let p = probe_admin_ready (λ s. s) slow_boot default_config "http://127.0.0.1:1880/settings" in
    (p.requests ≤ 6) × (length p.sleeps ≤ 6 - 1) × (sum p.sleeps ≤ default_backoff_max * (6 - 1))
probe_admin_ready_ends_example =
    probe_admin_ready_ends (λ s. s) slow_boot default_config "http://127.0.0.1:1880/settings"
      (omega arith)

probe_admin_ready_iff_example :
    (probe_admin_ready (λ s. s) slow_boot default_config "http://127.0.0.1:1880/settings").outcome
      ≡ none
    ↔ ((k : ℕ) × IsAliveAt slow_boot 1 6 k)
probe_admin_ready_iff_example =
    probe_admin_ready_iff (λ s. s) slow_boot default_config "http://127.0.0.1:1880/settings" refl
