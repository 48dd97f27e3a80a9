-- ===== src/Adapter.antt =====
-- internal/service/apply_adapter.go: which adapter restarts Node-RED, and what its restart does.
pub mod Compatibility
pub mod Selection
pub mod Readiness
pub mod Tests
use nrcc.Base.{
  String, Bool, true, false, not, Option, none, some, List, [], ◌∷◌, Result, ok, err, if◌then◌else◌,
  str_eq, ◌||◌,
}

-- `ConfigurationCapabilities`
pub record ConfigurationCapabilities : Type 0 where
  pub runtime_version : String
  pub adapter : String
  pub catalog_version : String
  pub source : String
  pub mode : String
  pub editable : Bool
  pub reason : String

-- `InstallationMode`; `other_mode` is any other string.
pub data InstallationMode : Type 0 where
  native_mode : InstallationMode
  docker_mode : InstallationMode
  other_mode : String → InstallationMode

-- `NodeRedEnvironment`, the fields that the selection reads.
pub record NodeRedEnvironment : Type 0 where
  pub mode : InstallationMode
  pub managed_by_nrcc : Bool
  pub container_name : String
  pub container_id : String
  pub readiness_url : String
  pub ambiguous : Bool

-- `ApplyAdapterDeps`: which managers are wired, and what the resolver answers where there is one.
pub record ApplyAdapterDeps : Type 0 where
  pub process_manager : Bool
  pub systemd_manager : Bool
  pub readiness_url_resolver : Option (Result String String)

-- The adapters that are selected: `nativeBinaryAdapter` with its resolver, `nativeSystemdAdapter` with
-- its unit, `dockerTargetAdapter` with its container, address and audit name.
pub data ApplyAdapter : Type 0 where
  native_binary : Result String String → ApplyAdapter
  native_systemd : String → ApplyAdapter
  docker_target : String → String → String → ApplyAdapter

-- `ErrUnsupportedAdapter` with what is wrong.
pub data Unsupported : Type 0 where
  wrong_adapter : String → Unsupported
  ambiguous_authority : Unsupported
  no_process_manager : Unsupported
  unknown_endpoint : Unsupported
  no_systemd_manager : Unsupported
  empty_unit : Unsupported
  no_docker_target : Unsupported
  wrong_mode : InstallationMode → Unsupported

module _ (trim_space : String → String) where
  unfoldable pub is_blank : String → Bool
  is_blank s = str_eq (trim_space s) ""

  -- The resolver of a managed native installation.
  unfoldable pub readiness_resolver :
      ApplyAdapterDeps → NodeRedEnvironment → Option (Result String String)
  unfolding is_blank
  readiness_resolver deps env = elim deps.readiness_url_resolver [
    | some answer ↦ some answer
    | none ↦ if is_blank env.readiness_url then none else some (ok env.readiness_url)
  ]

  unfoldable pub select_native :
      NodeRedEnvironment → ApplyAdapterDeps → Result Unsupported ApplyAdapter
  unfolding readiness_resolver is_blank
  select_native env deps =
      if env.managed_by_nrcc
      then (if deps.process_manager
          then (elim (readiness_resolver deps env) [
            | none ↦ err unknown_endpoint
            | some answer ↦ ok (native_binary answer)
          ])
          else err no_process_manager)
      else if deps.systemd_manager
      then (if is_blank env.container_name
          then err empty_unit
          else ok (native_systemd env.container_name))
      else err no_systemd_manager

  unfoldable pub select_docker : NodeRedEnvironment → Result Unsupported ApplyAdapter
  unfolding is_blank
  select_docker env =
      if is_blank env.container_id || is_blank env.readiness_url
      then err no_docker_target
      else let audit_name = if env.managed_by_nrcc then "docker-compose" else "docker-custom" in
        ok (docker_target (trim_space env.container_id) (trim_space env.readiness_url) audit_name)

  -- The switch over the mode.
  unfoldable pub select_for_mode :
      InstallationMode → NodeRedEnvironment → ApplyAdapterDeps → Result Unsupported ApplyAdapter
  unfolding select_native select_docker
  select_for_mode native_mode env deps = select_native env deps
  select_for_mode docker_mode env deps = select_docker env
  select_for_mode (other_mode m) env deps = err (wrong_mode (other_mode m))

  -- `SelectApplyAdapter`
  unfoldable pub select_apply_adapter :
      ConfigurationCapabilities
      → NodeRedEnvironment
      → ApplyAdapterDeps
      → Result Unsupported ApplyAdapter
  unfolding select_for_mode
  select_apply_adapter capabilities env deps =
      if not (str_eq capabilities.adapter "nodered-5")
      then err (wrong_adapter capabilities.adapter)
      else if env.ambiguous
      then err ambiguous_authority
      else select_for_mode env.mode env deps

-- What a restart asks of the outside: the process manager's, or a command.
pub data Action : Type 0 where
  restart_process : Action
  command : List String → Action

pub data RestartError : Type 0 where
  cancelled : String → RestartError
  unit_missing : RestartError
  container_missing : RestartError
  failed : String → RestartError

abbrev pub Restarted : Type 0
Restarted = Option Action × Option RestartError

unfoldable pub acted : (Action → Option String) → Action → Restarted
acted answers a = (some a, elim (answers a) [ none ↦ none | some e ↦ some (failed e) ])

-- The `Restart` of each adapter, with what it asked of the outside. The first argument is the
-- error of the context.
unfoldable pub restart : Option String → (Action → Option String) → ApplyAdapter → Restarted
unfolding acted
restart (some e) answers a = (none, some (cancelled e))
restart none answers (native_binary _) = acted answers restart_process
restart none answers (native_systemd unit) =
    if str_eq unit ""
    then (none, some unit_missing)
    else acted answers (command ("systemctl" ∷ "restart" ∷ unit ∷ []))
restart none answers (docker_target id url audit) =
    if str_eq id ""
    then (none, some container_missing)
    else acted answers (command ("docker" ∷ "restart" ∷ id ∷ []))

-- `applyAuditName`
unfoldable pub apply_audit_name : ApplyAdapter → String
apply_audit_name (native_binary _) = "native-binary"
apply_audit_name (native_systemd _) = "native-systemd"
apply_audit_name (docker_target id url audit) = if str_eq audit "" then "docker-custom" else audit
