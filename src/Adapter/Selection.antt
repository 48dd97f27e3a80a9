-- ===== src/Adapter/Selection.antt =====
-- internal/service/apply_adapter.go: the adapter that is selected restarts the environment's own
-- Node-RED.
use nrcc.Base.Texts.{codes}
use nrcc.Base.{
  ◌≡◌, refl, sym, ◌∙◌, subst, inl, inr, String, true, false, ◌||◌, Option, none, some, [], ◌∷◌, ok,
  arith, if◌then◌else◌, str_eq, eq_iff, Bool-cases, Option-cases,
}
use nrcc.Adapter.{
  InstallationMode, native_mode, docker_mode, other_mode, NodeRedEnvironment, ApplyAdapterDeps,
  ApplyAdapter, native_binary, native_systemd, docker_target, is_blank, readiness_resolver,
  select_native, select_docker, select_for_mode, select_apply_adapter, Action, restart_process,
  command, acted, restart,
}
use nrcc.Adapter.Compatibility.{
  SettingsDocument, major_version, resolve_configuration_capabilities,
  resolve_configuration_capabilities_five, is_five_major,
}

-- What restarts the Node-RED of an environment.
unfoldable pub own_restart : (String → String) → NodeRedEnvironment → Action
own_restart trim_space env = elim env.mode [
  | docker_mode ↦ command ("docker" ∷ "restart" ∷ trim_space env.container_id ∷ [])
  | _ ↦
      if env.managed_by_nrcc
      then restart_process
      else command ("systemctl" ∷ "restart" ∷ env.container_name ∷ [])
]

module _ (trim_space : String → String) (trim_empty : trim_space "" ≡ "") where
  named_nonempty : (s : String) → is_blank trim_space s ≡ false → str_eq s "" ≡ false
  unfolding is_blank
  named_nonempty s h = elim (Bool-cases (str_eq s "")) [
    | inr there ↦ there
    | inl empty ↦
        let e : s ≡ "" = (eq_iff s "").0 empty in
        let blank : str_eq (trim_space s) "" ≡ true = rw (e, trim_empty) refl in cc
  ]

  native_restarts :
      (env : NodeRedEnvironment) (deps : ApplyAdapterDeps) (a : ApplyAdapter)
      → env.mode ≡ native_mode
      → select_native trim_space env deps ≡ ok a
      → (answers : Action → Option String)
      → restart none answers a ≡ acted answers (own_restart trim_space env)
  unfolding select_native restart own_restart is_blank
  native_restarts env deps a native h answers =
      let goal : ApplyAdapter → Type 0 =
        λ b. restart none answers b ≡ acted answers (own_restart trim_space env) in
      elim (Bool-cases env.managed_by_nrcc) [
        | inl managed ↦ elim (Bool-cases deps.process_manager) [
          | inr missing ↦ absurd (ground (arith, h))
          | inl wired ↦ elim (Option-cases (readiness_resolver trim_space deps env)) [
            | inl unknown ↦ absurd (ground (arith, h))
            | inr (url, known) ↦
                let is : select_native trim_space env deps ≡ ok (native_binary url) =
                  simp (managed, select_native, wired, known) in
                let same : native_binary url ≡ a = cc in
                subst goal same (simp (own_restart, native, managed))
          ]
        ]
        | inr own ↦ elim (Bool-cases deps.systemd_manager) [
          | inr missing ↦ absurd (ground (arith, h))
          | inl wired ↦ elim (Bool-cases (is_blank trim_space env.container_name)) [
            | inl blank ↦ absurd (ground (arith, h))
            | inr named ↦
                let is : select_native trim_space env deps
                    ≡ ok (native_systemd env.container_name) =
                  simp (own, select_native, wired, named) in
                let same : native_systemd env.container_name ≡ a = cc in
                let there = named_nonempty env.container_name named in
                subst goal same (simp (own_restart, native, own, restart, there))
          ]
        ]
      ]

  docker_restarts :
      (env : NodeRedEnvironment) (a : ApplyAdapter)
      → env.mode ≡ docker_mode
      → select_docker trim_space env ≡ ok a
      → (answers : Action → Option String)
      → restart none answers a ≡ acted answers (own_restart trim_space env)
  unfolding select_docker restart own_restart is_blank
  docker_restarts env a docker h answers =
      let id = trim_space env.container_id in
      let audit = if env.managed_by_nrcc then "docker-compose" else "docker-custom" in
      let target = docker_target id (trim_space env.readiness_url) audit in
      elim (Bool-cases
        (is_blank trim_space env.container_id || is_blank trim_space env.readiness_url)) [
          | inl blank ↦ absurd (ground (arith, h))
          | inr given ↦
              let is : select_docker trim_space env ≡ ok target = simp (given, select_docker) in
              let same : target ≡ a = cc in
              let there : str_eq id "" ≡ false = ground (arith, given) in
              subst (λ b. restart none answers b ≡ acted answers (own_restart trim_space env)) same
                (simp (own_restart, docker, restart, there))
        ]

  mode_restarts :
      (m : InstallationMode) (env : NodeRedEnvironment) (deps : ApplyAdapterDeps) (a : ApplyAdapter)
      → env.mode ≡ m
      → select_for_mode trim_space m env deps ≡ ok a
      → (answers : Action → Option String)
      → restart none answers a ≡ acted answers (own_restart trim_space env)
  unfolding select_for_mode
  mode_restarts native_mode env deps a is h answers = native_restarts env deps a is h answers
  mode_restarts docker_mode env deps a is h answers = docker_restarts env a is h answers
  mode_restarts (other_mode m) env deps a is h answers = cc

  -- The adapter that is selected for the capabilities of a version restarts, in a context that is not
  -- cancelled, the Node-RED of the environment and nothing else: the process of the manager, the unit or
  -- the container that the environment names. It is selected only for a version of major 5 and an
  -- authority that is not ambiguous. Trimming leaves the empty text alone.
  pub selected_restarts_own :
      (version : String) (settings : SettingsDocument) (env : NodeRedEnvironment)
      (deps : ApplyAdapterDeps) (a : ApplyAdapter) (answers : Action → Option String)
      → select_apply_adapter trim_space
          (resolve_configuration_capabilities version settings)
          env
          deps
        ≡ ok a
      → (restart none answers a ≡ acted answers (own_restart trim_space env))
        × (major_version (codes version) ≡ some (b'5' ∷ []))
        × (env.ambiguous ≡ false)
  unfolding select_apply_adapter
  selected_restarts_own version settings env deps a answers h =
      let capabilities = resolve_configuration_capabilities version settings in
      let five = (resolve_configuration_capabilities_five version settings).0 in
      elim (Bool-cases (str_eq capabilities.adapter "nodered-5")) [
        | inr other ↦ absurd (ground (arith, h))
        | inl right ↦ elim (Bool-cases env.ambiguous) [
          | inl unclear ↦ absurd (ground (arith, h))
          | inr clear ↦ (
            mode_restarts env.mode env deps a refl (ground (arith, h)) answers,
            is_five_major (major_version (codes version)) (sym five ∙ right),
            clear,
          )
        ]
      ]
