-- ===== src/Adapter/Compatibility.antt =====
-- internal/service/nodered_compatibility.go: what a version of Node-RED allows.
use nrcc.Base.Texts.{Text, codes, text_eq}
use nrcc.Base.{
  ℕ, zero, suc, ◌≡◌, refl, ap, inl, inr, String, Bool, true, false, ◌&&◌, Option, none, some, [],
  ◌∷◌, if◌then◌else◌, ◌==◌, leb, str_eq, arith, Bool-cases,
}
use nrcc.Adapter.{ConfigurationCapabilities}

abbrev is_digit : ℕ → Bool
is_digit c = leb 48 c && leb c 57

-- The digits at the start of a text, and the rest.
span_digits : Text → Text × Text
span_digits [] = ([], [])
span_digits (c ∷ cs) =
    let rest = span_digits cs in if is_digit c then (c ∷ rest.0, rest.1) else ([], c ∷ cs)

-- At most so many groups of a dot and digits, up to the end.
groups_end : ℕ → Text → Bool
unfolding span_digits
groups_end n [] = true
groups_end zero (c ∷ cs) = false
groups_end (suc n) (c ∷ cs) =
    let group = span_digits cs in
    let ends = groups_end n group.1 in
    if c == b'.' then (elim group.0 [ [] ↦ false | d ∷ ds ↦ ends ]) else false

without_v : Text → Text
without_v [] = []
without_v (c ∷ cs) = if c == b'v' then cs else c ∷ cs

-- `nodeREDMajorVersionPattern`: its group, where the whole version matches.
unfoldable pub major_version : Text → Option Text
unfolding span_digits groups_end without_v
major_version version =
    let parts = span_digits (without_v version) in
    elim parts.0 [ [] ↦ none | d ∷ ds ↦ if groups_end 2 parts.1 then some (d ∷ ds) else none ]

-- `SettingsDocument`, the fields that the policy reads.
pub record SettingsDocument : Type 0 where
  pub source : String
  pub writable : Bool

abbrev read_only : String → SettingsDocument → ConfigurationCapabilities
read_only version settings = record {
  runtime_version = if str_eq version "" then "unknown" else version;
  adapter = "unsupported";
  catalog_version = "5.0.6";
  source = settings.source;
  mode = "read-only";
  editable = false;
  reason = "";
}

-- The switch over the major version.
unfoldable pub for_major :
    Text → SettingsDocument → ConfigurationCapabilities → ConfigurationCapabilities
for_major major settings c =
    if text_eq major (b'4' ∷ [])
    then record c {
      adapter = "nodered-4-read-only";
      reason = "Node-RED 4 is available in migration read-only mode.";
    }
    else if text_eq major (b'5' ∷ [])
    then (if settings.writable
        then record c { adapter = "nodered-5"; mode = "editable"; editable = true }
        else record c {
          adapter = "nodered-5";
          reason = "The Node-RED 5 settings source is not writable.";
        })
    else if text_eq major (b'6' ∷ [])
    then record c {
      reason = "Node-RED 6 and later are read-only until a compatible adapter is available.";
    }
    else record c { reason = "This Node-RED version is not supported for configuration editing." }

unfoldable pub for_match : String → SettingsDocument → Option Text → ConfigurationCapabilities
unfolding for_major
for_match version settings none = record (read_only version settings) {
  reason =
      "Node-RED version is unknown; configuration editing is disabled until a compatible adapter is available.";
}
for_match version settings (some major) = for_major major settings (read_only version settings)

-- `ResolveConfigurationCapabilities`
unfoldable pub resolve_configuration_capabilities :
    String → SettingsDocument → ConfigurationCapabilities
unfolding for_match
resolve_configuration_capabilities version settings =
    for_match version settings (major_version (codes version))

text_eq_one : (t : Text) (c : ℕ) → text_eq t (c ∷ []) ≡ true → t ≡ c ∷ []
text_eq_one [] c h = cc
text_eq_one (d ∷ []) c h = ground arith
text_eq_one (d ∷ e ∷ t) c h = ground arith

for_major_adapter :
    (major : Text) (settings : SettingsDocument) (version : String)
    → str_eq (for_major major settings (read_only version settings)).adapter "nodered-5"
      ≡ text_eq major (b'5' ∷ [])
unfolding for_major
for_major_adapter major settings version = elim (Bool-cases (text_eq major (b'4' ∷ []))) [
  | inl four ↦ rw (four, for_major, text_eq_one major b'4' four) refl
  | inr other ↦ elim (Bool-cases (text_eq major (b'5' ∷ []))) [
    | inl five ↦ elim (Bool-cases settings.writable) [
      | inl writes ↦ simp (other, for_major, five, writes)
      | inr fixed ↦ simp (other, for_major, five, fixed)
    ]
    | inr not_five ↦ elim (Bool-cases (text_eq major (b'6' ∷ []))) [
      | inl six ↦ simp (other, for_major, not_five, six)
      | inr unknown ↦ simp (other, for_major, not_five, unknown)
    ]
  ]
]

for_major_editable :
    (major : Text) (settings : SettingsDocument) (version : String)
    → (for_major major settings (read_only version settings)).editable
      ≡ (text_eq major (b'5' ∷ []) && settings.writable)
unfolding for_major
for_major_editable major settings version = elim (Bool-cases (text_eq major (b'4' ∷ []))) [
  | inl four ↦ rw (four, for_major, text_eq_one major b'4' four) refl
  | inr other ↦ elim (Bool-cases (text_eq major (b'5' ∷ []))) [
    | inl five ↦ elim (Bool-cases settings.writable) [
      | inl writes ↦ simp (other, for_major, five, writes)
      | inr fixed ↦ simp (other, for_major, five, fixed)
    ]
    | inr not_five ↦ elim (Bool-cases (text_eq major (b'6' ∷ []))) [
      | inl six ↦ simp (other, for_major, not_five, six)
      | inr unknown ↦ simp (other, for_major, not_five, unknown)
    ]
  ]
]

abbrev pub is_five : Option Text → Bool
is_five none = false
is_five (some major) = text_eq major (b'5' ∷ [])

for_match_five :
    (version : String) (settings : SettingsDocument) (m : Option Text)
    → (str_eq (for_match version settings m).adapter "nodered-5" ≡ is_five m)
      × ((for_match version settings m).editable ≡ (is_five m && settings.writable))
unfolding for_match
for_match_five version settings none = (refl, refl)
for_match_five version settings (some major) =
    (for_major_adapter major settings version, for_major_editable major settings version)

-- A configuration is editable just where the version is one of major 5 and its source is writable,
-- and the adapter of Node-RED 5 goes with just the versions of major 5.
pub resolve_configuration_capabilities_five :
    (version : String) (settings : SettingsDocument)
    → (str_eq (resolve_configuration_capabilities version settings).adapter "nodered-5"
        ≡ is_five (major_version (codes version)))
      × ((resolve_configuration_capabilities version settings).editable
          ≡ (is_five (major_version (codes version)) && settings.writable))
unfolding resolve_configuration_capabilities
resolve_configuration_capabilities_five version settings =
    for_match_five version settings (major_version (codes version))

pub is_five_major : (m : Option Text) → is_five m ≡ true → m ≡ some (b'5' ∷ [])
is_five_major none h = cc
is_five_major (some major) h = ap some (text_eq_one major b'5' h)
