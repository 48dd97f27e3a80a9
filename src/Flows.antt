-- ===== src/Flows.antt =====
-- internal/service/flow_version.go: the versions of flows.json, over code points.
mod Order
pub mod Versions
pub mod Tests
use nrcc.Base.{
  ℕ, zero, suc, ◌-◌, Bool, true, false, not, ◌&&◌, ◌||◌, Option, none, some, List, [], ◌∷◌, ◌++◌,
  if◌then◌else◌, leb, ◌==◌, length, map,
}
use nrcc.Base.Texts.{Text, codes, text_eq, has_text, sort_texts}

abbrev pub max_versions : ℕ
max_versions = 100

abbrev pub take : ℕ → List Text → List Text
take zero ts = []
take (suc n) [] = []
take (suc n) (t ∷ ts) = t ∷ take n ts

-- The first characters of a text.
abbrev pub take_text : ℕ → Text → Text
take_text zero t = []
take_text (suc n) [] = []
take_text (suc n) (c ∷ t) = c ∷ take_text n t

-- `FlowVersionService` with flows.json and the directory of the versions, a file of it for each name.
pub record FlowVersions : Type 0 where
  pub flows : Option Text
  pub versions : List (Text × Text)
  pub last_hash : Text

abbrev pub names : List (Text × Text) → List Text
names [] = []
names ((n, c) ∷ more) = n ∷ names more

unfoldable pub find_version : Text → List (Text × Text) → Option Text
find_version key [] = none
find_version key ((n, c) ∷ more) =
    let found = find_version key more in if text_eq n key then some c else found

unfoldable pub put_version : Text → Text → List (Text × Text) → List (Text × Text)
put_version key content [] = (key, content) ∷ []
put_version key content ((n, c) ∷ more) =
    let rest = put_version key content more in
    if text_eq n key then (key, content) ∷ more else (n, c) ∷ rest

-- The removal of those files whose removal works; an error of one is ignored.
unfoldable pub remove_versions : (Text → Bool) → List Text → List (Text × Text) → List (Text × Text)
remove_versions works old [] = []
remove_versions works old ((n, c) ∷ more) =
    let rest = remove_versions works old more in
    if has_text n old && works n then rest else (n, c) ∷ rest

-- The names that `pruneOld` removes: all but the last ones in order.
abbrev pub old_names : List (Text × Text) → List Text
old_names versions = take (length (names versions) - max_versions) (sort_texts (names versions))

-- `pruneOld`
unfoldable pub prune_old : (Text → Bool) → List (Text × Text) → List (Text × Text)
unfolding remove_versions
prune_old works versions =
    if leb (length (names versions)) max_versions
    then versions
    else remove_versions works (old_names versions) versions

-- What the disk does with a write; a failed one may leave something under the name.
pub data Write : Type 0 where
  written : Write
  write_failed : Option Text → Write

abbrev pub version_name : Text → Text → Text
version_name ts hash = ts ++ b'_' ∷ take_text 8 hash ++ codes ".json"

abbrev pub put_left : Text → Option Text → List (Text × Text) → List (Text × Text)
put_left name none versions = versions
put_left name (some c) versions = put_version name c versions

-- `saveVersion` at a time stamp; whether it succeeds comes second.
unfoldable pub save_version :
    (Text → Bool) → Write → Text → Text → Text → FlowVersions → FlowVersions × Bool
unfolding put_version prune_old
save_version works (write_failed left) ts data_bytes hash s =
    (record s { versions = put_left (version_name ts hash) left s.versions }, false)
save_version works written ts data_bytes hash s = (
  record s {
    versions = prune_old works (put_version (version_name ts hash) data_bytes s.versions);
  },
  true,
)

-- `strings.Contains(id, "..")`
abbrev pub has_dots : Text → Bool
has_dots [] = false
has_dots (c ∷ []) = false
has_dots (c ∷ d ∷ t) = ((c == b'.') && (d == b'.')) || has_dots (d ∷ t)

-- `strings.ContainsAny(id, "/\\")`
abbrev pub has_slash : Text → Bool
has_slash [] = false
has_slash (c ∷ t) = (c == b'/') || (c == 92) || has_slash t

module _ (hash_bytes : Text → Text) where
  -- `CaptureNow`; without flows.json nothing is captured.
  unfoldable pub capture_now : (Text → Bool) → Write → Text → FlowVersions → FlowVersions × Bool
  unfolding save_version
  capture_now works write ts s = elim s.flows [
    | none ↦ (s, false)
    | some content ↦
        save_version works write ts content (hash_bytes content)
          (record s { last_hash = hash_bytes content })
  ]

  -- `captureIfChanged`
  unfoldable pub capture_if_changed : (Text → Bool) → Write → Text → FlowVersions → FlowVersions
  unfolding save_version
  capture_if_changed works write ts s = elim s.flows [
    | none ↦ s
    | some content ↦
        if text_eq (hash_bytes content) s.last_hash
        then s
        else (save_version works write ts content (hash_bytes content)
            (record s { last_hash = hash_bytes content })).0
  ]

  -- `GetVersion`
  unfoldable pub get_version : Text → FlowVersions → Option Text
  unfolding find_version
  get_version id s = if has_dots id || has_slash id then none else find_version id s.versions

  -- `Revert`; a failed write may leave something in flows.json.
  unfoldable pub revert : Write → Text → FlowVersions → FlowVersions × Bool
  unfolding get_version
  revert write id s = elim (get_version id s) [
    | none ↦ (s, false)
    | some content ↦ elim write [
      | written ↦ (record s { flows = some content; last_hash = hash_bytes content }, true)
      | write_failed left ↦ (elim left [ none ↦ s | some c ↦ record s { flows = some c } ], false)
    ]
  ]
