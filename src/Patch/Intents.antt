-- ===== src/Patch/Intents.antt =====
-- internal/service/config_patch.go: what a merged configuration has at each path.
use nrcc.Base.{
  ◌≡◌, refl, ◌∙◌, ap, inl, inr, String, Bool, true, false, not, ◌&&◌, none, some, List, ◌∷◌, Result,
  ok, if◌then◌else◌, str_eq, eq_iff, arith, Bool-cases, Option-cases,
}
use nrcc.Patch.{
  raw, object, Fields, lookup_field, merge_json_value, merge_fields, is_empty, follow_ui_port,
  merge_patch,
}
use nrcc.Patch.Merge.{
  is_none, get_path, is_absent, are_map, is_map, lookup-insert_field, get_path-none,
  get_path-absent, get_path-raw,
}

-- Whether a name is `port` and the patch moves it along with a `uiPort`.
unfoldable pub moves_port : String → Fields → Bool
unfolding lookup_field
moves_port k patch =
    str_eq "port" k
    && (is_none (lookup_field "port" patch) && not (is_none (lookup_field "uiPort" patch)))

lookup-follow_ui_port :
    (k : String) (patch merged : Fields)
    → lookup_field k (follow_ui_port patch merged)
      ≡ (if moves_port k patch then lookup_field "uiPort" patch else lookup_field k merged)
unfolding follow_ui_port moves_port
lookup-follow_ui_port k patch merged = elim (Option-cases (lookup_field "port" patch)) [
  | inr (v, explicit) ↦ rw (explicit, follow_ui_port, moves_port) (ground arith)
  | inl implicit ↦ elim (Option-cases (lookup_field "uiPort" patch)) [
    | inl fixed ↦ rw (implicit, follow_ui_port, moves_port, fixed) (ground arith)
    | inr (v, moved) ↦
        rw (implicit, follow_ui_port, moves_port, moved)
          (ground (arith, lookup-insert_field "port" k v merged))
  ]
]

moves_port_named :
    (k : String) (ks : List String) (patch : Fields) (text : String)
    → get_path (k ∷ ks) (some (object patch)) ≡ some (raw text)
    → moves_port k patch ≡ false
unfolding get_path moves_port
moves_port_named k ks patch text h = elim (Option-cases (lookup_field k patch)) [
  | inl gone ↦
      let empty : get_path (k ∷ ks) (some (object patch)) ≡ none =
        ap (get_path ks) gone ∙ get_path-none ks in
      absurd cc
  | inr (v, found) ↦ elim (Bool-cases (str_eq "port" k)) [
    | inr other ↦ rw (moves_port, other) refl
    | inl same ↦
        let there : lookup_field "port" patch ≡ some v =
          ap (λ x. lookup_field x patch) ((eq_iff "port" k).0 same) ∙ found in
        rw (moves_port, same, there) refl
  ]
]

-- For a patch with fields and no name twice, in a live configuration that can be encoded: what is
-- decoded keeps the live value at every path, at any depth, that the patch says nothing of, but for a
-- `port` that goes with a `uiPort`; it has the patch's value at every path where the patch has one that is
-- no object, an explicit null or an array included; and a `uiPort` in the patch without a `port` is its
-- `port` as well.
pub merge_patch_paths :
    {E Config : Type 0} (encode : Config → Result E Fields) (decode : Fields → Result E Config)
    (base : Config) (patch live : Fields)
    → encode base ≡ ok live
    → is_empty patch ≡ false
    → are_map patch ≡ true
    → (merged : Fields) × (merge_patch encode decode base patch ≡ decode merged)
      × ((k : String) (ks : List String)
          → moves_port k patch ≡ false
          → is_absent (k ∷ ks) (some (object patch)) ≡ true
          → get_path (k ∷ ks) (some (object merged)) ≡ get_path (k ∷ ks) (some (object live)))
      × ((k : String) (ks : List String) (text : String)
          → get_path (k ∷ ks) (some (object patch)) ≡ some (raw text)
          → get_path (k ∷ ks) (some (object merged)) ≡ some (raw text))
      × (moves_port "port" patch ≡ true → lookup_field "port" merged ≡ lookup_field "uiPort" patch)
unfolding merge_patch get_path merge_json_value is_map
merge_patch_paths encode decode base patch live encoded given mapped =
    let all = merge_fields live patch in
    let merged = follow_ui_port patch all in
    (
      merged,
      rw (given, merge_patch, encoded) refl,
      λ k ks stays absent.
          let same : lookup_field k merged ≡ lookup_field k all =
            lookup-follow_ui_port k patch all ∙ rw stays refl in
          ap (get_path ks) same
          ∙ get_path-absent (k ∷ ks) (some (object live)) (some (object patch)) mapped absent,
      λ k ks text there.
          let stays = moves_port_named k ks patch text there in
          let same : lookup_field k merged ≡ lookup_field k all =
            lookup-follow_ui_port k patch all ∙ rw stays refl in
          ap (get_path ks) same
          ∙ get_path-raw (k ∷ ks) (some (object live)) (some (object patch)) text mapped there,
      λ moves. lookup-follow_ui_port "port" patch all ∙ rw moves refl,
    )
