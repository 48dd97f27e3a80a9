-- ===== src/Patch/Tests.antt =====
-- internal/service/config_patch.go: a patch of the users and the port of a live configuration.
use nrcc.Base.{String, ◌≡◌, refl, true, false, some, List, ◌∷◌, Result, ok}
use nrcc.Patch.{is_empty, raw, object, Fields, end, field, lookup_field, merge_patch}
use nrcc.Patch.Merge.{get_path, is_absent, are_map}
use nrcc.Patch.Intents.{moves_port, merge_patch_paths}

abbrev live : Fields
live = field "port" (raw "1880") (
    field "adminAuth" (object (field "type" (raw "credentials") (field "users" (raw "[]") end)))
      end)

abbrev patch : Fields
patch = field "uiPort" (raw "1990") (field "adminAuth" (object (field "users" (raw "[u]") end)) end)

abbrev encode : Fields → Result String Fields
encode f = ok f

merge_patch_paths_example :
    (merged : Fields) × (merge_patch encode encode live patch ≡ encode merged)
    × ((k : String) (ks : List String)
        → moves_port k patch ≡ false
        → is_absent (k ∷ ks) (some (object patch)) ≡ true
        → get_path (k ∷ ks) (some (object merged)) ≡ get_path (k ∷ ks) (some (object live)))
    × ((k : String) (ks : List String) (text : String)
        → get_path (k ∷ ks) (some (object patch)) ≡ some (raw text)
        → get_path (k ∷ ks) (some (object merged)) ≡ some (raw text))
    × (moves_port "port" patch ≡ true → lookup_field "port" merged ≡ lookup_field "uiPort" patch)
unfolding is_empty are_map
merge_patch_paths_example = merge_patch_paths encode encode live patch live refl refl refl
