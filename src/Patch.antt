-- ===== src/Patch.antt =====
-- internal/service/config_patch.go and internal/model/config_patch.go: the merge of a partial
-- configuration into the live one.
mod Merge
pub mod Intents
pub mod Tests
use nrcc.Base.{
  String, Bool, true, false, not, ◌&&◌, ◌||◌, Option, none, some, List, [], ◌∷◌, Result, ok, err,
  if◌then◌else◌, str_eq,
}

-- A raw JSON value: an object, or the text of any other value. Go's maps from names to raw values are
-- fields; what the merge of one field depends on is no other field, so their order does not matter.
mutual
  pub data Json : Type 0 where
    raw : String → Json
    object : Fields → Json

  pub data Fields : Type 0 where
    end : Fields
    field : String → Json → Fields → Fields

-- `fields[name]`, with whether it is there.
unfoldable pub lookup_field : String → Fields → Option Json
lookup_field name end = none
lookup_field name (field key value rest) =
    let found = lookup_field name rest in if str_eq key name then some value else found

-- `fields[name] = value`
unfoldable pub insert_field : String → Json → Fields → Fields
insert_field name value end = field name value end
insert_field name value (field key old rest) =
    let inserted = insert_field name value rest in
    if str_eq key name then field name value rest else field key old inserted

-- `mergeJSONValue`; the live value may be missing.
unfoldable mutual
  unfolding lookup_field insert_field

  pub merge_json_value : Option Json → Json → Json
  merge_json_value live (raw text) = raw text
  merge_json_value none (object fields) = object fields
  merge_json_value (some (raw text)) (object fields) = object fields
  merge_json_value (some (object live)) (object fields) = object (merge_fields live fields)

  pub merge_fields : Fields → Fields → Fields
  merge_fields live end = live
  merge_fields live (field name value rest) =
      merge_fields (insert_field name (merge_json_value (lookup_field name live) value) live) rest

-- `ConfigPatch.IsEmpty`
unfoldable pub is_empty : Fields → Bool
is_empty end = true
is_empty (field name value rest) = false

-- The end of `MergePatch` before the result is decoded: `port` follows a `uiPort` of the patch, unless
-- the patch has a `port`.
unfoldable pub follow_ui_port : Fields → Fields → Fields
unfolding lookup_field insert_field
follow_ui_port fields merged = elim (lookup_field "port" fields) [
  | some explicit ↦ merged
  | none ↦ elim (lookup_field "uiPort" fields) [
    | none ↦ merged
    | some ui_port ↦ insert_field "port" ui_port merged
  ]
]

module _ {E Config : Type 0} (encode : Config → Result E Fields)
    (decode : Fields → Result E Config) where
  -- `MergePatch`
  unfoldable pub merge_patch : Config → Fields → Result E Config
  unfolding is_empty follow_ui_port merge_json_value
  merge_patch base fields = if is_empty fields then ok base else elim (encode base) [
    | err e ↦ err e
    | ok live ↦ decode (follow_ui_port fields (merge_fields live fields))
  ]
