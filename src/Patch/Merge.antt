-- ===== src/Patch/Merge.antt =====
-- internal/service/config_patch.go: what a merged value has at each path.
use nrcc.Base.{
  ◌≡◌, refl, sym, ◌∙◌, ap, subst, inl, inr, String, Bool, true, false, ◌&&◌, Option, none, some,
  List, [], ◌∷◌, if◌then◌else◌, str_eq, eq_iff, arith, Bool-cases, Option-cases,
}
use nrcc.Patch.{
  Json, raw, object, Fields, end, field, lookup_field, insert_field, merge_json_value, merge_fields,
}

abbrev pub is_none : Option Json → Bool
is_none none = true
is_none (some j) = false

-- The value at a path of names.
unfoldable pub get_path : List String → Option Json → Option Json
unfolding lookup_field
get_path [] j = j
get_path (k ∷ ks) none = none
get_path (k ∷ ks) (some (raw text)) = none
get_path (k ∷ ks) (some (object fields)) = get_path ks (lookup_field k fields)

-- Whether a patch says nothing of a path: it is an object down to a name that it does not have.
unfoldable pub is_absent : List String → Option Json → Bool
unfolding lookup_field
is_absent [] j = is_none j
is_absent (k ∷ ks) none = true
is_absent (k ∷ ks) (some (raw text)) = false
is_absent (k ∷ ks) (some (object fields)) = is_absent ks (lookup_field k fields)

-- Whether no object has a name twice, as Go's maps do not.
unfoldable mutual
  unfolding lookup_field

  pub is_map : Json → Bool
  is_map (raw text) = true
  is_map (object fields) = are_map fields

  pub are_map : Fields → Bool
  are_map end = true
  are_map (field key value rest) = is_none (lookup_field key rest) && is_map value && are_map rest

pub lookup-insert_field :
    (name k : String) (value : Json) (fields : Fields)
    → lookup_field k (insert_field name value fields)
      ≡ (if str_eq name k then some value else lookup_field k fields)
unfolding lookup_field insert_field
lookup-insert_field name k value end = refl
lookup-insert_field name k value (field key old rest) =
    ground
      (arith, lookup-insert_field name k value rest, eq_iff key name, eq_iff key k, eq_iff name k)

lookup-is_map :
    (k : String) (fields : Fields) (v : Json)
    → are_map fields ≡ true
    → lookup_field k fields ≡ some v
    → is_map v ≡ true
unfolding lookup_field is_map
lookup-is_map k end v h found = cc
lookup-is_map k (field key value rest) v h found = ground (arith, lookup-is_map k rest v)

abbrev merged_at : Option Json → Option Json → Option Json
merged_at live none = live
merged_at live (some v) = some (merge_json_value live v)

is_none_lem : (o : Option Json) → is_none o ≡ true → o ≡ none
is_none_lem none h = refl
is_none_lem (some j) h = cc

pub lookup-merge_fields :
    (k : String) (live fields : Fields)
    → are_map fields ≡ true
    → lookup_field k (merge_fields live fields)
      ≡ merged_at (lookup_field k live) (lookup_field k fields)
unfolding lookup_field is_map merge_fields
lookup-merge_fields k live end h = refl
lookup-merge_fields k live (field name value rest) h =
    let value' = merge_json_value (lookup_field name live) value in
    let next = lookup-merge_fields k (insert_field name value' live) rest (ground arith) in
    next ∙ elim (Bool-cases (str_eq name k)) [
      | inl same ↦
          let is : name ≡ k = (eq_iff name k).0 same in
          let gone : lookup_field k rest ≡ none =
            subst (λ x. lookup_field x rest ≡ none) is
              (is_none_lem (lookup_field name rest) (ground arith)) in
          rw (lookup-insert_field name k value' live, same, gone)
            (ap (λ x. some (merge_json_value (lookup_field x live) value)) is)
      | inr other ↦ rw (lookup-insert_field name k value' live, other) refl
    ]

abbrev pub is_map_in : Option Json → Bool
is_map_in none = true
is_map_in (some j) = is_map j

lookup-is_map_in :
    (k : String) (fields : Fields)
    → are_map fields ≡ true
    → is_map_in (lookup_field k fields) ≡ true
lookup-is_map_in k fields h = elim (Option-cases (lookup_field k fields)) [
  | inl gone ↦ rw gone refl
  | inr (v, found) ↦ rw found (lookup-is_map k fields v h found)
]

pub get_path-none : (ks : List String) → get_path ks none ≡ none
unfolding get_path
get_path-none [] = refl
get_path-none (k ∷ ks) = refl

merged_at-none : (j : Option Json) → merged_at none j ≡ j
unfolding merge_json_value
merged_at-none none = refl
merged_at-none (some (raw text)) = refl
merged_at-none (some (object fields)) = refl

-- What the patch does not name keeps its live value.
pub get_path-absent :
    (ks : List String) (live patch : Option Json)
    → is_map_in patch ≡ true
    → is_absent ks patch ≡ true
    → get_path ks (merged_at live patch) ≡ get_path ks live
unfolding get_path is_absent merge_json_value is_map
get_path-absent [] live none h absent = refl
get_path-absent [] live (some j) h absent = cc
get_path-absent (k ∷ ks) live none h absent = refl
get_path-absent (k ∷ ks) live (some (raw text)) h absent = cc
get_path-absent (k ∷ ks) (some (object l)) (some (object fields)) h absent =
    ap (get_path ks) (lookup-merge_fields k l fields h)
    ∙ get_path-absent ks (lookup_field k l) (lookup_field k fields) (lookup-is_map_in k fields h)
        absent
get_path-absent (k ∷ ks) none (some (object fields)) h absent =
    ap (get_path ks) (sym (merged_at-none (lookup_field k fields)))
    ∙ get_path-absent ks none (lookup_field k fields) (lookup-is_map_in k fields h) absent
    ∙ get_path-none ks
get_path-absent (k ∷ ks) (some (raw text)) (some (object fields)) h absent =
    ap (get_path ks) (sym (merged_at-none (lookup_field k fields)))
    ∙ get_path-absent ks none (lookup_field k fields) (lookup-is_map_in k fields h) absent
    ∙ get_path-none ks

-- What the patch has at a path, if it is no object, replaces the live value.
pub get_path-raw :
    (ks : List String) (live patch : Option Json) (text : String)
    → is_map_in patch ≡ true
    → get_path ks patch ≡ some (raw text)
    → get_path ks (merged_at live patch) ≡ some (raw text)
unfolding get_path merge_json_value is_map
get_path-raw [] live none text h there = cc
get_path-raw [] live (some (raw t)) text h there = there
get_path-raw [] live (some (object fields)) text h there = cc
get_path-raw (k ∷ ks) live none text h there = cc
get_path-raw (k ∷ ks) live (some (raw t)) text h there = cc
get_path-raw (k ∷ ks) (some (object l)) (some (object fields)) text h there =
    ap (get_path ks) (lookup-merge_fields k l fields h)
    ∙ get_path-raw ks (lookup_field k l) (lookup_field k fields) text (lookup-is_map_in k fields h)
        there
get_path-raw (k ∷ ks) none (some (object fields)) text h there = there
get_path-raw (k ∷ ks) (some (raw t)) (some (object fields)) text h there = there
