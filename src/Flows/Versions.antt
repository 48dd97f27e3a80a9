-- ===== src/Flows/Versions.antt =====
-- internal/service/flow_version.go: a captured version is there to go back to, and the old ones go.
use nrcc.Base.{
  ℕ, zero, suc, ◌-◌, ◌≤◌, ◌<◌, ◌≡◌, refl, ◌∙◌, inl, inr, Bool, true, false, not, ◌||◌, Option, some,
  List, [], ◌∷◌, leb, length, drop, count_if, arith, Bool-cases,
}
use nrcc.Base.Texts.{Text, text_eq, text_eq_path, text_eq_same, has_text, text_le, sort_texts}
use nrcc.Flows.{
  max_versions, take, FlowVersions, names, find_version, put_version, remove_versions, old_names,
  prune_old, written, version_name, save_version, capture_now, has_dots, has_slash, get_version,
  revert,
}
use nrcc.Flows.Order.{
  are_distinct, sort_texts-sorted, sort_texts-distinct, count_if-sort_texts, length-sort_texts,
  later, length-drop_sub, first_ones_before,
}

text_le_same : (t : Text) → text_le t t ≡ true
text_le_same [] = refl
text_le_same (c ∷ t) = ground (arith, text_le_same t)

find_version-put_version :
    (key content : Text) (vs : List (Text × Text))
    → find_version key (put_version key content vs) ≡ some content
unfolding find_version put_version
find_version-put_version key content [] = ground (arith, text_eq_same key)
find_version-put_version key content ((n, c) ∷ more) =
    ground (arith, find_version-put_version key content more, text_eq_same key)

-- A put adds no name but its own, once.
has_text-put_version :
    (t key content : Text) (vs : List (Text × Text))
    → has_text t (names (put_version key content vs)) ≡ (has_text t (names vs) || text_eq t key)
unfolding put_version
has_text-put_version t key content [] = ground arith
has_text-put_version t key content ((n, c) ∷ more) =
    ground (arith, has_text-put_version t key content more, text_eq_path n key)

put_version-distinct :
    (key content : Text) (vs : List (Text × Text))
    → are_distinct (names vs) ≡ true
    → are_distinct (names (put_version key content vs)) ≡ true
unfolding put_version
put_version-distinct key content [] h = refl
put_version-distinct key content ((n, c) ∷ more) h = ground (
  arith,
  put_version-distinct key content more,
  has_text-put_version n key content more,
  text_eq_path n key,
)

put_version-later :
    (key content : Text) (vs : List (Text × Text))
    → count_if (later key) (names (put_version key content vs)) ≡ count_if (later key) (names vs)
unfolding put_version
put_version-later key content [] = ground (arith, text_le_same key)
put_version-later key content ((n, c) ∷ more) =
    ground (arith, put_version-later key content more, text_eq_path n key)

-- A name that is not among the old ones is found as before.
find_version-remove_versions :
    (works : Text → Bool) (old : List Text) (key : Text) (vs : List (Text × Text))
    → has_text key old ≡ false
    → find_version key (remove_versions works old vs) ≡ find_version key vs
unfolding find_version remove_versions
find_version-remove_versions works old key [] h = refl
find_version-remove_versions works old key ((n, c) ∷ more) h =
    ground (arith, find_version-remove_versions works old key more, text_eq_path n key)

not_old :
    (key : Text) (vs : List (Text × Text))
    → are_distinct (names vs) ≡ true
    → count_if (later key) (names vs) < max_versions
    → max_versions < length (names vs)
    → has_text key (old_names vs) ≡ false
not_old key vs d few many = elim (Bool-cases (has_text key (old_names vs))) [
  | inr kept ↦ kept
  | inl old ↦
      let ns = names vs in
      let k = length ns - max_versions in
      let after =
        first_ones_before k (sort_texts ns) key (sort_texts-sorted ns) (sort_texts-distinct ns d)
          old in
      absurd (
        omega (
          arith,
          after,
          length-drop_sub k (sort_texts ns),
          length-sort_texts ns,
          count_if-sort_texts (later key) ns,
        ))
]

find_version-prune_old :
    (works : Text → Bool) (key : Text) (vs : List (Text × Text))
    → are_distinct (names vs) ≡ true
    → count_if (later key) (names vs) < max_versions
    → find_version key (prune_old works vs) ≡ find_version key vs
unfolding prune_old
find_version-prune_old works key vs d few =
    elim (Bool-cases (leb (length (names vs)) max_versions)) [
      | inl fits ↦ rw (prune_old, fits) refl
      | inr over ↦
          rw (prune_old, over)
            (find_version-remove_versions works (old_names vs) key vs
              (not_old key vs d few (ground arith)))
    ]

-- Where every removal works, the entries whose names are not old are left.
length-remove_versions :
    (old : List Text) (vs : List (Text × Text))
    → length (names (remove_versions (λ _. true) old vs))
      ≡ count_if (λ n. not (has_text n old)) (names vs)
unfolding remove_versions
length-remove_versions old [] = refl
length-remove_versions old ((n, c) ∷ more) = ground (arith, length-remove_versions old more)

beyond_old :
    (k : ℕ) (ts old : List Text)
    → ((t : Text) → has_text t (take k ts) ≡ true → has_text t old ≡ true)
    → count_if (λ n. not (has_text n old)) ts ≤ length (drop k ts)
beyond_old zero [] old h = omega arith
beyond_old zero (t ∷ ts) old h = ground (arith, beyond_old zero ts old (λ u k. cc))
beyond_old (suc k) [] old h = omega arith
beyond_old (suc k) (t ∷ ts) old h = ground (
  arith,
  h t (ground (arith, text_eq_same t)),
  beyond_old k ts old (λ u there. h u (ground arith)),
)

length-prune_old :
    (vs : List (Text × Text)) → length (names (prune_old (λ _. true) vs)) ≤ max_versions
unfolding prune_old
length-prune_old vs = elim (Bool-cases (leb (length (names vs)) max_versions)) [
  | inl fits ↦ rw (prune_old, fits) (ground arith)
  | inr over ↦
      let ns = names vs in
      let k = length ns - max_versions in
      let few = beyond_old k (sort_texts ns) (old_names vs) (λ t there. there) in
      rw (prune_old, over)
        (ground (
          arith,
          few,
          length-remove_versions (old_names vs) vs,
          length-drop_sub k (sort_texts ns),
          length-sort_texts ns,
          count_if-sort_texts (λ n. not (has_text n (old_names vs))) ns,
        ))
]

find_version-capture_now :
    (hash_bytes : Text → Text) (works : Text → Bool) (ts content : Text) (s : FlowVersions)
    → s.flows ≡ some content
    → are_distinct (names s.versions) ≡ true
    → count_if (later (version_name ts (hash_bytes content))) (names s.versions) < max_versions
    → find_version
        (version_name ts (hash_bytes content))
        (capture_now hash_bytes works written ts s).0.versions
      ≡ some content
unfolding capture_now save_version
find_version-capture_now hash_bytes works ts content s there d few =
    let name = version_name ts (hash_bytes content) in
    let put = put_version name content s.versions in
    rw (there, capture_now)
      (find_version-prune_old works name put (put_version-distinct name content s.versions d)
          (omega (arith, put_version-later name content s.versions, few))
        ∙ find_version-put_version name content s.versions)

-- A capture whose write works succeeds, and going back to its version later, whatever flows.json and the
-- last hash are by then, puts just the captured content into flows.json. The files of the directory have
-- different names, of which fewer than a hundred come after the new one, and the new one is a plain file
-- name. Where the removals work as well, at most a hundred versions are left.
pub capture_now-revert :
    (hash_bytes : Text → Text) (works : Text → Bool) (ts content last : Text) (x : Option Text)
    (s : FlowVersions)
    → s.flows ≡ some content
    → are_distinct (names s.versions) ≡ true
    → count_if (later (version_name ts (hash_bytes content))) (names s.versions) < max_versions
    → (has_dots (version_name ts (hash_bytes content))
        || has_slash (version_name ts (hash_bytes content)))
      ≡ false
    → let captured = capture_now hash_bytes works written ts s in
      (captured.1 ≡ true)
      × (revert hash_bytes written
            (version_name ts (hash_bytes content))
            (record captured.0 { flows = x; last_hash = last })
          ≡ (record captured.0 { flows = some content; last_hash = hash_bytes content }, true))
      × (length (names (capture_now hash_bytes (λ _. true) written ts s).0.versions) ≤ max_versions)
unfolding capture_now save_version revert get_version
capture_now-revert hash_bytes works ts content last x s there d few plain =
    let name = version_name ts (hash_bytes content) in
    let s1 = (capture_now hash_bytes works written ts s).0 in
    let found = find_version-capture_now hash_bytes works ts content s there d few in
    let got : get_version hash_bytes name (record s1 { flows = x; last_hash = last })
        ≡ some content =
      rw (plain, get_version) found in
    (
      rw (there, capture_now) refl,
      rw (got, revert) refl,
      rw (there, capture_now) (length-prune_old (put_version name content s.versions)),
    )
