-- ===== src/Redaction/Hiding.antt =====
-- internal/service/apply_diff.go: what is redacted does not depend on the secrets.
use nrcc.Base.Texts.{Text, codes, text_eq_same}
use nrcc.Base.{
  ℕ, zero, suc, ◌-◌, ◌≡◌, refl, sym, ◌∙◌, ap, true, List, [], ◌∷◌, ◌++◌, if◌then◌else◌, ◌==◌, arith,
}
use nrcc.Redaction.{
  is_secret, all_space, key_in_line, key_start, ends_with_comma, redact_top_level_line, opens,
  closes, depth_after, redact_line, redact_lines, split_lines, join_lines, redact_settings_content,
  redact_diff,
}
use nrcc.Redaction.Keys.{
  is_secret-is_key, assignment, key_in_line-assignment, redact_top_level_line-assignment,
  braces-assignment,
}

-- Lines that differ in secrets only, from a depth on: the values of secret keys and what stands in their
-- blocks, of the same braces and with the same last comma.
pub data SameButSecrets : ℕ → List Text → List Text → Type 0 where
  finished : (depth : ℕ) → SameButSecrets depth [] []
  shared :
      (depth : ℕ) (line : Text) (ls ms : List Text)
      → SameButSecrets (depth_after depth line) ls ms
      → SameButSecrets depth (line ∷ ls) (line ∷ ms)
  secret :
      (indent key v w : Text) (ls ms : List Text)
      → all_space indent ≡ true
      → is_secret key ≡ true
      → opens v ≡ opens w
      → closes v ≡ closes w
      → ends_with_comma v ≡ ends_with_comma w
      → SameButSecrets (depth_after zero (assignment indent key v)) ls ms
      → SameButSecrets zero (assignment indent key v ∷ ls) (assignment indent key w ∷ ms)
  inside :
      (depth : ℕ) (l m : Text) (ls ms : List Text)
      → opens l ≡ opens m
      → closes l ≡ closes m
      → SameButSecrets (depth_after (suc depth) l) ls ms
      → SameButSecrets (suc depth) (l ∷ ls) (m ∷ ms)

secret_line :
    (indent key v : Text)
    → all_space indent ≡ true
    → is_secret key ≡ true
    → (redact_line zero (assignment indent key v)
        ≡ redact_top_level_line (assignment indent key v) key)
      × (depth_after zero (assignment indent key v)
          ≡ opens (assignment indent key v) - closes (assignment indent key v))
unfolding redact_line depth_after
secret_line indent key v h s =
    let found = key_in_line-assignment indent key v h (is_secret-is_key key s) in
    (rw (found, redact_line, s) refl, rw (found, depth_after, s) refl)

pub redact_lines-SameButSecrets :
    (depth : ℕ) (ls ms : List Text)
    → SameButSecrets depth ls ms
    → redact_lines depth ls ≡ redact_lines depth ms
unfolding redact_lines redact_line depth_after
redact_lines-SameButSecrets _ _ _ (finished depth) = refl
redact_lines-SameButSecrets _ _ _ (shared depth line ls ms rest) =
    ap (λ x. redact_line depth line ∷ x)
      (redact_lines-SameButSecrets (depth_after depth line) ls ms rest)
redact_lines-SameButSecrets _ _ _ (inside depth l m ls ms o c rest) =
    let next = redact_lines-SameButSecrets (depth_after (suc depth) l) ls ms rest in
    let same : depth_after (suc depth) l ≡ depth_after (suc depth) m = ground arith in
    ap (λ x. codes "  [redacted]" ∷ x) (next ∙ ap (λ d. redact_lines d ms) same)
redact_lines-SameButSecrets _ _ _ (secret indent key v w ls ms h s o c e rest) =
    let one = secret_line indent key v h s in
    let two = secret_line indent key w h s in
    let is = is_secret-is_key key s in
    let next =
      redact_lines-SameButSecrets (depth_after zero (assignment indent key v)) ls ms rest in
    let lines : redact_line zero (assignment indent key v)
        ≡ redact_line zero (assignment indent key w) =
      one.0
      ∙ redact_top_level_line-assignment indent key v h is
      ∙ ap
          (λ t.
            (indent ++ key ++ b':' ∷ []) ++ codes " [redacted]" ++ (if t then b',' ∷ [] else []))
          e
      ∙ sym (redact_top_level_line-assignment indent key w h is)
      ∙ sym two.0 in
    let same : depth_after zero (assignment indent key v)
        ≡ depth_after zero (assignment indent key w) =
      ground (
        arith,
        one.1,
        two.1,
        braces-assignment (λ x. x == b'{') indent key v w o,
        braces-assignment (λ x. x == b'}') indent key v w c,
      ) in
    ap (λ x. redact_line zero (assignment indent key v) ∷ x)
      (next ∙ ap (λ d. redact_lines d ms) same)
    ∙ ap (λ x. x ∷ redact_lines (depth_after zero (assignment indent key w)) ms) lines

redact_settings_content_lines :
    (content : Text)
    → redact_settings_content content ≡ join_lines (redact_lines 0 (split_lines content))
unfolding redact_settings_content split_lines redact_lines redact_line key_in_line key_start
    join_lines
redact_settings_content_lines [] = refl
redact_settings_content_lines (c ∷ cs) = refl

-- Two contents whose lines differ in secrets only, in the values of secret keys that begin a line after
-- white space and in what stands in the blocks those open, with the same braces and the same last comma, are
-- the same once they are redacted, and their diff is empty.
pub redaction_hides_secrets :
    (before after : Text)
    → SameButSecrets 0 (split_lines before) (split_lines after)
    → (redact_settings_content before ≡ redact_settings_content after)
      × (redact_diff before after ≡ [])
unfolding redact_diff
redaction_hides_secrets before after alike =
    let same : redact_settings_content before ≡ redact_settings_content after =
      redact_settings_content_lines before
      ∙ ap join_lines (redact_lines-SameButSecrets 0 (split_lines before) (split_lines after) alike)
      ∙ sym (redact_settings_content_lines after) in
    (same, rw (redact_diff, same, text_eq_same (redact_settings_content after)) refl)
