-- ===== src/Redaction/Keys.antt =====
-- internal/service/apply_diff.go: the key of a line that assigns to a secret key, and what redaction
-- keeps of it.
use nrcc.Base.Texts.{Text, codes, text_eq, text_eq_path, has_text}
use nrcc.Base.{
  ℕ, ◌≡◌, refl, sym, ◌∙◌, ap, subst, inl, inr, Bool, true, false, ◌&&◌, some, List, [], ◌∷◌, ◌++◌,
  if◌then◌else◌, count_if, count_if-append, arith, Bool-cases,
}
use nrcc.Redaction.{
  secret_setting_keys, is_secret, all_space, trim_left, is_start, is_word, key_rest, key_start,
  key_in_line, is_prefix, through, ends_with_comma, redact_top_level_line,
}

abbrev pub all_word : Text → Bool
all_word [] = true
all_word (c ∷ cs) = is_word c && all_word cs

-- A start and then words.
abbrev pub is_key : Text → Bool
is_key [] = false
is_key (c ∷ cs) = is_start c && all_word cs

all_keys : List Text → Bool
all_keys [] = true
all_keys (k ∷ ks) = is_key k && all_keys ks

has_text-is_key :
    (t : Text) (ks : List Text) → all_keys ks ≡ true → has_text t ks ≡ true → is_key t ≡ true
unfolding all_keys
has_text-is_key t [] h there = cc
has_text-is_key t (k ∷ ks) h there = elim (Bool-cases (text_eq t k)) [
  | inl same ↦ subst (λ x. is_key x ≡ true) (sym (text_eq_path t k same)) (ground arith)
  | inr other ↦ has_text-is_key t ks (ground arith) (ground arith)
]

pub is_secret-is_key : (key : Text) → is_secret key ≡ true → is_key key ≡ true
unfolding is_secret all_keys
is_secret-is_key key h = has_text-is_key key secret_setting_keys refl h

-- A line that assigns a value to a key after some white space.
unfoldable pub assignment : Text → Text → Text → Text
assignment indent key value = indent ++ key ++ b':' ∷ value

key_rest-append :
    (key value : Text) → all_word key ≡ true → key_rest (key ++ b':' ∷ value) ≡ some key
unfolding key_rest
key_rest-append [] value h = refl
key_rest-append (c ∷ cs) value h = ground (arith, key_rest-append cs value)

trim_left-append :
    (indent key value : Text)
    → all_space indent ≡ true
    → is_key key ≡ true
    → trim_left (assignment indent key value) ≡ key ++ b':' ∷ value
unfolding trim_left assignment
trim_left-append [] [] value h k = cc
trim_left-append [] (c ∷ cs) value h k = ground arith
trim_left-append (d ∷ indent) key value h k = ground (arith, trim_left-append indent key value)

pub key_in_line-assignment :
    (indent key value : Text)
    → all_space indent ≡ true
    → is_key key ≡ true
    → key_in_line (assignment indent key value) ≡ some key
unfolding key_in_line key_start
key_in_line-assignment indent [] value h k = cc
key_in_line-assignment indent (c ∷ cs) value h k =
    ap key_start (trim_left-append indent (c ∷ cs) value h k)
    ∙ ground (arith, key_rest-append cs value)

is_prefix-append : (s t : Text) → is_prefix s (s ++ t) ≡ true
is_prefix-append [] t = refl
is_prefix-append (c ∷ s) t = ground (arith, is_prefix-append s t)

is_prefix_colon : (key value : Text) → is_prefix (key ++ b':' ∷ []) (key ++ b':' ∷ value) ≡ true
is_prefix_colon [] value = refl
is_prefix_colon (c ∷ cs) value = ground (arith, is_prefix_colon cs value)

through-assignment :
    (indent key value : Text)
    → all_space indent ≡ true
    → is_key key ≡ true
    → through (key ++ b':' ∷ []) (assignment indent key value) ≡ some (indent ++ key ++ b':' ∷ [])
unfolding through assignment
through-assignment [] [] value h k = cc
through-assignment [] (c ∷ cs) value h k = rw (through, is_prefix_colon (c ∷ cs) value) refl
through-assignment (d ∷ indent) [] value h k = cc
through-assignment (d ∷ indent) (c ∷ cs) value h k =
    ground (arith, through-assignment indent (c ∷ cs) value)

ends_with_comma_space : (t : Text) → all_space t ≡ true → ends_with_comma t ≡ false
unfolding ends_with_comma
ends_with_comma_space [] h = refl
ends_with_comma_space (c ∷ cs) h = ground (arith, ends_with_comma_space cs)

all_space_colon : (t v : Text) → all_space (t ++ b':' ∷ v) ≡ false
all_space_colon [] v = refl
all_space_colon (c ∷ cs) v = ground (arith, all_space_colon cs v)

ends_with_comma_colon : (t v : Text) → ends_with_comma (t ++ b':' ∷ v) ≡ ends_with_comma v
unfolding ends_with_comma
ends_with_comma_colon [] v = ground (arith, ends_with_comma_space v)
ends_with_comma_colon (c ∷ cs) v =
    rw (ends_with_comma, all_space_colon cs v) (ends_with_comma_colon cs v)

ends_with_comma-assignment :
    (indent key value : Text)
    → ends_with_comma (assignment indent key value) ≡ ends_with_comma value
unfolding assignment
ends_with_comma-assignment indent key value = ends_with_comma_colon (indent ++ key) value

-- A redacted assignment has nothing of its value but a last comma.
pub redact_top_level_line-assignment :
    (indent key value : Text)
    → all_space indent ≡ true
    → is_key key ≡ true
    → redact_top_level_line (assignment indent key value) key
      ≡ (indent ++ key ++ b':' ∷ [])
        ++ codes " [redacted]"
        ++ (if ends_with_comma value then b',' ∷ [] else [])
unfolding redact_top_level_line
redact_top_level_line-assignment indent key value h k =
    rw
      (
        through-assignment indent key value h k,
        redact_top_level_line,
        ends_with_comma-assignment indent key value,
      )
      refl

pub braces-assignment :
    (p : ℕ → Bool) (indent key v w : Text)
    → count_if p v ≡ count_if p w
    → count_if p (assignment indent key v) ≡ count_if p (assignment indent key w)
unfolding assignment
braces-assignment p indent key v w h = ground (
  arith,
  count_if-append p (indent ++ key) (b':' ∷ v),
  count_if-append p (indent ++ key) (b':' ∷ w),
)
