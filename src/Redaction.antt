-- ===== src/Redaction.antt =====
-- internal/service/apply_diff.go: the redaction of settings.js before it is shown or audited, over code
-- points.
mod Keys
pub mod Hiding
pub mod Tests
use nrcc.Base.Texts.{Text, codes, text_eq, has_text, without_text, sort_texts}
use nrcc.Base.{
  ℕ, zero, suc, ◌+◌, ◌-◌, String, Bool, true, false, not, ◌&&◌, ◌||◌, Option, none, some, List, [],
  ◌∷◌, ◌++◌, if◌then◌else◌, leb, ◌==◌, count_if,
}

-- `secretSettingKeySet`
abbrev pub secret_setting_keys : List Text
secret_setting_keys =
    codes "credentialSecret"
    ∷ codes "functionGlobalContext"
    ∷ codes "adminAuth"
    ∷ codes "httpNodeAuth"
    ∷ codes "httpStaticAuth"
    ∷ codes "https"
    ∷ codes "dashboard"
    ∷ []

unfoldable pub is_secret : Text → Bool
is_secret key = has_text key secret_setting_keys

abbrev pub newline : ℕ
newline = 10

-- `strings.Split(content, "\n")` and `strings.Join`.
abbrev pub on_first : ℕ → List Text → List Text
on_first c [] = (c ∷ []) ∷ []
on_first c (line ∷ lines) = (c ∷ line) ∷ lines

unfoldable pub split_lines : Text → List Text
split_lines [] = [] ∷ []
split_lines (c ∷ cs) =
    let lines = split_lines cs in if c == newline then [] ∷ lines else on_first c lines

unfoldable pub join_lines : List Text → Text
join_lines [] = []
join_lines (line ∷ []) = line
join_lines (line ∷ next ∷ lines) = line ++ newline ∷ join_lines (next ∷ lines)

abbrev pub is_space : ℕ → Bool
is_space c = (c == 32) || (c == 9)

abbrev pub all_space : Text → Bool
all_space [] = true
all_space (c ∷ cs) = is_space c && all_space cs

-- `strings.TrimLeft(line, " \t")`
unfoldable pub trim_left : Text → Text
trim_left [] = []
trim_left (c ∷ cs) = if is_space c then trim_left cs else c ∷ cs

-- What may begin a key, and what may go on in one.
abbrev pub is_start : ℕ → Bool
is_start c = (leb 65 c && leb c 90) || (leb 97 c && leb c 122) || (c == b'_') || (c == b'$')

abbrev pub is_word : ℕ → Bool
is_word c = is_start c || (leb 48 c && leb c 57)

abbrev pub then_key : ℕ → Option Text → Option Text
then_key c none = none
then_key c (some key) = some (c ∷ key)

-- The loop of `keyInLine` after its first round, and its first round.
unfoldable pub key_rest : Text → Option Text
key_rest [] = none
key_rest (c ∷ cs) =
    let rest = key_rest cs in
    if is_word c then then_key c rest else if c == b':' then some [] else none

unfoldable pub key_start : Text → Option Text
unfolding key_rest
key_start [] = none
key_start (c ∷ cs) =
    if is_start c then then_key c (key_rest cs) else if c == b':' then some [] else none

-- `keyInLine`; a line that begins with a comment has no key, as `/` begins none.
unfoldable pub key_in_line : Text → Option Text
unfolding trim_left key_start
key_in_line line = key_start (trim_left line)

abbrev pub is_prefix : Text → Text → Bool
is_prefix [] t = true
is_prefix (c ∷ s) [] = false
is_prefix (c ∷ s) (d ∷ t) = (c == d) && is_prefix s t

-- A text up to the end of the first place where another one stands in it.
unfoldable pub through : Text → Text → Option Text
through needle [] = none
through needle (c ∷ cs) =
    let rest = through needle cs in
    if is_prefix needle (c ∷ cs) then some needle else then_key c rest

-- Whether the text ends with a comma but for white space.
unfoldable pub ends_with_comma : Text → Bool
ends_with_comma [] = false
ends_with_comma (c ∷ cs) = let rest = ends_with_comma cs in if all_space cs then c == b',' else rest

-- `redactTopLevelLine`
unfoldable pub redact_top_level_line : Text → Text → Text
unfolding through ends_with_comma
redact_top_level_line line key = elim (through (key ++ b':' ∷ []) line) [
  | none ↦ line
  | some prefix ↦ prefix ++ codes " [redacted]" ++ (if ends_with_comma line then b',' ∷ [] else [])
]

abbrev pub opens : Text → ℕ
opens line = count_if (λ c. c == b'{') line

abbrev pub closes : Text → ℕ
closes line = count_if (λ c. c == b'}') line

-- The depth after a line. The source keeps a depth below zero, which it treats as zero.
unfoldable pub depth_after : ℕ → Text → ℕ
unfolding key_in_line is_secret
depth_after (suc d) line = suc d + opens line - closes line
depth_after zero line = elim (key_in_line line) [
  | none ↦ 0
  | some key ↦ if is_secret key then opens line - closes line else 0
]

-- A line at a depth. What the source does for the key `https` after its check for secret keys is never
-- reached, as that key is one of them.
unfoldable pub redact_line : ℕ → Text → Text
unfolding key_in_line is_secret redact_top_level_line
redact_line (suc d) line = codes "  [redacted]"
redact_line zero line = elim (key_in_line line) [
  | none ↦ line
  | some key ↦ if is_secret key then redact_top_level_line line key else line
]

unfoldable pub redact_lines : ℕ → List Text → List Text
unfolding depth_after redact_line
redact_lines depth [] = []
redact_lines depth (line ∷ lines) =
    redact_line depth line ∷ redact_lines (depth_after depth line) lines

-- `RedactSettingsContent`
unfoldable pub redact_settings_content : Text → Text
unfolding split_lines join_lines redact_lines
redact_settings_content [] = []
redact_settings_content (c ∷ cs) = join_lines (redact_lines 0 (split_lines (c ∷ cs)))

-- The set of lines of `RedactDiff`, as a list.
abbrev pub distinct_lines : List Text → List Text
distinct_lines [] = []
distinct_lines (l ∷ ls) = let rest = distinct_lines ls in if has_text l rest then rest else l ∷ rest

abbrev pub marked : String → Text → Text → Text
marked mark line rest = codes mark ++ line ++ newline ∷ rest

abbrev pub removed_lines : List Text → Text
removed_lines [] = []
removed_lines (l ∷ ls) = marked "- " l (removed_lines ls)

-- The loop over the lines after, and the lines that are left of those before.
unfoldable pub diff_lines : List Text → List Text → Text
diff_lines left [] = removed_lines (sort_texts left)
diff_lines left (l ∷ ls) =
    if has_text l left
    then marked "  " l (diff_lines (without_text l left) ls)
    else marked "+ " l (diff_lines left ls)

-- `RedactDiff`
unfoldable pub redact_diff : Text → Text → Text
unfolding redact_settings_content diff_lines split_lines
redact_diff before after =
    let old = redact_settings_content before in
    let new = redact_settings_content after in
    if text_eq old new then [] else diff_lines (distinct_lines (split_lines old)) (split_lines new)
