-- ===== src/Mfa/Codes.antt =====
-- internal/service/mfa.go, `recoveryCodePattern` and `validCodeFormat`, over code points.
use nrcc.Base.Texts.{Text, codes}
use nrcc.Base.{ℕ, zero, suc, String, Bool, true, false, ◌&&◌, ◌||◌, [], ◌∷◌, leb, ◌==◌, length}

abbrev pub is_digit : ℕ → Bool
is_digit c = leb b'0' c && leb c b'9'

abbrev pub is_hex : ℕ → Bool
is_hex c = is_digit c || (leb b'a' c && leb c b'f')

-- Groups of four hexadecimal digits, with a dash between two of them: the digits left in the group,
-- and the groups after it.
unfoldable pub is_grouped : ℕ → ℕ → Text → Bool
is_grouped zero zero [] = true
is_grouped zero zero (c ∷ rest) = false
is_grouped zero (suc groups) [] = false
is_grouped zero (suc groups) (c ∷ rest) = (c == b'-') && is_grouped 4 groups rest
is_grouped (suc left) groups [] = false
is_grouped (suc left) groups (c ∷ rest) = is_hex c && is_grouped left groups rest

-- `recoveryCodePattern.MatchString`
unfoldable pub is_recovery_code : String → Bool
unfolding is_grouped
is_recovery_code code = is_grouped 4 2 (codes code)

abbrev all_digits : Text → Bool
all_digits [] = true
all_digits (c ∷ rest) = is_digit c && all_digits rest

-- `validCodeFormat`; among six bytes that are digits there is no longer encoding.
unfoldable pub valid_code_format : String → Bool
valid_code_format code = (length (codes code) == 6) && all_digits (codes code)
