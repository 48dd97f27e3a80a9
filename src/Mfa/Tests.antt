-- ===== src/Mfa/Tests.antt =====
-- internal/service/mfa.go: one enrolled user, with hashes that are the codes and a fixed TOTP code.
use nrcc.Base.{◌≡◌, refl, ◌⊎◌, String, Bool, false, [], ◌∷◌, err, str_eq}
use nrcc.Base.Assoc.{lookup}
use nrcc.Store.{holds, written, update}
use nrcc.Auth.{UserFile}
use nrcc.Store.Laws.{current}
use nrcc.Mfa.Codes.{valid_code_format}
use nrcc.Mfa.Enrollment.{confirm_enrollment_enrolls}
use nrcc.Base.{some, count_if, true, List, ok}
use nrcc.Mfa.{
  MfaError, RecoveryCode, MfaEnrollment, find_enrollment, is_unused, is_enrolled, status,
  confirm_enrollment, recovery_code_used, token_invalid, token_used, MfaFile, consume_recovery_code,
}
use nrcc.Mfa.Recovery.{CodeAttempt, attempt_codes, consume_recovery_code_once}
use nrcc.Mfa.Tokens.{PendingTokens, verify_and_issue_session, mfa_token_single_use}

abbrev totp : String → String → Bool
totp code secret = str_eq code "123456"

abbrev same_hash : String → String → Bool
same_hash hash code = str_eq hash code

abbrev as_is : String → String
as_is code = code

abbrev enrolled : MfaFile
enrolled = holds (
    record {
      user_id = "1";
      secret = "S";
      enrolled_at = "t0";
      updated_at = "t0";
      pending = false;
      recovery_codes =
          record { hash = "aaaa-bbbb-cccc"; used_at = "" }
          ∷ record { hash = "0000-1111-2222"; used_at = "" }
          ∷ [];
    }
    ∷ [])

abbrev users : UserFile
users = holds (
    record {
      id = "1";
      username = "alice";
      password_hash = "h";
      role = "admin";
      created_at = "t";
      updated_at = "t";
    }
    ∷ [])

abbrev tokens : PendingTokens
tokens =
    ("T", record { user_id = "1"; username = "alice"; expires_at = 300; used = false })
    ∷ ("U", record { user_id = "1"; username = "alice"; expires_at = 300; used = false })
    ∷ []

-- The same code again, another one, and a code of a user who is not enrolled.
abbrev further : List CodeAttempt
further =
    record { user_id = "1"; code = "0000-1111-2222"; now = "t2"; disk = written }
    ∷ record { user_id = "1"; code = "aaaa-bbbb-cccc"; now = "t3"; disk = written }
    ∷ record { user_id = "9"; code = "0000-1111-2222"; now = "t4"; disk = written }
    ∷ []

consume_recovery_code_once_example :
    (consume_recovery_code totp same_hash as_is "1" "0000-1111-2222" "t5" written (
      attempt_codes totp same_hash as_is further
        (consume_recovery_code totp same_hash as_is "1" "0000-1111-2222" "t1" written
          enrolled).0)).1
    ≡ err recovery_code_used
unfolding consume_recovery_code update
consume_recovery_code_once_example =
    consume_recovery_code_once totp same_hash as_is "1" "0000-1111-2222" "t1" "t5" written written
      enrolled further refl refl

mfa_token_single_use_example :
    let left =
      (verify_and_issue_session totp same_hash as_is as_is users "T" "123456" 100 "t1" written
        (tokens, enrolled)).0.0 in
    let second =
      (verify_and_issue_session totp same_hash as_is as_is users "T" "123456" 110 "t2" written
        (left, enrolled)).1 in
    ((second ≡ err token_invalid) ⊎ (second ≡ err token_used))
    × ((q : String) → str_eq "T" q ≡ false → lookup q left ≡ lookup q tokens)
mfa_token_single_use_example =
    mfa_token_single_use totp same_hash as_is as_is users users "T" "123456" "123456" 100 110 "t1"
      "t2" written written tokens enrolled enrolled

-- A user who began to enroll.
abbrev begun : MfaFile
begun = holds (
    record {
      user_id = "1";
      secret = "S";
      enrolled_at = "";
      updated_at = "t0";
      pending = true;
      recovery_codes = [];
    }
    ∷ [])

abbrev hashes : List RecoveryCode
hashes = record { hash = "aaaa-bbbb-cccc"; used_at = "" } ∷ []

abbrev shown : List String
shown = "aaaa-bbbb-cccc" ∷ []

confirm_enrollment_enrolls_example :
    let f' =
      (confirm_enrollment totp same_hash as_is
        (ok (shown, hashes))
        "1"
        "123456"
        "t1"
        written
        begun).0 in
    (◌≡◌ {A = List String} shown shown)
    × ((rows : List MfaEnrollment) × (row : MfaEnrollment) × (current {E = MfaError} [] begun
          ≡ ok rows)
        × (find_enrollment "1" rows ≡ some row)
        × (row.pending ≡ true)
        × (totp "123456" row.secret ≡ true))
    × (is_enrolled f' "1" ≡ true)
    × (status f' "1" ≡ ok (true, count_if is_unused hashes))
unfolding confirm_enrollment update valid_code_format
confirm_enrollment_enrolls_example =
    confirm_enrollment_enrolls totp same_hash as_is "1" "123456" "t1" shown hashes written begun
      shown refl
