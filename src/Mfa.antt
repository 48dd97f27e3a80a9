-- ===== src/Mfa.antt =====
-- internal/service/mfa.go, internal/model/mfa.go: second factors. The table is the JSON store
-- mfa.json; TOTP, bcrypt and the lower-casing of a recovery code are parameters.
pub mod Codes
pub mod Recovery
pub mod Enrollment
pub mod Tokens
pub mod Tests
use nrcc.Base.Texts.{codes}
use nrcc.Base.{
  ℕ, String, Bool, true, false, not, ◌&&◌, Option, none, some, List, [], ◌∷◌, ◌++◌, Result, ok, err,
  if◌then◌else◌, ◌>>=◌, find?, count_if, remove_first, update_first, str_eq,
}
use nrcc.Store.{File, Write, read, update}
use nrcc.Auth.{CcUser, UserFile, get_user_by_id}
use nrcc.Mfa.Codes.{valid_code_format}

pub data MfaError : Type 0 where
  already_enrolled not_enrolled invalid_code token_invalid token_expired token_used : MfaError
  user_not_found invalid_password pending_missing : MfaError
  recovery_code_used recovery_not_found forbidden not_exist : MfaError
  io : String → MfaError

pub record RecoveryCode : Type 0 where
  pub hash : String
  pub used_at : String

pub record MfaEnrollment : Type 0 where
  pub user_id : String
  pub secret : String
  pub enrolled_at : String
  pub updated_at : String
  pub pending : Bool
  pub recovery_codes : List RecoveryCode

abbrev pub MfaFile : Type 0
MfaFile = File MfaError (List MfaEnrollment)

abbrev pub MfaWrite : Type 0
MfaWrite = Write MfaError

abbrev pub enrolls : String → MfaEnrollment → Bool
enrolls user_id row = str_eq row.user_id user_id

abbrev pub is_unused : RecoveryCode → Bool
is_unused code = str_eq code.used_at ""

-- `findEnrollment`
abbrev pub find_enrollment : String → List MfaEnrollment → Option MfaEnrollment
find_enrollment user_id rows = find? (enrolls user_id) rows

-- `hasActiveEnrollment`; it looks at pending rows too.
abbrev pub has_active_enrollment : String → List MfaEnrollment → Bool
has_active_enrollment user_id rows = elim (find_enrollment user_id rows) [
  | none ↦ false
  | some row ↦ true
]

-- The callback of `BeginEnrollment`.
unfoldable pub begin_in :
    MfaEnrollment → List MfaEnrollment → Result MfaError (Unit {0} × List MfaEnrollment)
begin_in candidate rows =
    if has_active_enrollment candidate.user_id rows
    then err already_enrolled
    else elim (find_enrollment candidate.user_id rows) [
      | none ↦ ok (tt, rows ++ candidate ∷ [])
      | some row ↦ ok (tt, update_first (enrolls candidate.user_id) (λ r. candidate) rows)
    ]

-- `BeginEnrollment`; the secret is what the generator gave.
unfoldable pub begin_enrollment :
    UserFile
    → Result MfaError String
    → String
    → String
    → MfaWrite
    → MfaFile
    → MfaFile × Result MfaError String
unfolding begin_in
begin_enrollment users generated user_id now w f = elim (get_user_by_id users user_id) [
  | none ↦ (f, err user_not_found)
  | some u ↦ elim generated [
    | err e ↦ (f, err e)
    | ok secret ↦
        let candidate : MfaEnrollment = record {
          user_id = user_id;
          secret = secret;
          enrolled_at = "";
          updated_at = now;
          pending = true;
          recovery_codes = [];
        } in
        update [] w (λ rows. begin_in candidate rows >>= λ r. ok (secret, r.1)) f
  ]
]

abbrev pub committed : String → List RecoveryCode → MfaEnrollment → MfaEnrollment
committed now hashes row = record row {
  pending = false;
  enrolled_at = now;
  updated_at = now;
  recovery_codes = hashes;
}

-- The callback of `Disable`.
unfoldable pub disable_in :
    String → List MfaEnrollment → Result MfaError (Unit {0} × List MfaEnrollment)
disable_in user_id rows = elim (find_enrollment user_id rows) [
  | none ↦ err not_enrolled
  | some row ↦ ok (tt, remove_first (enrolls user_id) rows)
]

-- `Status`: enabled, with the number of unused recovery codes.
unfoldable pub status : MfaFile → String → Result MfaError (Bool × ℕ)
status (File.missing) user_id = ok (false, 0)
status (File.unreadable e) user_id = err e
status (File.holds rows) user_id = elim (find_enrollment user_id rows) [
  | none ↦ ok (false, 0)
  | some row ↦
      if row.pending then ok (false, 0) else ok (true, count_if is_unused row.recovery_codes)
]

-- The row of `IsEnrolled` and `VerifyTotp`: a committed one.
unfoldable pub committed_row : MfaFile → String → Option MfaEnrollment
committed_row f user_id = elim (read not_exist f) [
  | err e ↦ none
  | ok rows ↦ elim (find_enrollment user_id rows) [
    | none ↦ none
    | some row ↦ if row.pending then none else some row
  ]
]

-- `IsEnrolled`
unfoldable pub is_enrolled : MfaFile → String → Bool
is_enrolled f user_id = elim (committed_row f user_id) [ none ↦ false | some row ↦ true ]

-- The loop of `ConsumeRecoveryCode`: the first code that matches decides.
unfoldable pub spend :
    (RecoveryCode → Bool) → String → List RecoveryCode → Result MfaError (List RecoveryCode)
spend matches now [] = err recovery_not_found
spend matches now (c ∷ codes) =
    let rest = spend matches now codes in
    if matches c
    then (if is_unused c then ok (record c { used_at = now } ∷ codes) else err recovery_code_used)
    else (rest >>= λ codes'. ok (c ∷ codes'))

abbrev pub with_codes : List RecoveryCode → MfaEnrollment → MfaEnrollment
with_codes codes row = record row { recovery_codes = codes }

-- The callback of `ConsumeRecoveryCode`.
unfoldable pub consume_in :
    (RecoveryCode → Bool)
    → String
    → String
    → List MfaEnrollment
    → Result MfaError (Bool × List MfaEnrollment)
unfolding spend
consume_in matches user_id now rows = elim (find_enrollment user_id rows) [
  | none ↦ err not_enrolled
  | some row ↦ spend matches now row.recovery_codes >>= λ codes.
      ok (true, update_first (enrolls user_id) (with_codes codes) rows)
]

-- A code that is nobody's is no error.
abbrev pub is_not_found : MfaError → Bool
is_not_found recovery_not_found = true
is_not_found _ = false

abbrev pub not_found_is_no : Result MfaError Bool → Result MfaError Bool
not_found_is_no (ok b) = ok b
not_found_is_no (err e) = if is_not_found e then ok false else err e

module _ (totp_validate compare_hash : String → String → Bool) (normalize : String → String) where
  -- The callback of `ConfirmEnrollment`.
  unfoldable pub confirm_in :
      String
      → String
      → String
      → List RecoveryCode
      → List MfaEnrollment
      → Result MfaError (Unit {0} × List MfaEnrollment)
  confirm_in user_id code now hashes rows = elim (find_enrollment user_id rows) [
    | none ↦ err pending_missing
    | some row ↦
        if str_eq row.secret ""
        then err pending_missing
        else if not row.pending
        then err already_enrolled
        else if not (totp_validate code row.secret)
        then err invalid_code
        else ok (tt, update_first (enrolls user_id) (committed now hashes) rows)
  ]

  -- `ConfirmEnrollment`; the codes with their hashes are what the generator gave.
  unfoldable pub confirm_enrollment :
      Result MfaError (List String × List RecoveryCode)
      → String
      → String
      → String
      → MfaWrite
      → MfaFile
      → MfaFile × Result MfaError (List String)
  unfolding confirm_in
  confirm_enrollment generated user_id code now w f =
      if not (valid_code_format code) then (f, err invalid_code) else elim generated [
        | err e ↦ (f, err e)
        | ok (display, hashes) ↦
            update [] w (λ rows. confirm_in user_id code now hashes rows >>= λ r. ok (display, r.1))
              f
      ]

  -- `Disable`; `compare_hash` checks the caller's password.
  unfoldable pub disable :
      UserFile
      → String
      → String
      → String
      → Bool
      → MfaWrite
      → MfaFile
      → MfaFile × Result MfaError (Unit {0})
  unfolding disable_in
  disable users acting_id target_id password acting_is_admin w f =
      elim (get_user_by_id users acting_id) [
        | none ↦ (f, err user_not_found)
        | some actor ↦
            if not (compare_hash actor.password_hash password)
            then (f, err invalid_password)
            else if not (str_eq acting_id target_id) && not acting_is_admin
            then (f, err forbidden)
            else update [] w (disable_in target_id) f
      ]

  -- `VerifyTotp`
  unfoldable pub verify_totp : MfaFile → String → String → Bool
  verify_totp f user_id code = elim (committed_row f user_id) [
    | none ↦ false
    | some row ↦ totp_validate code row.secret
  ]

  -- `ConsumeRecoveryCode`
  unfoldable pub consume_recovery_code :
      String → String → String → MfaWrite → MfaFile → MfaFile × Result MfaError Bool
  unfolding consume_in
  consume_recovery_code user_id code now w f =
      let (f', r) =
        update [] w (consume_in (λ c. compare_hash c.hash (normalize code)) user_id now) f in
      (f', not_found_is_no r)
