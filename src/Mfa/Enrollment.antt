-- ===== src/Mfa/Enrollment.antt =====
-- internal/service/mfa.go: what a confirmed enrollment leaves.
use nrcc.Base.{
  ◌≡◌, refl, sym, ◌∙◌, ap, inl, inr, String, Bool, true, some, List, [], Result, ok, err, ◌>>=◌,
  count_if, find?-update_first_self, find?_passes, str_eq, update_first, Bool-cases, Option-cases,
}
use nrcc.Store.{holds, read}
use nrcc.Store.Laws.{current, update_ok}
use nrcc.Mfa.{
  MfaError, RecoveryCode, MfaEnrollment, MfaFile, MfaWrite, enrolls, is_unused, find_enrollment,
  committed, status, committed_row, is_enrolled, confirm_in, confirm_enrollment,
}
use nrcc.Mfa.Codes.{valid_code_format}

module _ (totp_validate compare_hash : String → String → Bool) (normalize : String → String) where
  abbrev rows_after : Result MfaError (Unit {0} × List MfaEnrollment) → List MfaEnrollment
  rows_after (ok (u, rows)) = rows
  rows_after (err e) = []

  -- What a confirmation that goes through commits.
  confirm_in_commits :
      (user_id code now : String) (hashes : List RecoveryCode) (rows rows' : List MfaEnrollment)
      (u : Unit {0})
      → confirm_in totp_validate compare_hash normalize user_id code now hashes rows ≡ ok (u, rows')
      → (row : MfaEnrollment) × (find_enrollment user_id rows ≡ some row)
        × (row.pending ≡ true)
        × (totp_validate code row.secret ≡ true)
        × (find_enrollment user_id rows' ≡ some (committed now hashes row))
  unfolding confirm_in
  confirm_in_commits user_id code now hashes rows rows' u =
      elim (Option-cases (find_enrollment user_id rows)) [
        | inl absent ↦ rw (confirm_in, absent) (λ h. cc)
        | inr (row, found) ↦ elim (Bool-cases (str_eq row.secret "")) [
          | inl empty ↦ rw (confirm_in, found, empty) (λ h. cc)
          | inr secret ↦ elim (Bool-cases row.pending) [
            | inr active ↦ rw (confirm_in, found, secret, active) (λ h. cc)
            | inl pending ↦ elim (Bool-cases (totp_validate code row.secret)) [
              | inr wrong ↦ rw (confirm_in, found, secret, pending, wrong) (λ h. cc)
              | inl right ↦ λ h.
                  let commit : confirm_in totp_validate compare_hash normalize user_id code now
                        hashes rows
                      ≡ ok (tt, update_first (enrolls user_id) (committed now hashes) rows) =
                    rw (confirm_in, found, secret, pending, right) refl in
                  let after : update_first (enrolls user_id) (committed now hashes) rows ≡ rows' =
                    ap rows_after (sym commit ∙ h) in
                  (
                    row,
                    found,
                    pending,
                    right,
                    ap (find_enrollment user_id) (sym after)
                        ∙ find?-update_first_self (enrolls user_id) (committed now hashes) rows row
                            found (find?_passes (enrolls user_id) rows row found),
                  )
            ]
          ]
        ]
      ]

  committed_row_held :
      (user_id now : String) (hashes : List RecoveryCode) (rows : List MfaEnrollment)
      (row : MfaEnrollment)
      → find_enrollment user_id rows ≡ some (committed now hashes row)
      → (is_enrolled (holds rows) user_id ≡ true)
        × (status (holds rows) user_id ≡ ok (true, count_if is_unused hashes))
  unfolding is_enrolled committed_row read status
  committed_row_held user_id now hashes rows row found =
      (rw (is_enrolled, committed_row, found) refl, rw (status, found) refl)

  -- The answer of a confirmation, with what the store is left.
  abbrev answer :
      List String
      → Result MfaError (Unit {0} × List MfaEnrollment)
      → Result MfaError (List String × List MfaEnrollment)
  answer display r = ◌>>=◌ {B = List String × List MfaEnrollment} r (λ a. ok (display, a.1))

  answered :
      (r : Result MfaError (Unit {0} × List MfaEnrollment)) (display x : List String)
      (rows' : List MfaEnrollment)
      → answer display r ≡ ok (x, rows')
      → (u : Unit {0}) × (r ≡ ok (u, rows')) × (x ≡ display)
  answered (ok (u, rows)) display x rows' h = (u, cc, cc)
  answered (err e) display x rows' h = cc

  ran_answered :
      (o : Result MfaError (List MfaEnrollment))
      (fn : List MfaEnrollment → Result MfaError (Unit {0} × List MfaEnrollment))
      (display x : List String) (rows' : List MfaEnrollment)
      → (o >>= λ rows. answer display (fn rows)) ≡ ok (x, rows')
      → (rows : List MfaEnrollment) × (u : Unit {0}) × (o ≡ ok rows)
        × (fn rows ≡ ok (u, rows'))
        × (x ≡ display)
  ran_answered (ok rows) fn display x rows' h =
      let (u, ran, shown) = answered (fn rows) display x rows' h in (rows, u, refl, ran, shown)
  ran_answered (err e) fn display x rows' h = cc

  -- A confirmation that succeeds shows exactly the generated codes. It found a pending row whose
  -- secret the code fits; the user is enrolled from then on, and all of the unused codes that were
  -- stored are left to spend.
  pub confirm_enrollment_enrolls :
      (user_id code now : String) (display : List String) (hashes : List RecoveryCode)
      (w : MfaWrite) (f : MfaFile) (x : List String)
      → (confirm_enrollment totp_validate compare_hash normalize
          (ok (display, hashes))
          user_id
          code
          now
          w
          f).1
        ≡ ok x
      → let f' =
          (confirm_enrollment totp_validate compare_hash normalize
            (ok (display, hashes))
            user_id
            code
            now
            w
            f).0 in
        (x ≡ display)
        × ((rows : List MfaEnrollment) × (row : MfaEnrollment) × (current [] f ≡ ok rows)
            × (find_enrollment user_id rows ≡ some row)
            × (row.pending ≡ true)
            × (totp_validate code row.secret ≡ true))
        × (is_enrolled f' user_id ≡ true)
        × (status f' user_id ≡ ok (true, count_if is_unused hashes))
  unfolding confirm_enrollment
  confirm_enrollment_enrolls user_id code now display hashes w f x =
      elim (Bool-cases (valid_code_format code)) [
        | inr malformed ↦ rw (confirm_enrollment, malformed) (λ h. cc)
        | inl formed ↦
            rw (confirm_enrollment, formed)
              (λ h.
                let (t, ran, stored) = update_ok [] w _ f x h in
                let (rows, u, was, through, shown) =
                  ran_answered (current [] f)
                    (confirm_in totp_validate compare_hash normalize user_id code now hashes)
                    display x t ran in
                let (row, found, pending, right, left) =
                  confirm_in_commits user_id code now hashes rows t u through in
                let (enrolled, reported) = committed_row_held user_id now hashes t row left in
                (
                  shown,
                  (rows, row, was, found, pending, right),
                  ap (λ g. is_enrolled g user_id) stored ∙ enrolled,
                  ap (λ g. status g user_id) stored ∙ reported,
                ))
      ]
