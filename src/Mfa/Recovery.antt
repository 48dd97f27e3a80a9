-- ===== src/Mfa/Recovery.antt =====
-- internal/service/mfa.go, `ConsumeRecoveryCode`: a recovery code works once.
use nrcc.Base.Texts.{codes}
use nrcc.Base.{
  ◌≡◌, refl, ◌∙◌, ap, subst, inl, inr, String, Bool, true, false, List, [], ◌∷◌, Result, ok, err,
  ◌>>=◌, not, if◌then◌else◌, some, sym, eq_iff, arith, update_first, find?-update_first,
  find?-update_first_self, find?_passes, str_eq, Bool-cases, Option-cases, Result-cases,
}
use nrcc.Store.{holds, update, publish}
use nrcc.Store.Laws.{Held, current, update_ok, update_holds, update-Held}
use nrcc.Mfa.{
  MfaError, recovery_code_used, RecoveryCode, MfaEnrollment, MfaFile, MfaWrite, enrolls, is_unused,
  find_enrollment, spend, with_codes, consume_in, not_found_is_no, is_not_found,
  consume_recovery_code,
}

abbrev spent_in : Result MfaError (List RecoveryCode) → List RecoveryCode
spent_in (ok codes) = codes
spent_in (err e) = []

-- The first code that matches was used.
abbrev is_spent : (RecoveryCode → Bool) → List RecoveryCode → Bool
is_spent matches [] = false
is_spent matches (c ∷ codes) = if matches c then not (is_unused c) else is_spent matches codes

abbrev LooksAtHash : (RecoveryCode → Bool) → Type 0
LooksAtHash matches =
    (c : RecoveryCode) (at : String) → matches (record c { used_at = at }) ≡ matches c

-- What an accepted attempt leaves.
spend_spends :
    (matches : RecoveryCode → Bool) (now : String) (codes codes' : List RecoveryCode)
    → LooksAtHash matches
    → str_eq now "" ≡ false
    → spend matches now codes ≡ ok codes'
    → is_spent matches codes' ≡ true
unfolding spend
spend_spends matches now [] codes' same stamped = λ h. cc
spend_spends matches now (c ∷ codes) codes' same stamped = elim (Bool-cases (matches c)) [
  | inl hit ↦ rw hit (elim (Bool-cases (is_unused c)) [
    | inr used ↦ rw used (λ h. cc)
    | inl unused ↦ rw unused (λ h.
        let hit' = same c now ∙ hit in
        subst (λ l. is_spent matches l ≡ true) (ap spent_in h) (rw (hit', stamped) refl))
  ])
  | inr other ↦ rw other (elim (Result-cases (spend matches now codes)) [
    | inr (e, bad) ↦ rw bad (λ h. cc)
    | inl (rest, good) ↦
        let again = spend_spends matches now codes rest same stamped good in
        rw good
          (λ h. subst (λ l. is_spent matches l ≡ true) (ap spent_in h) (rw (other, again) refl))
  ])
]

-- What is spent stays so, whatever other code is accepted.
spend_keeps :
    (matches other : RecoveryCode → Bool) (now : String) (codes codes' : List RecoveryCode)
    → LooksAtHash matches
    → is_spent matches codes ≡ true
    → spend other now codes ≡ ok codes'
    → is_spent matches codes' ≡ true
unfolding spend
spend_keeps matches other now [] codes' same used = λ h. cc
spend_keeps matches other now (c ∷ codes) codes' same used = elim (Bool-cases (other c)) [
  | inl hit ↦ rw hit (elim (Bool-cases (is_unused c)) [
    | inr done ↦ rw done (λ h. cc)
    | inl unused ↦ rw unused (λ h.
        subst (λ l. is_spent matches l ≡ true) (ap spent_in h) (ground (arith, same c now, used)))
  ])
  | inr miss ↦ rw miss (elim (Result-cases (spend other now codes)) [
    | inr (e, bad) ↦ rw bad (λ h. cc)
    | inl (rest, good) ↦
        let again : is_spent matches codes ≡ true → is_spent matches rest ≡ true =
          λ k. spend_keeps matches other now codes rest same k good in
        rw good (λ h.
          subst (λ l. is_spent matches l ≡ true) (ap spent_in h) (ground (arith, again, used)))
  ])
]

spent_refused :
    (matches : RecoveryCode → Bool) (later : String) (codes : List RecoveryCode)
    → is_spent matches codes ≡ true
    → spend matches later codes ≡ err recovery_code_used
unfolding spend
spent_refused matches later [] used = absurd cc
spent_refused matches later (c ∷ codes) used =
    ground (arith, spent_refused matches later codes, used)

accepted_was_ok : (r : Result MfaError Bool) → not_found_is_no r ≡ ok true → r ≡ ok true
accepted_was_ok (ok b) = λ h. h
accepted_was_ok (err e) = elim (Bool-cases (is_not_found e)) [
  | inl lost ↦ rw lost (λ h. cc)
  | inr other ↦ rw other (λ h. cc)
]

abbrev rows_in : Result MfaError (Bool × List MfaEnrollment) → List MfaEnrollment
rows_in (ok (b, rows)) = rows
rows_in (err e) = []

-- The user's row, in which the code is spent.
abbrev HasSpent : (RecoveryCode → Bool) → String → List MfaEnrollment → Type 0
HasSpent matches user_id rows =
    (row : MfaEnrollment) × (find_enrollment user_id rows ≡ some row)
    × (is_spent matches row.recovery_codes ≡ true)

consume_in_spends :
    (matches : RecoveryCode → Bool) (user_id now : String) (rows rows' : List MfaEnrollment)
    → LooksAtHash matches
    → str_eq now "" ≡ false
    → consume_in matches user_id now rows ≡ ok (true, rows')
    → HasSpent matches user_id rows'
unfolding consume_in
consume_in_spends matches user_id now rows rows' same stamped =
    elim (Option-cases (find_enrollment user_id rows)) [
      | inl absent ↦ rw (consume_in, absent) (λ h. absurd cc)
      | inr (row, found) ↦
          rw (consume_in, found)
            (elim (Result-cases (spend matches now row.recovery_codes)) [
              | inr (e, bad) ↦ rw bad (λ h. absurd cc)
              | inl (codes, good) ↦ rw good (λ h. subst (HasSpent matches user_id) (ap rows_in h) (
                with_codes codes row,
                find?-update_first_self (enrolls user_id) (with_codes codes) rows row found
                    (find?_passes (enrolls user_id) rows row found),
                spend_spends matches now row.recovery_codes codes same stamped good,
              ))
            ])
    ]

row_same :
    (matches : RecoveryCode → Bool) (rows : List MfaEnrollment) (user_id other_id : String)
    (row : MfaEnrollment)
    → str_eq other_id user_id ≡ true
    → HasSpent matches user_id rows
    → find_enrollment other_id rows ≡ some row
    → is_spent matches row.recovery_codes ≡ true
row_same matches rows user_id other_id row same (r, found, used) there =
    let named = (eq_iff other_id user_id).0 same in
    let is : some row ≡ some r = sym there ∙ ap (λ u. find_enrollment u rows) named ∙ found in
    let is_row : r ≡ row = cc in subst (λ x. is_spent matches x.recovery_codes ≡ true) is_row used

consume_in_keeps :
    (matches other : RecoveryCode → Bool) (user_id other_id now : String)
    (rows rows' : List MfaEnrollment) (b : Bool)
    → LooksAtHash matches
    → HasSpent matches user_id rows
    → consume_in other other_id now rows ≡ ok (b, rows')
    → HasSpent matches user_id rows'
unfolding consume_in
consume_in_keeps matches other user_id other_id now rows rows' b same spent =
    elim (Option-cases (find_enrollment other_id rows)) [
      | inl absent ↦ rw (consume_in, absent) (λ h. absurd cc)
      | inr (row, found) ↦
          rw (consume_in, found)
            (elim (Result-cases (spend other now row.recovery_codes)) [
              | inr (e, bad) ↦ rw bad (λ h. absurd cc)
              | inl (codes, good) ↦ rw good (λ h.
                  subst (HasSpent matches user_id) (ap rows_in h)
                    (elim (Bool-cases (str_eq other_id user_id)) [
                      | inl one ↦ (
                        with_codes codes row,
                        ap
                              (λ u.
                                find_enrollment u
                                  (update_first (enrolls other_id) (with_codes codes) rows))
                              (sym ((eq_iff other_id user_id).0 one))
                            ∙ find?-update_first_self (enrolls other_id) (with_codes codes) rows row
                                found (find?_passes (enrolls other_id) rows row found),
                        spend_keeps matches other now row.recovery_codes codes same
                            (row_same matches rows user_id other_id row one spent found) good,
                      )
                      | inr two ↦ (
                        spent.0,
                        find?-update_first (enrolls other_id) (enrolls user_id) (with_codes codes)
                              rows
                              (λ x e. ground (
                                arith,
                                e,
                                two,
                                eq_iff x.user_id other_id,
                                eq_iff x.user_id user_id,
                                eq_iff other_id user_id,
                              ))
                            ∙ spent.1,
                        spent.2,
                      )
                    ]))
            ])
    ]

consume_in_refuses :
    (matches : RecoveryCode → Bool) (user_id later : String) (rows : List MfaEnrollment)
    → HasSpent matches user_id rows
    → consume_in matches user_id later rows ≡ err recovery_code_used
unfolding consume_in
consume_in_refuses matches user_id later rows (row, found, used) =
    rw (consume_in, found) (rw (spent_refused matches later row.recovery_codes used) refl)

-- One call of `ConsumeRecoveryCode` for anyone, with what the disk does with its write.
pub record CodeAttempt : Type 0 where
  pub user_id : String
  pub code : String
  pub now : String
  pub disk : MfaWrite

ran_on :
    (o : Result MfaError (List MfaEnrollment))
    (fn : List MfaEnrollment → Result MfaError (Bool × List MfaEnrollment))
    (rows' : List MfaEnrollment)
    → (o >>= fn) ≡ ok (true, rows')
    → (rows : List MfaEnrollment) × (fn rows ≡ ok (true, rows'))
ran_on (ok rows) fn rows' h = (rows, h)
ran_on (err e) fn rows' h = cc

update_refused :
    (w : MfaWrite) (fn : List MfaEnrollment → Result MfaError (Bool × List MfaEnrollment))
    (rows : List MfaEnrollment) (e : MfaError)
    → fn rows ≡ err e
    → (update [] w fn (holds rows)).1 ≡ err e
unfolding update publish
update_refused w fn rows e refuses = rw refuses refl

-- What holds of the rows after an update, where the callback keeps it.
update_keeps :
    (P : List MfaEnrollment → Type 0) (w : MfaWrite)
    (fn : List MfaEnrollment → Result MfaError (Bool × List MfaEnrollment))
    (rows : List MfaEnrollment)
    → ((t : List MfaEnrollment) (b : Bool) (t' : List MfaEnrollment)
        → P t
        → fn t ≡ ok (b, t')
        → P t')
    → P rows
    → (rows' : List MfaEnrollment) × ((update [] w fn (holds rows)).0 ≡ holds rows') × P rows'
update_keeps P w fn rows keep h =
    let (rows', left) = update_holds [] w fn rows in
    (rows', left, subst (Held [] P) left (update-Held [] P w fn (holds rows) keep h))

module _ (totp_validate compare_hash : String → String → Bool) (normalize : String → String) where
  pub attempt_codes : List CodeAttempt → MfaFile → MfaFile
  attempt_codes [] f = f
  attempt_codes (a ∷ more) f =
      attempt_codes more
        (consume_recovery_code totp_validate compare_hash normalize a.user_id a.code a.now a.disk
          f).0

  abbrev fits : String → RecoveryCode → Bool
  fits code c = compare_hash c.hash (normalize code)

  attempt_codes_keep :
      (more : List CodeAttempt) (user_id code : String) (rows : List MfaEnrollment)
      → HasSpent (fits code) user_id rows
      → (rows' : List MfaEnrollment) × (attempt_codes more (holds rows) ≡ holds rows')
        × HasSpent (fits code) user_id rows'
  unfolding attempt_codes consume_recovery_code
  attempt_codes_keep [] user_id code rows spent = (rows, refl, spent)
  attempt_codes_keep (a ∷ more) user_id code rows spent =
      let (between, left, still) =
        update_keeps (HasSpent (fits code) user_id) a.disk
          (consume_in (fits a.code) a.user_id a.now) rows
          (λ t b t' held ran.
            consume_in_keeps (fits code) (fits a.code) user_id a.user_id a.now t t' b (λ c at. refl)
              held ran)
          spent in
      let (after, ended, spent') = attempt_codes_keep more user_id code between still in
      (after, ap (attempt_codes more) left ∙ ended, spent')

  -- Once a recovery code was accepted for a user, then after any further attempts that consume recovery
  -- codes, of this or another user, with this or another code, accepted or not, at any times and whatever the
  -- disk does with their writes, an attempt with the same code for the user is refused as used, at any time.
  -- Enrollments and the disabling of a second factor are not among the calls between.
  pub consume_recovery_code_once :
      (user_id code now later : String) (w w' : MfaWrite) (f : MfaFile) (between : List CodeAttempt)
      → str_eq now "" ≡ false
      → (consume_recovery_code totp_validate compare_hash normalize user_id code now w f).1
        ≡ ok true
      → (consume_recovery_code totp_validate compare_hash normalize user_id code later w' (
          attempt_codes between
            (consume_recovery_code totp_validate compare_hash normalize user_id code now w f).0)).1
        ≡ err recovery_code_used
  unfolding consume_recovery_code
  consume_recovery_code_once user_id code now later w w' f between stamped accepted =
      let done = accepted_was_ok (update [] w (consume_in (fits code) user_id now) f).1 accepted in
      let (rows', ran, stored) = update_ok [] w (consume_in (fits code) user_id now) f true done in
      let (rows, consumed) = ran_on (current [] f) (consume_in (fits code) user_id now) rows' ran in
      let spent =
        consume_in_spends (fits code) user_id now rows rows' (λ c at. refl) stamped consumed in
      let (after, ended, still) = attempt_codes_keep between user_id code rows' spent in
      ap
        (λ g.
          (consume_recovery_code totp_validate compare_hash normalize user_id code later w' g).1)
        (ap (attempt_codes between) stored ∙ ended)
      ∙ ap not_found_is_no (
          update_refused w' (consume_in (fits code) user_id later) after recovery_code_used
            (consume_in_refuses (fits code) user_id later after still))
