-- ===== src/Mfa/Tokens.antt =====
-- internal/service/mfa.go: the tokens between a login and the verification of its second factor.
-- Times are nanoseconds; removing a token is atomic, under the service's lock.
use nrcc.Base.{
  ℕ, ◌+◌, ◌*◌, ◌≡◌, refl, inl, inr, ◌⊎◌, String, Bool, true, false, none, some, List, Result, ok,
  err, arith, ltb, if◌then◌else◌, str_eq, eq_refl, Bool-cases, Option-cases, Result-cases,
}
use nrcc.Base.Assoc.{lookup, insert, erase, lookup-erase}
use nrcc.Auth.{CcUser, UserFile, get_user_by_id}
use nrcc.Mfa.{
  MfaError, invalid_code, token_invalid, token_expired, token_used, user_not_found, MfaFile,
  MfaWrite, verify_totp, consume_recovery_code,
}
use nrcc.Mfa.Codes.{is_recovery_code, valid_code_format}

-- `pendingMfa`
pub record PendingMfa : Type 0 where
  pub user_id : String
  pub username : String
  pub expires_at : ℕ
  pub used : Bool

abbrev pub PendingTokens : Type 0
PendingTokens = List (String × PendingMfa)

-- `MfaTokenTTL`
abbrev pub mfa_token_ttl : ℕ
mfa_token_ttl = 5 * 60 * 1000000000

-- `IssueMfaToken`; the token is what the random source gave.
unfoldable pub issue_mfa_token :
    UserFile
    → Result MfaError String
    → String
    → ℕ
    → PendingTokens
    → PendingTokens × Result MfaError String
issue_mfa_token users generated user_id now tokens = elim (get_user_by_id users user_id) [
  | none ↦ (tokens, err user_not_found)
  | some user ↦ elim generated [
    | err e ↦ (tokens, err e)
    | ok token ↦ (
      insert token
          (record {
            user_id = user_id;
            username = user.username;
            expires_at = now + mfa_token_ttl;
            used = false;
          })
          tokens,
      ok token,
    )
  ]
]

-- The part of `VerifyAndIssueSession` under the lock: the token is taken off the ledger.
unfoldable pub take_token : String → ℕ → PendingTokens → PendingTokens × Result MfaError PendingMfa
take_token token now tokens = elim (lookup token tokens) [
  | none ↦ (tokens, err token_invalid)
  | some p ↦
      if p.used
      then (tokens, err token_used)
      else if ltb p.expires_at now
      then (erase token tokens, err token_expired)
      else (erase token tokens, ok p)
]

-- `LookupUsernameByMfaToken`
unfoldable pub lookup_username_by_mfa_token : String → ℕ → PendingTokens → String
lookup_username_by_mfa_token token now tokens = elim (lookup token tokens) [
  | none ↦ ""
  | some p ↦ if p.used then "" else if ltb p.expires_at now then "" else p.username
]

module _ (totp_validate compare_hash : String → String → Bool)
    (normalize trim : String → String) where
  -- `verifyCodeForUser`
  unfoldable pub verify_code_for_user :
      String → String → String → MfaWrite → MfaFile → MfaFile × Result MfaError String
  verify_code_for_user user_id code stamp w f =
      let (f', consumed) =
        consume_recovery_code totp_validate compare_hash normalize user_id code stamp w f in
      if is_recovery_code code
      then (
        f',
        elim consumed [ err e ↦ err e | ok false ↦ err invalid_code | ok true ↦ ok "recovery" ],
      )
      else if valid_code_format code
      then (
        f,
        if verify_totp totp_validate compare_hash normalize f user_id code
            then ok "totp"
            else err invalid_code,
      )
      else (f, err invalid_code)

  -- `VerifyAndIssueSession`: the user and the method that succeeded.
  unfoldable pub verify_and_issue_session :
      UserFile
      → String
      → String
      → ℕ
      → String
      → MfaWrite
      → PendingTokens × MfaFile
      → (PendingTokens × MfaFile) × Result MfaError (CcUser × String)
  unfolding take_token
  verify_and_issue_session users token code now stamp w (tokens, f) =
      let (tokens', taken) = take_token token now tokens in
      elim taken [
        | err e ↦ ((tokens', f), err e)
        | ok p ↦ elim (get_user_by_id users p.user_id) [
          | none ↦ ((tokens', f), err user_not_found)
          | some user ↦
              let (f', verified) = verify_code_for_user p.user_id (trim code) stamp w f in
              ((tokens', f'), elim verified [ err e ↦ err e | ok method ↦ ok (user, method) ])
        ]
      ]

-- A token is gone, or was already marked as used, once it was taken; the others stay.
take_token_twice :
    (token : String) (now later : ℕ) (tokens : PendingTokens)
    → let left = (take_token token now tokens).0 in
      (((take_token token later left).1 ≡ err token_invalid)
        ⊎ ((take_token token later left).1 ≡ err token_used))
      × ((q : String) → str_eq token q ≡ false → lookup q left ≡ lookup q tokens)
unfolding take_token
take_token_twice token now later tokens =
    let gone : lookup token (erase token tokens) ≡ none =
      ground (arith, lookup-erase token token tokens, eq_refl token) in
    let others : (q : String)
        → str_eq token q ≡ false
        → lookup q (erase token tokens) ≡ lookup q tokens =
      λ q o. ground (arith, lookup-erase token q tokens) in
    elim (Option-cases (lookup token tokens)) [
      | inl absent ↦ rw (take_token, absent) (inl (rw (take_token, absent) refl), λ q o. refl)
      | inr (p, there) ↦ elim (Bool-cases p.used) [
        | inl used ↦
            rw (take_token, there, used) (inr (rw (take_token, there, used) refl), λ q o. refl)
        | inr fresh ↦ elim (Bool-cases (ltb p.expires_at now)) [
          | inl late ↦
              rw (take_token, there, fresh, late) (inl (rw (take_token, gone) refl), others)
          | inr timely ↦
              rw (take_token, there, fresh, timely) (inl (rw (take_token, gone) refl), others)
        ]
      ]
    ]

module _ (totp_validate compare_hash : String → String → Bool)
    (normalize trim : String → String) where
  abbrev verify :
      UserFile
      → String
      → String
      → ℕ
      → String
      → MfaWrite
      → PendingTokens × MfaFile
      → (PendingTokens × MfaFile) × Result MfaError (CcUser × String)
  verify = verify_and_issue_session totp_validate compare_hash normalize trim

  verify_takes :
      (users : UserFile) (token code : String) (now : ℕ) (stamp : String) (w : MfaWrite)
      (tokens : PendingTokens) (f : MfaFile)
      → (verify users token code now stamp w (tokens, f)).0.0 ≡ (take_token token now tokens).0
  unfolding verify_and_issue_session
  verify_takes users token code now stamp w tokens f =
      elim (Result-cases (take_token token now tokens).1) [
        | inr (e, bad) ↦ rw (verify_and_issue_session, bad) refl
        | inl (p, taken) ↦
            rw (verify_and_issue_session, taken)
              (elim (Option-cases (get_user_by_id users p.user_id)) [
                | inl nobody ↦ rw nobody refl
                | inr (user, found) ↦ rw found refl
              ])
      ]

  verify_refuses :
      (users : UserFile) (token code : String) (now : ℕ) (stamp : String) (w : MfaWrite)
      (tokens : PendingTokens) (f : MfaFile) (e : MfaError)
      → (take_token token now tokens).1 ≡ err e
      → (verify users token code now stamp w (tokens, f)).1 ≡ err e
  unfolding verify_and_issue_session
  verify_refuses users token code now stamp w tokens f e bad =
      rw (verify_and_issue_session, bad) refl

  -- After an attempt to verify with a token, whatever came of it, every later attempt with that token
  -- is refused, at any time and with any code; and every other token stays as it was.
  pub mfa_token_single_use :
      (users users' : UserFile) (token code code' : String) (now later : ℕ) (stamp stamp' : String)
      (w w' : MfaWrite) (tokens : PendingTokens) (f f' : MfaFile)
      → let left =
          (verify_and_issue_session totp_validate compare_hash normalize trim users token code now
            stamp w
            (tokens, f)).0.0 in
        let second =
          (verify_and_issue_session totp_validate compare_hash normalize trim users' token code'
            later stamp' w'
            (left, f')).1 in
        ((second ≡ err token_invalid) ⊎ (second ≡ err token_used))
        × ((q : String) → str_eq token q ≡ false → lookup q left ≡ lookup q tokens)
  mfa_token_single_use users users' token code code' now later stamp stamp' w w' tokens f f' =
      let (refused, others) = take_token_twice token now later tokens in
      rw (verify_takes users token code now stamp w tokens f) (
        elim refused [
          | inl gone ↦
              inl (verify_refuses users' token code' later stamp' w' _ f' token_invalid gone)
          | inr used ↦ inr (verify_refuses users' token code' later stamp' w' _ f' token_used used)
        ],
        others,
      )
