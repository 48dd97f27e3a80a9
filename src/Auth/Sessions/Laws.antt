-- ===== src/Auth/Sessions/Laws.antt =====
-- internal/service/auth.go: a session is good from its creation to its expiry or revocation.
use nrcc.Base.{
  ℕ, ◌+◌, ◌≤◌, ◌≡◌, ◌≢◌, inl, inr, String, Bool, none, List, [], ◌∷◌, map, Result, ok, err, ◌>>=◌,
  arith, Option-cases, find?, find?-append, find?_passes, find?-update_first_self, eq_iff, eq_refl,
}
use nrcc.Store.{missing, unreadable, holds, written, fails, publish}
use nrcc.Store.Laws.{Held, current, update_ok}
use nrcc.Auth.{AuthError, DiskWrite, refresh_token_revoked}
use nrcc.Auth.Sessions.{
  RefreshSession, SessionFile, refresh_token_lifetime, has_session_id, of_user, revoked_now,
  revoked_if, judge, revoke_user_in, revoke_user_sessions, new_session, create_refresh_session,
  validate_refresh_session, revoke_in, revoke_refresh_session,
}

module _ (hash_refresh_token : String → String) where
  -- A token whose digest no stored session bears validates from its creation, by whatever clock
  -- reading up to seven days later, to the session that was made for its user.
  pub validate-create_refresh_session :
      (token user_id : String) (now later : ℕ) (w : DiskWrite) (f : SessionFile) (x : String)
      → Held [] (λ s. find? (has_session_id (hash_refresh_token token)) s ≡ none) f
      → (create_refresh_session hash_refresh_token (ok token) user_id now w f).1 ≡ ok x
      → later ≤ now + refresh_token_lifetime
      → (x ≡ token)
        × (validate_refresh_session hash_refresh_token later
              (create_refresh_session hash_refresh_token (ok token) user_id now w f).0
              token
            ≡ ok (new_session hash_refresh_token token user_id now))
  unfolding validate_refresh_session create_refresh_session publish
  validate-create_refresh_session token user_id now later written missing x fresh h soon =
      (cc, ground (arith, eq_refl (hash_refresh_token token)))
  validate-create_refresh_session token user_id now later written (holds t) x fresh h soon = (
    cc,
    ground (
      arith,
      find?-append (has_session_id (hash_refresh_token token)) t
          (new_session hash_refresh_token token user_id now),
      eq_refl (hash_refresh_token token),
    ),
  )
  validate-create_refresh_session token user_id now later written (unreadable e) x fresh h soon = cc
  validate-create_refresh_session token user_id now later (fails e') missing x fresh h soon = cc
  validate-create_refresh_session token user_id now later (fails e') (holds t) x fresh h soon = cc
  validate-create_refresh_session token user_id now later (fails e') (unreadable e) x fresh h soon =
      cc

  revoked_in :
      (token : String) (now : ℕ) (c : Result AuthError (List RefreshSession)) (x : Unit {0})
      (t : List RefreshSession)
      → (c >>= revoke_in hash_refresh_token token) ≡ ok (x, t)
      → judge now (find? (has_session_id (hash_refresh_token token)) t) ≡ err refresh_token_revoked
  unfolding revoke_in
  revoked_in token now (err e) x t h = cc
  revoked_in token now (ok sessions) x t h =
      let p = has_session_id (hash_refresh_token token) in
      elim (Option-cases (find? p sessions)) [
        | inl absent ↦ absurd (ground arith)
        | inr (s, found) ↦ ground (
          arith,
          find?_passes p sessions s found,
          find?-update_first_self p revoked_now sessions s found,
        )
      ]

  -- A token that was revoked is refused as revoked, at any time.
  pub validate-revoke_refresh_session :
      (token : String) (now : ℕ) (w : DiskWrite) (f : SessionFile) (x : Unit {0})
      → (revoke_refresh_session hash_refresh_token token w f).1 ≡ ok x
      → validate_refresh_session hash_refresh_token now
          (revoke_refresh_session hash_refresh_token token w f).0
          token
        ≡ err refresh_token_revoked
  unfolding revoke_refresh_session validate_refresh_session
  validate-revoke_refresh_session token now w f x h =
      let (t, ran, kept) = update_ok [] w (revoke_in hash_refresh_token token) f x h in
      rw kept (revoked_in token now (current [] f) x t ran)

  judged :
      (test : RefreshSession → Bool) (user_id : String) (now : ℕ) (sessions : List RefreshSession)
      (s : RefreshSession)
      → judge now (find? test (map (revoked_if (of_user user_id)) sessions)) ≡ ok s
      → s.user_id ≢ user_id
  judged test user_id now [] s h = cc
  judged test user_id now (t ∷ ts) s h =
      ground (arith, judged test user_id now ts s, eq_iff t.user_id user_id)

  revoked_all :
      (test : RefreshSession → Bool) (user_id : String) (now : ℕ)
      (c : Result AuthError (List RefreshSession)) (x : Unit {0}) (t : List RefreshSession)
      (s : RefreshSession)
      → (c >>= revoke_user_in user_id) ≡ ok (x, t)
      → judge now (find? test t) ≡ ok s
      → s.user_id ≢ user_id
  unfolding revoke_user_in
  revoked_all test user_id now (err e) x t s ran h = cc
  revoked_all test user_id now (ok sessions) x t s ran h =
      judged test user_id now sessions s (ground arith)

  -- Once all sessions of a user were revoked, no token at any time validates to a session of
  -- that user.
  pub validate-revoke_user_sessions :
      (user_id token : String) (now : ℕ) (w : DiskWrite) (f : SessionFile) (x : Unit {0})
      (s : RefreshSession)
      → (revoke_user_sessions user_id w f).1 ≡ ok x
      → validate_refresh_session hash_refresh_token now (revoke_user_sessions user_id w f).0 token
        ≡ ok s
      → s.user_id ≢ user_id
  unfolding revoke_user_sessions validate_refresh_session
  validate-revoke_user_sessions user_id token now w f x s h valid =
      let (t, ran, kept) = update_ok [] w (revoke_user_in user_id) f x h in
      revoked_all (has_session_id (hash_refresh_token token)) user_id now (current [] f) x t s ran
        (rw kept at valid)
