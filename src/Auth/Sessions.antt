-- ===== src/Auth/Sessions.antt =====
-- internal/service/auth.go, the refresh sessions kept in refresh_sessions.json. Times are seconds
-- since 1970; the digest of a token (SHA-256 in hex) is a parameter.
pub mod Laws
pub mod Prune
use nrcc.Base.{
  ℕ, ◌+◌, ◌-◌, ◌*◌, String, Bool, true, false, not, ◌&&◌, ◌||◌, Option, none, some, List, [], ◌∷◌,
  ◌++◌, map, Result, ok, err, ltb, leb, if◌then◌else◌, ◌>>=◌, find?, count_if, keep_if,
  update_first, str_eq,
}
use nrcc.Store.{File, Write, read, update}
use nrcc.Auth.{
  AuthError, DiskWrite, refresh_token_revoked, refresh_token_expired, refresh_token_not_found,
  not_exist,
}

pub record RefreshSession : Type 0 where
  pub id : String
  pub user_id : String
  pub expires_at : ℕ
  pub revoked : Bool
  pub created_at : ℕ

abbrev pub SessionFile : Type 0
SessionFile = File AuthError (List RefreshSession)

-- `RefreshTokenLifetime`, seven days.
abbrev pub refresh_token_lifetime : ℕ
refresh_token_lifetime = 7 * 24 * 3600

abbrev pub day : ℕ
day = 24 * 3600

abbrev pub has_session_id : String → RefreshSession → Bool
has_session_id id s = str_eq s.id id

abbrev pub of_user : String → RefreshSession → Bool
of_user user_id s = str_eq s.user_id user_id

abbrev pub revoked_now : RefreshSession → RefreshSession
revoked_now s = record s { revoked = true }

abbrev pub revoked_if : (RefreshSession → Bool) → RefreshSession → RefreshSession
revoked_if test s = if test s then revoked_now s else s

-- The loop of `CountActiveRefreshSessions`: not revoked, and the expiry lies ahead.
abbrev pub is_active : ℕ → RefreshSession → Bool
is_active now s = not s.revoked && not (leb s.expires_at now)

unfoldable pub count_active_refresh_sessions : ℕ → SessionFile → ℕ
unfolding read
count_active_refresh_sessions now f = elim (read not_exist f) [
  | err e ↦ 0
  | ok sessions ↦ count_if (is_active now) sessions
]

-- What the loop of `ValidateRefreshSession` answers about the session that it finds.
abbrev pub judge : ℕ → Option RefreshSession → Result AuthError RefreshSession
judge now none = err refresh_token_not_found
judge now (some s) =
    if s.revoked
    then err refresh_token_revoked
    else if ltb s.expires_at now
    then err refresh_token_expired
    else ok s

-- `now` is in the past of the cutoff, 24 hours; a session is dropped when it expired before that,
-- revoked or not.
abbrev pub is_dropped : ℕ → RefreshSession → Bool
is_dropped now s =
    (s.revoked && ltb s.expires_at (now - day))
    || (not s.revoked && ltb s.expires_at now && ltb s.expires_at (now - day))

-- The callback of `PruneSessions`.
unfoldable pub prune_in : ℕ → List RefreshSession → List RefreshSession
prune_in now sessions = keep_if (λ s. not (is_dropped now s)) sessions

unfoldable pub prune_sessions :
    ℕ → DiskWrite → SessionFile → SessionFile × Result AuthError (Unit {0})
unfolding update
prune_sessions now w f = update [] w (λ sessions. ok (tt, prune_in now sessions)) f

-- The callback of `RevokeUserSessions`.
revoke_user_in : String → List RefreshSession → Result AuthError (Unit {0} × List RefreshSession)
revoke_user_in user_id sessions = ok (tt, map (revoked_if (of_user user_id)) sessions)

unfoldable pub revoke_user_sessions :
    String → DiskWrite → SessionFile → SessionFile × Result AuthError (Unit {0})
unfolding revoke_user_in update
revoke_user_sessions user_id w f = update [] w (revoke_user_in user_id) f

module _ (hash_refresh_token : String → String) where
  abbrev pub new_session : String → String → ℕ → RefreshSession
  new_session token user_id now = record {
    id = hash_refresh_token token;
    user_id = user_id;
    expires_at = now + refresh_token_lifetime;
    revoked = false;
    created_at = now;
  }

  -- `CreateRefreshSession`; the token, or the failure, is what the random source gave.
  unfoldable pub create_refresh_session :
      Result AuthError String
      → String
      → ℕ
      → DiskWrite
      → SessionFile
      → SessionFile × Result AuthError String
  unfolding update
  create_refresh_session (err e) user_id now w f = (f, err e)
  create_refresh_session (ok token) user_id now w f =
      update [] w (λ sessions. ok (token, sessions ++ new_session token user_id now ∷ [])) f

  -- `ValidateRefreshSession`
  unfoldable pub validate_refresh_session :
      ℕ → SessionFile → String → Result AuthError RefreshSession
  unfolding read
  validate_refresh_session now f token = read not_exist f >>= λ sessions.
      judge now (find? (has_session_id (hash_refresh_token token)) sessions)

  -- The callback of `RevokeRefreshSession`.
  revoke_in : String → List RefreshSession → Result AuthError (Unit {0} × List RefreshSession)
  revoke_in token sessions = elim (find? (has_session_id (hash_refresh_token token)) sessions) [
    | none ↦ err refresh_token_not_found
    | some s ↦
        ok (tt, update_first (has_session_id (hash_refresh_token token)) revoked_now sessions)
  ]

  unfoldable pub revoke_refresh_session :
      String → DiskWrite → SessionFile → SessionFile × Result AuthError (Unit {0})
  unfolding revoke_in update
  revoke_refresh_session token w f = update [] w (revoke_in token) f
