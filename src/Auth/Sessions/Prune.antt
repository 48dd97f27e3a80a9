-- ===== src/Auth/Sessions/Prune.antt =====
-- internal/service/auth.go: pruning is invisible to the holders of live sessions.
use nrcc.Base.{ℕ, ◌≤◌, ◌≡◌, refl, String, Bool, List, [], ◌∷◌, ok, arith, find?, count_if}
use nrcc.Store.{missing, unreadable, holds, written, fails, publish}
use nrcc.Auth.{DiskWrite}
use nrcc.Auth.Sessions.{
  RefreshSession, SessionFile, has_session_id, is_active, judge, prune_in, prune_sessions,
  count_active_refresh_sessions, validate_refresh_session,
}

judge-prune_in :
    (test : RefreshSession → Bool) (now later : ℕ) (sessions : List RefreshSession)
    (s : RefreshSession)
    → now ≤ later
    → judge later (find? test sessions) ≡ ok s
    → judge later (find? test (prune_in now sessions)) ≡ ok s
unfolding prune_in
judge-prune_in test now later [] s le h = cc
judge-prune_in test now later (t ∷ ts) s le h = ground (arith, judge-prune_in test now later ts s)

count_active-prune_in :
    (now later : ℕ) (sessions : List RefreshSession)
    → now ≤ later
    → count_if (is_active later) (prune_in now sessions) ≡ count_if (is_active later) sessions
unfolding prune_in
count_active-prune_in now later [] le = refl
count_active-prune_in now later (t ∷ ts) le = ground (arith, count_active-prune_in now later ts)

-- Pruning, whether its write succeeds or not, drops no session that a token would validate to at
-- that time or later, and changes no later count of the active sessions.
pub prune_sessions_keeps_live :
    (hash_refresh_token : String → String) (now later : ℕ) (w : DiskWrite) (f : SessionFile)
    → now ≤ later
    → ((token : String) (s : RefreshSession)
        → validate_refresh_session hash_refresh_token later f token ≡ ok s
        → validate_refresh_session hash_refresh_token later (prune_sessions now w f).0 token ≡ ok s)
      × (count_active_refresh_sessions later (prune_sessions now w f).0
          ≡ count_active_refresh_sessions later f)
unfolding prune_sessions validate_refresh_session count_active_refresh_sessions publish prune_in
prune_sessions_keeps_live hash now later written missing le = (λ token s h. cc, refl)
prune_sessions_keeps_live hash now later (fails e) missing le = (λ token s h. h, refl)
prune_sessions_keeps_live hash now later w (unreadable e) le = (λ token s h. h, refl)
prune_sessions_keeps_live hash now later written (holds t) le = (
  λ token s h. judge-prune_in (has_session_id (hash token)) now later t s le h,
  count_active-prune_in now later t le,
)
prune_sessions_keeps_live hash now later (fails e) (holds t) le = (λ token s h. h, refl)
