-- ===== src/Auth/Tests.antt =====
-- internal/service/auth.go: the theorems on accounts and sessions at concrete tables.
use Prim.Native.String.{◌++◌}
use mathlib.Core.Bool.{true≢false}
use nrcc.Base.{
  ◌≤◌, ap, subst, count_if, Bool-cases, ◌≡◌, ◌≢◌, refl, inl, inr, eq_iff, String, false, some, List,
  [], ◌∷◌, ok, err, arith, str_eq,
}
use nrcc.Store.{missing, holds, written}
use nrcc.Store.Laws.{Held, current}
use nrcc.Auth.{
  already_configured, refresh_token_revoked, role_admin, CcUser, UserFile, DiskWrite, has_username,
  get_user_by_username, get_user_by_id, create_user, bootstrap_first_admin, delete_user_with_policy,
  with_role, update_user_role, Call, creates, deletes, sets_role, run,
}
use nrcc.Auth.Admins.{HasAdmin, run-HasAdmin, bootstrap_once}
use nrcc.Auth.Names.{DistinctNames, run-DistinctNames}
use nrcc.Auth.Lookup.{
  get_user_by_username-create_user, get_user_by_id-delete_user_with_policy,
  get_user_by_id-update_user_role,
}
use nrcc.Auth.Sessions.{
  RefreshSession, SessionFile, count_active_refresh_sessions, prune_sessions, revoke_user_sessions,
  new_session, create_refresh_session, validate_refresh_session, revoke_refresh_session,
}
use nrcc.Auth.Sessions.Laws.{
  validate-create_refresh_session, validate-revoke_refresh_session, validate-revoke_user_sessions,
}
use nrcc.Auth.Sessions.Prune.{prune_sessions_keeps_live}

abbrev alice : CcUser
alice = record {
  id = "1";
  username = "alice";
  password_hash = "h1";
  role = "admin";
  created_at = "t0";
  updated_at = "t0";
}

abbrev bob : CcUser
bob = record {
  id = "2";
  username = "bob";
  password_hash = "h2";
  role = "viewer";
  created_at = "t0";
  updated_at = "t0";
}

abbrev carol : CcUser
carol = record bob { id = "3"; username = "carol" }

abbrev two_users : UserFile
two_users = holds (alice ∷ bob ∷ [])

abbrev no_users : UserFile
no_users = missing

abbrev calls : List (Call × DiskWrite)
calls =
    (deletes "1", written)
    ∷ (sets_role "1" "viewer" "t1", written)
    ∷ (creates (some carol), written)
    ∷ (sets_role "2" "admin" "t2", written)
    ∷ (deletes "1", written)
    ∷ []

run-HasAdmin_example : Held [] HasAdmin (run calls two_users)
run-HasAdmin_example =
    run-HasAdmin calls two_users (tt, (inr refl, (tt, (inl refl, (tt, tt))))) (omega arith)

two_users-DistinctNames : DistinctNames (alice ∷ bob ∷ [])
two_users-DistinctNames name = elim (Bool-cases (str_eq "alice" name)) [
  | inr other ↦ rw other (ground arith)
  | inl same ↦
      subst (λ n. count_if (has_username n) (alice ∷ bob ∷ []) ≤ 1) ((eq_iff "alice" name).0 same)
        (omega arith)
]

run-DistinctNames_example : Held [] DistinctNames (run calls two_users)
run-DistinctNames_example = run-DistinctNames calls two_users two_users-DistinctNames

-- Another account, and then the only admin is to be deleted and to become a viewer.
abbrev later_calls : List (Call × DiskWrite)
later_calls =
    (creates (some carol), written)
    ∷ (deletes "2", written)
    ∷ (sets_role "2" "viewer" "t1", written)
    ∷ []

bootstrap_once_example :
    (current [] no_users ≡ ok [])
    × ((u : CcUser) × (some bob ≡ some u)
        × ((bootstrap_first_admin (some bob) written no_users).0
            ≡ holds (record u { role = role_admin } ∷ [])))
    × ((bootstrap_first_admin
          (some alice)
          written
          (run later_calls (bootstrap_first_admin (some bob) written no_users).0)).1
        ≡ err already_configured)
unfolding bootstrap_first_admin
bootstrap_once_example =
    bootstrap_once (some bob) written no_users tt later_calls (some alice) written
      (tt, (tt, (inr refl, tt))) refl

get_user_by_username-create_user_example :
    get_user_by_username (create_user (some carol) written two_users).0 "carol" ≡ some carol
unfolding create_user
get_user_by_username-create_user_example =
    get_user_by_username-create_user carol written two_users tt "carol" refl

get_user_by_id-delete_user_with_policy_example :
    (get_user_by_id two_users "2" ≡ some bob)
    × (get_user_by_id (delete_user_with_policy "2" written two_users).0 "1"
        ≡ get_user_by_id two_users "1")
unfolding delete_user_with_policy
get_user_by_id-delete_user_with_policy_example =
    get_user_by_id-delete_user_with_policy "2" written two_users bob "1" refl
      (λ h. true≢false (ap (str_eq "2") h))

get_user_by_id-update_user_role_example :
    (u : CcUser) × (get_user_by_id two_users "2" ≡ some u)
    × (with_role "admin" "t1" bob ≡ with_role "admin" "t1" u)
    × (get_user_by_id (update_user_role "2" "admin" "t1" written two_users).0 "2"
        ≡ some (with_role "admin" "t1" bob))
    × ((j : String)
        → "2" ≢ j
        → get_user_by_id (update_user_role "2" "admin" "t1" written two_users).0 j
          ≡ get_user_by_id two_users j)
unfolding update_user_role
get_user_by_id-update_user_role_example =
    get_user_by_id-update_user_role "2" "admin" "t1" written two_users (with_role "admin" "t1" bob)
      refl

abbrev digest : String → String
digest token = "#" ++ token

abbrev old_session : RefreshSession
old_session = record {
  id = "#old";
  user_id = "1";
  expires_at = 1000;
  revoked = false;
  created_at = 0;
}

abbrev sessions : SessionFile
sessions = holds (old_session ∷ [])

validate-create_refresh_session_example :
    (◌≡◌ {A = String} "new" "new")
    × (validate_refresh_session digest 604900
          (create_refresh_session digest (ok "new") "2" 100 written sessions).0
          "new"
        ≡ ok (new_session digest "new" "2" 100))
unfolding create_refresh_session
validate-create_refresh_session_example =
    validate-create_refresh_session digest "new" "2" 100 604900 written sessions "new" refl refl
      (omega arith)

validate-revoke_refresh_session_example :
    validate_refresh_session digest 5 (revoke_refresh_session digest "old" written sessions).0 "old"
    ≡ err refresh_token_revoked
unfolding revoke_refresh_session
validate-revoke_refresh_session_example =
    validate-revoke_refresh_session digest "old" 5 written sessions tt refl

abbrev two_sessions : SessionFile
two_sessions = holds (old_session ∷ new_session digest "new" "2" 100 ∷ [])

validate-revoke_user_sessions_example : ◌≢◌ {A = String} "2" "1"
unfolding revoke_user_sessions validate_refresh_session
validate-revoke_user_sessions_example =
    validate-revoke_user_sessions digest "1" "new" 200 written two_sessions tt
      (new_session digest "new" "2" 100) refl refl

prune_sessions_keeps_live_example :
    ((token : String) (s : RefreshSession)
      → validate_refresh_session digest 90000 two_sessions token ≡ ok s
      → validate_refresh_session digest 90000 (prune_sessions 90000 written two_sessions).0 token
        ≡ ok s)
    × (count_active_refresh_sessions 90000 (prune_sessions 90000 written two_sessions).0
        ≡ count_active_refresh_sessions 90000 two_sessions)
prune_sessions_keeps_live_example =
    prune_sessions_keeps_live digest 90000 90000 written two_sessions (omega arith)
