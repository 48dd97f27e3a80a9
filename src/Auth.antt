-- ===== src/Auth.antt =====
-- internal/service/auth.go, the user table: accounts, roles and the guards that keep one admin.
-- The table is the JSON store cc-users.json; each call gets what the disk does with its write.
pub mod Admins
pub mod Names
pub mod Lookup
pub mod Sessions
pub mod Tests
use nrcc.Base.{
  ℕ, String, Bool, true, false, ◌&&◌, ◌||◌, Option, none, some, List, [], ◌∷◌, ◌++◌, Result, ok,
  err, leb, if◌then◌else◌, ◌>>=◌, find?, count_if, remove_first, update_first, str_eq,
}
use nrcc.Store.{File, Write, read, update}

pub data AuthError : Type 0 where
  already_configured username_exists user_not_found : AuthError
  cannot_delete_last_admin cannot_demote_last_admin invalid_user nil_mutation : AuthError
  refresh_token_revoked refresh_token_expired refresh_token_not_found : AuthError
  not_exist : AuthError
  io : String → AuthError

-- `UserRole` is a string with two named values.
abbrev pub role_admin : String
role_admin = "admin"

abbrev pub role_viewer : String
role_viewer = "viewer"

pub record CcUser : Type 0 where
  pub id : String
  pub username : String
  pub password_hash : String
  pub role : String
  pub created_at : String
  pub updated_at : String

abbrev pub UserFile : Type 0
UserFile = File AuthError (List CcUser)

abbrev pub DiskWrite : Type 0
DiskWrite = Write AuthError

abbrev pub has_id : String → CcUser → Bool
has_id id u = str_eq u.id id

abbrev pub has_username : String → CcUser → Bool
has_username name u = str_eq u.username name

abbrev pub is_admin : CcUser → Bool
is_admin u = str_eq u.role role_admin

abbrev pub count_admin_users : List CcUser → ℕ
count_admin_users = count_if is_admin

-- `GetAllUsers`
unfoldable pub get_all_users : UserFile → Result AuthError (List CcUser)
unfolding read
get_all_users f = read not_exist f

abbrev found_in : (CcUser → Bool) → Result AuthError (List CcUser) → Option CcUser
found_in test (err e) = none
found_in test (ok users) = find? test users

-- `GetUserByUsername`
unfoldable pub get_user_by_username : UserFile → String → Option CcUser
unfolding get_all_users
get_user_by_username f name = found_in (has_username name) (get_all_users f)

-- `GetUserByID`
unfoldable pub get_user_by_id : UserFile → String → Option CcUser
unfolding get_all_users
get_user_by_id f id = found_in (has_id id) (get_all_users f)

-- `CountAdmins`: an unreadable table counts as none.
unfoldable pub count_admins : UserFile → ℕ
unfolding get_all_users
count_admins f = elim (get_all_users f) [ ok users ↦ count_admin_users users | err e ↦ 0 ]

-- The callback of `CreateUser`.
create_user_in : CcUser → List CcUser → Result AuthError (Unit {0} × List CcUser)
create_user_in user users = elim (find? (has_username user.username) users) [
  | some current ↦ err username_exists
  | none ↦ ok (tt, users ++ user ∷ [])
]

unfoldable pub create_user :
    Option CcUser → DiskWrite → UserFile → UserFile × Result AuthError (Unit {0})
unfolding create_user_in update
create_user none w f = (f, err invalid_user)
create_user (some user) w f = update [] w (create_user_in user) f

abbrev is_incomplete : CcUser → Bool
is_incomplete u = str_eq u.id "" || str_eq u.username "" || str_eq u.password_hash ""

-- The callback of `BootstrapFirstAdmin`: the table must be empty, and the role is forced.
bootstrap_in : Option CcUser → List CcUser → Result AuthError (Unit {0} × List CcUser)
bootstrap_in user (u ∷ us) = err already_configured
bootstrap_in none [] = err invalid_user
bootstrap_in (some user) [] =
    if is_incomplete user then err invalid_user else ok (tt, record user { role = role_admin } ∷ [])

unfoldable pub bootstrap_first_admin :
    Option CcUser → DiskWrite → UserFile → UserFile × Result AuthError (Unit {0})
unfolding bootstrap_in update
bootstrap_first_admin user w f = update [] w (bootstrap_in user) f

-- The callback of `UpdateUser`: the first user with the id is mutated in place.
mutate_first :
    String
    → (CcUser → Result AuthError CcUser)
    → List CcUser
    → Result AuthError (Unit {0} × List CcUser)
mutate_first id mutate [] = err user_not_found
mutate_first id mutate (u ∷ us) =
    let rest = mutate_first id mutate us in
    if has_id id u then (mutate u >>= λ v. ok (tt, v ∷ us)) else (rest >>= λ r. ok (tt, u ∷ r.1))

unfoldable pub update_user :
    String
    → Option (CcUser → Result AuthError CcUser)
    → DiskWrite
    → UserFile
    → UserFile × Result AuthError (Unit {0})
unfolding mutate_first update
update_user id none w f = (f, err nil_mutation)
update_user id (some mutate) w f = update [] w (mutate_first id mutate) f

-- The callback of `deleteUser`; the deleted user is what it leaves behind.
delete_user_in : String → Bool → List CcUser → Result AuthError (CcUser × List CcUser)
delete_user_in id preserve_last_admin users = elim (find? (has_id id) users) [
  | none ↦ err user_not_found
  | some u ↦
      if preserve_last_admin && is_admin u && leb (count_admin_users users) 1
      then err cannot_delete_last_admin
      else ok (u, remove_first (has_id id) users)
]

-- `DeleteUser`
unfoldable pub delete_user : String → DiskWrite → UserFile → UserFile × Result AuthError CcUser
unfolding delete_user_in update
delete_user id w f = update [] w (delete_user_in id false) f

-- `DeleteUserWithPolicy`
unfoldable pub delete_user_with_policy :
    String → DiskWrite → UserFile → UserFile × Result AuthError CcUser
unfolding delete_user_in update
delete_user_with_policy id w f = update [] w (delete_user_in id true) f

abbrev with_role : String → String → CcUser → CcUser
with_role role updated_at u = record u { role = role; updated_at = updated_at }

-- The callback of `UpdateUserRole`.
update_role_in : String → String → String → List CcUser → Result AuthError (CcUser × List CcUser)
update_role_in id role updated_at users = elim (find? (has_id id) users) [
  | none ↦ err user_not_found
  | some u ↦
      if str_eq role role_viewer && is_admin u && leb (count_admin_users users) 1
      then err cannot_demote_last_admin
      else ok
          (with_role role updated_at u, update_first (has_id id) (with_role role updated_at) users)
]

unfoldable pub update_user_role :
    String → String → String → DiskWrite → UserFile → UserFile × Result AuthError CcUser
unfolding update_role_in update
update_user_role id role updated_at w f = update [] w (update_role_in id role updated_at) f

-- The calls that change the table.
pub data Call : Type 0 where
  creates bootstraps : Option CcUser → Call
  deletes : String → Call
  sets_role : String → String → String → Call

unfoldable pub step : Call × DiskWrite → UserFile → UserFile
unfolding create_user bootstrap_first_admin delete_user_with_policy update_user_role
step (creates u, w) f = (create_user u w f).0
step (bootstraps u, w) f = (bootstrap_first_admin u w f).0
step (deletes id, w) f = (delete_user_with_policy id w f).0
step (sets_role id role updated_at, w) f = (update_user_role id role updated_at w f).0

unfoldable pub run : List (Call × DiskWrite) → UserFile → UserFile
run [] f = f
run (c ∷ cs) f = run cs (step c f)
