-- ===== src/Auth/Names.antt =====
-- internal/service/auth.go: user names stay distinct, and the table reads back what was written.
use nrcc.Base.{
  ◌≤◌, ◌≡◌, refl, inl, inr, String, Bool, true, none, some, Option, List, [], ◌∷◌, ok, arith,
  Option-cases, find?, count_if, count_if-append, count_if-remove_first, count_if-update_first,
  eq_iff,
}
use nrcc.Store.Laws.{Held, update-Held}
use nrcc.Auth.{
  CcUser, UserFile, DiskWrite, Call, creates, bootstraps, deletes, sets_role, has_id, has_username,
  with_role, create_user_in, bootstrap_in, delete_user_in, update_role_in, create_user,
  bootstrap_first_admin, delete_user_with_policy, update_user_role, step, run,
}

abbrev pub DistinctNames : List CcUser → Type 0
DistinctNames users = (name : String) → count_if (has_username name) users ≤ 1

count_if_of_find?-none :
    (p : CcUser → Bool) (users : List CcUser) → find? p users ≡ none → count_if p users ≡ 0
count_if_of_find?-none p [] h = refl
count_if_of_find?-none p (u ∷ users) h = ground (arith, count_if_of_find?-none p users)

create_user_in-DistinctNames :
    (user : CcUser) (users : List CcUser) (x : Unit {0}) (users' : List CcUser)
    → DistinctNames users
    → create_user_in user users ≡ ok (x, users')
    → DistinctNames users'
unfolding create_user_in
create_user_in-DistinctNames user users x users' h e name = ground (
  arith,
  h name,
  count_if-append (has_username name) users (user ∷ []),
  count_if_of_find?-none (has_username name) users,
  eq_iff user.username name,
)

bootstrap_in-DistinctNames :
    (user : Option CcUser) (users : List CcUser) (x : Unit {0}) (users' : List CcUser)
    → DistinctNames users
    → bootstrap_in user users ≡ ok (x, users')
    → DistinctNames users'
unfolding bootstrap_in
bootstrap_in-DistinctNames none [] x users' h e name = cc
bootstrap_in-DistinctNames (some u) [] x users' h e name = ground arith
bootstrap_in-DistinctNames user (u ∷ users) x users' h e name = cc

delete_user_in-DistinctNames :
    (id : String) (preserve : Bool) (users : List CcUser) (x : CcUser) (users' : List CcUser)
    → DistinctNames users
    → delete_user_in id preserve users ≡ ok (x, users')
    → DistinctNames users'
unfolding delete_user_in
delete_user_in-DistinctNames id preserve users x users' h e name =
    elim (Option-cases (find? (has_id id) users)) [
      | inl absent ↦ ground arith
      | inr (u, found) ↦
          ground
            (arith, h name, count_if-remove_first (has_id id) (has_username name) users u found)
    ]

update_role_in-DistinctNames :
    (id role updated_at : String) (users : List CcUser) (x : CcUser) (users' : List CcUser)
    → DistinctNames users
    → update_role_in id role updated_at users ≡ ok (x, users')
    → DistinctNames users'
unfolding update_role_in
update_role_in-DistinctNames id role updated_at users x users' h e name =
    elim (Option-cases (find? (has_id id) users)) [
      | inl absent ↦ ground arith
      | inr (u, found) ↦ ground (
        arith,
        h name,
        count_if-update_first (has_id id) (has_username name) (with_role role updated_at) users u
            found,
      )
    ]

step-DistinctNames :
    (c : Call × DiskWrite) (f : UserFile)
    → Held [] DistinctNames f
    → Held [] DistinctNames (step c f)
unfolding step create_user bootstrap_first_admin delete_user_with_policy update_user_role
step-DistinctNames (creates none, w) f h = h
step-DistinctNames (creates (some user), w) f h =
    update-Held [] DistinctNames w (create_user_in user) f (create_user_in-DistinctNames user) h
step-DistinctNames (bootstraps user, w) f h =
    update-Held [] DistinctNames w (bootstrap_in user) f (bootstrap_in-DistinctNames user) h
step-DistinctNames (deletes id, w) f h =
    update-Held [] DistinctNames w (delete_user_in id true) f (delete_user_in-DistinctNames id true)
      h
step-DistinctNames (sets_role id role updated_at, w) f h =
    update-Held [] DistinctNames w (update_role_in id role updated_at) f
      (update_role_in-DistinctNames id role updated_at) h

-- From a table of distinct user names, no sequence of creations, bootstraps, guarded deletions and
-- changes of role, whatever write fails on the way, gives two accounts one user name.
pub run-DistinctNames :
    (cs : List (Call × DiskWrite)) (f : UserFile)
    → Held [] DistinctNames f
    → Held [] DistinctNames (run cs f)
unfolding run
run-DistinctNames [] f h = h
run-DistinctNames (c ∷ cs) f h = run-DistinctNames cs (step c f) (step-DistinctNames c f h)
