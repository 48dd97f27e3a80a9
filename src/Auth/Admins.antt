-- ===== src/Auth/Admins.antt =====
-- internal/service/auth.go: the table never loses its last admin.
use nrcc.Base.{
  ◌<◌, ◌≡◌, refl, ◌⊎◌, inl, inr, String, true, none, some, Option, List, [], ◌∷◌, ok, err, Result,
  ◌>>=◌, ap, arith, Option-cases, find?, count_if-append, count_if-remove_first,
  count_if-update_first, eq_iff, eq_refl, subst, ◌∙◌,
}
use nrcc.Store.{holds, publish}
use nrcc.Store.Laws.{Held, current, update-Held, update_ok, update_holds}
use nrcc.Auth.{
  CcUser, UserFile, AuthError, DiskWrite, already_configured, Call, creates, bootstraps, deletes,
  sets_role, role_admin, role_viewer, has_id, is_admin, with_role, count_admin_users,
  create_user_in, bootstrap_in, delete_user_in, update_role_in, create_user, bootstrap_first_admin,
  delete_user_with_policy, update_user_role, step, run,
}

abbrev pub HasAdmin : List CcUser → Type 0
HasAdmin users = 0 < count_admin_users users

create_user_in-HasAdmin :
    (user : CcUser) (users : List CcUser) (x : Unit {0}) (users' : List CcUser)
    → HasAdmin users
    → create_user_in user users ≡ ok (x, users')
    → HasAdmin users'
unfolding create_user_in
create_user_in-HasAdmin user users x users' h e =
    ground (arith, count_if-append is_admin users (user ∷ []))

bootstrap_in-HasAdmin :
    (user : Option CcUser) (users : List CcUser) (x : Unit {0}) (users' : List CcUser)
    → HasAdmin users
    → bootstrap_in user users ≡ ok (x, users')
    → HasAdmin users'
unfolding bootstrap_in
bootstrap_in-HasAdmin user [] x users' h e = absurd (omega arith)
bootstrap_in-HasAdmin user (u ∷ users) x users' h e = cc

delete_user_in-HasAdmin :
    (id : String) (users : List CcUser) (x : CcUser) (users' : List CcUser)
    → HasAdmin users
    → delete_user_in id true users ≡ ok (x, users')
    → HasAdmin users'
unfolding delete_user_in
delete_user_in-HasAdmin id users x users' h e = elim (Option-cases (find? (has_id id) users)) [
  | inl missing ↦ ground arith
  | inr (u, found) ↦ ground (arith, count_if-remove_first (has_id id) is_admin users u found)
]

update_role_in-HasAdmin :
    (id role updated_at : String) (users : List CcUser) (x : CcUser) (users' : List CcUser)
    → (role ≡ role_admin) ⊎ (role ≡ role_viewer)
    → HasAdmin users
    → update_role_in id role updated_at users ≡ ok (x, users')
    → HasAdmin users'
unfolding update_role_in
update_role_in-HasAdmin id role updated_at users x users' named h e =
    elim (Option-cases (find? (has_id id) users)) [
      | inl missing ↦ ground arith
      | inr (u, found) ↦ ground (
        arith,
        count_if-update_first (has_id id) is_admin (with_role role updated_at) users u found,
        eq_iff role role_admin,
        eq_iff role role_viewer,
      )
    ]

-- The handlers let only the two named roles through to `UpdateUserRole`.
abbrev pub NamesRole : Call → Type 0
NamesRole (sets_role id role updated_at) = (role ≡ role_admin) ⊎ (role ≡ role_viewer)
NamesRole _ = Unit

abbrev pub AllNameRoles : List (Call × DiskWrite) → Type 0
AllNameRoles [] = Unit
AllNameRoles (c ∷ cs) = NamesRole c.0 × AllNameRoles cs

step-HasAdmin :
    (c : Call) (w : DiskWrite) (f : UserFile)
    → NamesRole c
    → Held [] HasAdmin f
    → Held [] HasAdmin (step (c, w) f)
unfolding step create_user bootstrap_first_admin delete_user_with_policy update_user_role
step-HasAdmin (creates none) w f n h = h
step-HasAdmin (creates (some user)) w f n h =
    update-Held [] HasAdmin w (create_user_in user) f (create_user_in-HasAdmin user) h
step-HasAdmin (bootstraps user) w f n h =
    update-Held [] HasAdmin w (bootstrap_in user) f (bootstrap_in-HasAdmin user) h
step-HasAdmin (deletes id) w f n h =
    update-Held [] HasAdmin w (delete_user_in id true) f (delete_user_in-HasAdmin id) h
step-HasAdmin (sets_role id role updated_at) w f n h =
    update-Held [] HasAdmin w (update_role_in id role updated_at) f
      (λ t x t' p e. update_role_in-HasAdmin id role updated_at t x t' n p e) h

-- Starting from a readable table with an admin, no sequence of creations, bootstraps, guarded
-- deletions and changes to one of the two roles, whatever write fails on the way, leaves a table
-- without an admin.
pub run-HasAdmin :
    (cs : List (Call × DiskWrite)) (f : UserFile)
    → AllNameRoles cs
    → Held [] HasAdmin f
    → Held [] HasAdmin (run cs f)
unfolding run
run-HasAdmin [] f n h = h
run-HasAdmin ((c, w) ∷ cs) f n h = run-HasAdmin cs (step (c, w) f) n.1 (step-HasAdmin c w f n.0 h)

bootstrapped :
    (user : Option CcUser) (c : Result AuthError (List CcUser)) (x : Unit {0}) (t : List CcUser)
    → (c >>= bootstrap_in user) ≡ ok (x, t)
    → (c ≡ ok []) × ((u : CcUser) × (user ≡ some u) × (t ≡ record u { role = role_admin } ∷ []))
unfolding bootstrap_in
bootstrapped user (err e) x t h = cc
bootstrapped none (ok []) x t h = cc
bootstrapped (some u) (ok []) x t h = (refl, (u, refl, ground arith))
bootstrapped user (ok (u ∷ us)) x t h = cc

bootstrap_in_configured :
    (user : Option CcUser) (u : CcUser) (us : List CcUser) (w : DiskWrite)
    → (bootstrap_first_admin user w (holds (u ∷ us))).1 ≡ err already_configured
unfolding bootstrap_first_admin publish
bootstrap_in_configured user u us w = refl

step_holds :
    (c : Call) (w : DiskWrite) (users : List CcUser)
    → (users' : List CcUser) × (step (c, w) (holds users) ≡ holds users')
unfolding step create_user bootstrap_first_admin delete_user_with_policy update_user_role
step_holds (creates none) w users = (users, refl)
step_holds (creates (some user)) w users = update_holds [] w (create_user_in user) users
step_holds (bootstraps user) w users = update_holds [] w (bootstrap_in user) users
step_holds (deletes id) w users = update_holds [] w (delete_user_in id true) users
step_holds (sets_role id role updated_at) w users =
    update_holds [] w (update_role_in id role updated_at) users

run_holds :
    (cs : List (Call × DiskWrite)) (users : List CcUser)
    → (users' : List CcUser) × (run cs (holds users) ≡ holds users')
unfolding run
run_holds [] users = (users, refl)
run_holds ((c, w) ∷ cs) users =
    let (between, e) = step_holds c w users in
    let (after, e') = run_holds cs between in (after, ap (run cs) e ∙ e')

refused_with_admin :
    (user : Option CcUser) (users : List CcUser) (w : DiskWrite)
    → HasAdmin users
    → (bootstrap_first_admin user w (holds users)).1 ≡ err already_configured
refused_with_admin user [] w h = absurd (omega arith)
refused_with_admin user (u ∷ us) w h = bootstrap_in_configured user u us w

-- A bootstrap that succeeds found no account and stores exactly the given one as an admin. After it, and
-- after any creations, bootstraps, guarded deletions and changes to one of the two roles that follow,
-- whatever writes fail on the way, a bootstrap is refused as already configured.
pub bootstrap_once :
    (user : Option CcUser) (w : DiskWrite) (f : UserFile) (x : Unit {0})
    (cs : List (Call × DiskWrite)) (other : Option CcUser) (w' : DiskWrite)
    → AllNameRoles cs
    → (bootstrap_first_admin user w f).1 ≡ ok x
    → (current [] f ≡ ok [])
      × ((u : CcUser) × (user ≡ some u)
          × ((bootstrap_first_admin user w f).0 ≡ holds (record u { role = role_admin } ∷ [])))
      × ((bootstrap_first_admin other w' (run cs (bootstrap_first_admin user w f).0)).1
          ≡ err already_configured)
unfolding bootstrap_first_admin
bootstrap_once user w f x cs other w' named h =
    let (t, ran, kept) = update_ok [] w (bootstrap_in user) f x h in
    let (empty, made) = bootstrapped user (current [] f) x t ran in
    let (u, given, only) = made in
    let first : List CcUser = record u { role = role_admin } ∷ [] in
    let stored : (bootstrap_first_admin user w f).0 ≡ holds first = kept ∙ ap holds only in
    let (users, ended) = run_holds cs first in
    let admin : HasAdmin users =
      subst (Held [] HasAdmin) ended
        (run-HasAdmin cs (holds first) named (ground (arith, eq_refl role_admin))) in
    let there : run cs (bootstrap_first_admin user w f).0 ≡ holds users =
      ap (run cs) stored ∙ ended in
    (
      empty,
      (u, given, stored),
      ap (λ g. (bootstrap_first_admin other w' g).1) there
          ∙ refused_with_admin other users w' admin,
    )
