-- ===== src/Auth/Lookup.antt =====
-- internal/service/auth.go: what the readers of the table see after each change.
use nrcc.Base.{
  ◌≡◌, ◌≢◌, refl, inl, inr, ◌∙◌, String, Bool, true, none, some, Option, List, [], Result, ok, err,
  ◌>>=◌, arith, if◌then◌else◌, Option-cases, find?, find?-append, find?-remove_first,
  find?-update_first, find?-update_first_self, find?_passes, str_eq, eq_iff,
}
use nrcc.Store.{missing, unreadable, holds}
use nrcc.Store.Laws.{current, update_ok}
use nrcc.Auth.{
  CcUser, UserFile, AuthError, DiskWrite, has_id, has_username, with_role, create_user_in,
  delete_user_in, update_role_in, create_user, delete_user_with_policy, update_user_role,
  get_user_by_username, get_user_by_id,
}

found_in : (CcUser → Bool) → Result AuthError (List CcUser) → Option CcUser
found_in test (err e) = none
found_in test (ok users) = find? test users

get_user_by_username_lem :
    (f : UserFile) (name : String)
    → get_user_by_username f name ≡ found_in (has_username name) (current [] f)
unfolding get_user_by_username found_in
get_user_by_username_lem missing name = refl
get_user_by_username_lem (unreadable e) name = refl
get_user_by_username_lem (holds users) name = refl

get_user_by_id_lem :
    (f : UserFile) (id : String) → get_user_by_id f id ≡ found_in (has_id id) (current [] f)
unfolding get_user_by_id found_in
get_user_by_id_lem missing id = refl
get_user_by_id_lem (unreadable e) id = refl
get_user_by_id_lem (holds users) id = refl

created :
    (user : CcUser) (c : Result AuthError (List CcUser)) (x : Unit {0}) (t : List CcUser)
    (name : String)
    → (c >>= create_user_in user) ≡ ok (x, t)
    → find? (has_username name) t
      ≡ (if str_eq user.username name then some user else found_in (has_username name) c)
unfolding create_user_in found_in
created user (err e) x t name h = cc
created user (ok users) x t name h =
    ground (arith, find?-append (has_username name) users user, eq_iff user.username name)

-- After a successful creation the new name reads back the new account, and every other name what
-- it read before.
pub get_user_by_username-create_user :
    (user : CcUser) (w : DiskWrite) (f : UserFile) (x : Unit {0}) (name : String)
    → (create_user (some user) w f).1 ≡ ok x
    → get_user_by_username (create_user (some user) w f).0 name
      ≡ (if str_eq user.username name then some user else get_user_by_username f name)
unfolding create_user found_in
get_user_by_username-create_user user w f x name h =
    let (t, ran, kept) = update_ok [] w (create_user_in user) f x h in
    rw (get_user_by_username_lem, kept, get_user_by_username_lem f name)
      (created user (current [] f) x t name ran)

deleted :
    (id : String) (c : Result AuthError (List CcUser)) (x : CcUser) (t : List CcUser) (j : String)
    → (c >>= delete_user_in id true) ≡ ok (x, t)
    → id ≢ j
    → (found_in (has_id id) c ≡ some x) × (find? (has_id j) t ≡ found_in (has_id j) c)
unfolding delete_user_in found_in
deleted id (err e) x t j h ne = cc
deleted id (ok users) x t j h ne = elim (Option-cases (find? (has_id id) users)) [
  | inl absent ↦ ground arith
  | inr (u, found) ↦ ground (
    arith,
    find?-remove_first (has_id id) (has_id j) users
        (λ y p. ground (arith, eq_iff y.id id, eq_iff y.id j)),
  )
]

-- A guarded deletion that succeeds returns the account that the id named, and every other id reads
-- the account that it read before.
pub get_user_by_id-delete_user_with_policy :
    (id : String) (w : DiskWrite) (f : UserFile) (x : CcUser) (j : String)
    → (delete_user_with_policy id w f).1 ≡ ok x
    → id ≢ j
    → (get_user_by_id f id ≡ some x)
      × (get_user_by_id (delete_user_with_policy id w f).0 j ≡ get_user_by_id f j)
unfolding delete_user_with_policy found_in
get_user_by_id-delete_user_with_policy id w f x j h ne =
    let (t, ran, kept) = update_ok [] w (delete_user_in id true) f x h in
    let (was, others) = deleted id (current [] f) x t j ran ne in
    (get_user_by_id_lem f id ∙ was, rw (get_user_by_id_lem, kept, get_user_by_id_lem f j) others)

changed :
    (id role at : String) (c : Result AuthError (List CcUser)) (x : CcUser) (t : List CcUser)
    → (c >>= update_role_in id role at) ≡ ok (x, t)
    → (u : CcUser) × (found_in (has_id id) c ≡ some u)
      × (x ≡ with_role role at u)
      × (find? (has_id id) t ≡ some x)
      × ((j : String) → id ≢ j → find? (has_id j) t ≡ found_in (has_id j) c)
unfolding update_role_in found_in
changed id role at (err e) x t h = cc
changed id role at (ok users) x t h = elim (Option-cases (find? (has_id id) users)) [
  | inl absent ↦ absurd (ground arith)
  | inr (u, found) ↦ (
    u,
    found,
    ground arith,
    ground (
      arith,
      find?_passes (has_id id) users u found,
      find?-update_first_self (has_id id) (with_role role at) users u found,
    ),
    λ j ne. ground (
      arith,
      find?-update_first (has_id id) (has_id j) (with_role role at) users
          (λ y p. ground (arith, eq_iff y.id id, eq_iff y.id j)),
    ),
  )
]

-- A change of role that succeeds returns the named account with the new role and time, the id
-- reads that account from then on, and every other id what it read before.
pub get_user_by_id-update_user_role :
    (id role at : String) (w : DiskWrite) (f : UserFile) (x : CcUser)
    → (update_user_role id role at w f).1 ≡ ok x
    → (u : CcUser) × (get_user_by_id f id ≡ some u)
      × (x ≡ with_role role at u)
      × (get_user_by_id (update_user_role id role at w f).0 id ≡ some x)
      × ((j : String)
          → id ≢ j
          → get_user_by_id (update_user_role id role at w f).0 j ≡ get_user_by_id f j)
unfolding update_user_role found_in
get_user_by_id-update_user_role id role at w f x h =
    let (t, ran, kept) = update_ok [] w (update_role_in id role at) f x h in
    let (u, was, made, named, others) = changed id role at (current [] f) x t ran in
    (
      u,
      get_user_by_id_lem f id ∙ was,
      made,
      rw (get_user_by_id_lem, kept) named,
      λ j ne. rw (get_user_by_id_lem, kept, get_user_by_id_lem f j) (others j ne),
    )
